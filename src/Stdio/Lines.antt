-- ===== src/Stdio/Lines.antt =====
-- The lines of a text as `fgets` gives them.
use embedded_pg.Base.{
  ℕ, ◌+◌, ◌-◌, ◌<◌, ◌≡◌, refl, false, ◌||◌, List, [], ◌∷◌, ◌++◌, length, leb, ◌==◌, All, arith,
  if◌then◌else◌,
}
use embedded_pg.Cstring.{Str}

-- BUF_SIZE
abbrev pub buf_size : ℕ
buf_size = 1024

-- A byte in front of the first line.
abbrev pub onto_first : ℕ → List Str → List Str
onto_first c [] = (c ∷ []) ∷ []
onto_first c (l ∷ ls) = (c ∷ l) ∷ ls

-- What `fgets` into an array of `room` bytes gives, call after call: a line with its newline, or as
-- much of it as fits. `left` is how much the array takes from here on.
unfoldable pub fgets_lines : ℕ → ℕ → Str → List Str
fgets_lines room left [] = []
fgets_lines room left (c ∷ s) =
    let ends = c == b'\n' || leb left 2 in
    let rest = fgets_lines room (if ends then room else left - 1) s in
    if ends then (c ∷ []) ∷ rest else onto_first c rest

-- The lines of a file that is read through `char buf[BUF_SIZE]`.
unfoldable pub file_lines : Str → List Str
unfolding fgets_lines
file_lines s = fgets_lines buf_size buf_size s

-- A line without a newline in it that fits is read whole.
pub fgets_lines-line :
    (room left : ℕ) (s rest : Str)
    → length s + 2 < left
    → All (λ c. (c == b'\n') ≡ false) s
    → fgets_lines room left (s ++ b'\n' ∷ rest) ≡ (s ++ b'\n' ∷ []) ∷ fgets_lines room room rest
unfolding fgets_lines
fgets_lines-line room left [] rest h n = refl
fgets_lines-line room left (c ∷ s) rest h n =
    let on : leb left 2 ≡ false = ground arith in
    rw n.0 (rw on (rw (fgets_lines-line room (left - 1) s rest (omega arith) n.1) refl))
