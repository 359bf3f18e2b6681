-- ===== src/Bright/Find.antt =====
-- What `get_subject_bright` finds in a file of rows.
use embedded_pg.Base.{
  ℕ, zero, suc, ◌*◌, ◌<◌, ◌≡◌, refl, ap, ◌∙◌, true, false, List, [], ◌∷◌, ◌++◌, length,
  length-append, All, arith,
}
use embedded_pg.Base.Int.{pos}
use embedded_pg.Base.Outcome.{ok}
use embedded_pg.Cstring.{Str, same}
use embedded_pg.Terminal.Ask.{scan_into-newline}
use embedded_pg.Bright.{scan_subject, find_bright}
use embedded_pg.Bright.Rows.{Row, IsRow, row_text, rows_text, scan_subject-row, length-row_text}

scan_subject-newline : (s : Str) → scan_subject (b'\n' ∷ s) ≡ scan_subject s
unfolding scan_subject
scan_subject-newline s = rw (scan_into-newline 20 s) refl

find_bright-newline :
    (fuel : ℕ) (name s : Str) → find_bright fuel name (b'\n' ∷ s) ≡ find_bright fuel name s
unfolding find_bright
find_bright-newline zero name s = refl
find_bright-newline (suc fuel) name s = rw (scan_subject-newline s) refl

-- None of the rows has the name.
abbrev pub NotNamed : Str → List Row → Type 0
NotNamed name = All (λ s. same name s.name ≡ false)

pub find_bright-rows :
    (fuel : ℕ) (name : Str) (pre : List Row) (s : Row) (post : List Row)
    → length pre < fuel
    → All IsRow pre
    → IsRow s
    → NotNamed name pre
    → same name s.name ≡ true
    → find_bright fuel name (rows_text (pre ++ s ∷ post)) ≡ ok (pos s.bright)
unfolding find_bright rows_text
find_bright-rows zero name pre s post h f g n m = absurd (omega arith)
find_bright-rows (suc fuel) name [] s post h f g n m = rw (scan_subject-row s g (rows_text post)) (
    ap
      (λ b. elim b [
        | true ↦ ok (pos s.bright)
        | false ↦ find_bright fuel name (b'\n' ∷ rows_text post)
      ])
      m)
find_bright-rows (suc fuel) name (x ∷ pre) s post h f g n m =
    let others : Str = rows_text (pre ++ s ∷ post) in
    rw (scan_subject-row x f.0 others) (
      ap (λ b. elim b [ true ↦ ok (pos x.bright) | false ↦ find_bright fuel name (b'\n' ∷ others) ])
        n.0
      ∙ find_bright-newline fuel name others
      ∙ find_bright-rows fuel name pre s post (omega arith) f.1 g n.1 m)

-- A row takes 25 bytes.
length-rows_text : (l : List Row) → All IsRow l → length (rows_text l) ≡ length l * 25
unfolding rows_text
length-rows_text [] f = refl
length-rows_text (s ∷ l) f =
    omega (
      arith,
      length-append (row_text s) (rows_text l),
      length-row_text s f.0,
      length-rows_text l f.1,
    )

-- The rows are fewer than the bytes, so the fuel is enough.
pub fuel_enough :
    (pre : List Row) (s : Row) (post : List Row)
    → All IsRow (pre ++ s ∷ post)
    → length pre < suc (length (rows_text (pre ++ s ∷ post)))
fuel_enough pre s post h =
    omega (arith, length-rows_text (pre ++ s ∷ post) h, length-append pre (s ∷ post))
