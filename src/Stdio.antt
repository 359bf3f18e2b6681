-- ===== src/Stdio.antt =====
-- What the program uses of C's formatted input and output, on texts as lists of bytes: the
-- conversions %s and %6s of `scanf`, and %s, %6s and %02d of `printf`. Texts hold no NUL byte.
pub mod Laws
pub mod Decimal
pub mod Lines
use embedded_pg.Base.{
  ℕ, zero, suc, ◌+◌, ◌-◌, ◌/◌, ◌%◌, Bool, true, false, ◌&&◌, ◌||◌, List, [], ◌∷◌, ◌++◌, length,
  replicate, leb, ◌==◌, if◌then◌else◌,
}
use embedded_pg.Cstring.{Str}

-- `isspace` of the C locale
unfoldable pub is_space : ℕ → Bool
is_space c = leb 9 c && leb c 13 || c == b' '

unfoldable pub skip_space : Str → Str
unfolding is_space
skip_space [] = []
skip_space (c ∷ s) = if is_space c then skip_space s else c ∷ s

-- The bytes up to the next white space, and what follows them.
unfoldable pub word : Str → Str × Str
unfolding is_space
word [] = ([], [])
word (c ∷ s) = let (w, r) = word s in if is_space c then ([], c ∷ s) else (c ∷ w, r)

-- The same, but `n` bytes at most.
unfoldable pub word_upto : ℕ → Str → Str × Str
unfolding is_space
word_upto zero s = ([], s)
word_upto (suc n) [] = ([], [])
word_upto (suc n) (c ∷ s) =
    let (w, r) = word_upto n s in if is_space c then ([], c ∷ s) else (c ∷ w, r)

-- `%s` and `%6s`: the word is empty exactly where the text has no other than white space left.
unfoldable pub scan_word : Str → Str × Str
unfolding skip_space word
scan_word s = word (skip_space s)

unfoldable pub scan_word_upto : ℕ → Str → Str × Str
unfolding skip_space word_upto
scan_word_upto n s = word_upto n (skip_space s)

abbrev pub is_nil {ℓ} : {A : Type ℓ} → List A → Bool
is_nil [] = true
is_nil (x ∷ l) = false

-- `printf("%6s", s)`, for any width
unfoldable pub pad_left : ℕ → Str → Str
pad_left n s = replicate (n - length s) b' ' ++ s

-- `sprintf(buf, "%02d", n)` for n below 100
unfoldable pub two_digits : ℕ → Str
two_digits n = (b'0' + n / 10) ∷ (b'0' + n % 10) ∷ []
