-- ===== src/Stdio/Laws.antt =====
-- Words that were written are read back.
use embedded_pg.Base.{
  ℕ, zero, suc, ◌+◌, ◌-◌, ◌≤◌, ◌≡◌, refl, ap, ◌∙◌, true, false, [], ◌∷◌, ◌++◌, length, replicate,
  All, arith, append_assoc,
}
use embedded_pg.Cstring.{Str}
use embedded_pg.Stdio.{
  is_space, skip_space, word, word_upto, scan_word, scan_word_upto, pad_left, is_nil,
}

abbrev pub NoSpace : Str → Type 0
NoSpace = All (λ c. is_space c ≡ false)

-- What fits as one word of at most `n` bytes.
pub record IsField (n : ℕ) (s : Str) : Type 0 where
  pub some_byte : 1 ≤ length s
  pub fits : length s ≤ n
  pub no_space : NoSpace s

-- A text that is empty or begins with white space.
abbrev pub Breaks : Str → Type 0
Breaks [] = Unit
Breaks (c ∷ r) = is_space c ≡ true

pub skip_space-word : (s r : Str) → 1 ≤ length s → NoSpace s → skip_space (s ++ r) ≡ s ++ r
unfolding skip_space
skip_space-word [] r h n = absurd (omega arith)
skip_space-word (c ∷ s) r h n = rw n.0

pub skip_space-replicate : (k : ℕ) (s : Str) → skip_space (replicate k b' ' ++ s) ≡ skip_space s
unfolding skip_space
skip_space-replicate zero s = refl
skip_space-replicate (suc k) s = skip_space-replicate k s

pub word-append : (s r : Str) → NoSpace s → Breaks r → word (s ++ r) ≡ (s, r)
unfolding word
word-append [] [] n b = refl
word-append [] (c ∷ r) n b = rw b
word-append (c ∷ s) r n b = rw n.0 (rw (word-append s r n.1 b))

pub word_upto-append :
    (k : ℕ) (s r : Str) → length s ≤ k → NoSpace s → Breaks r → word_upto k (s ++ r) ≡ (s, r)
unfolding word_upto
word_upto-append zero [] r h n b = refl
word_upto-append zero (c ∷ s) r h n b = absurd (omega arith)
word_upto-append (suc k) [] [] h n b = refl
word_upto-append (suc k) [] (c ∷ r) h n b = rw b
word_upto-append (suc k) (c ∷ s) r h n b = rw n.0 (rw (word_upto-append k s r (omega arith) n.1 b))

pub scan_word-append :
    (k n : ℕ) (s r : Str)
    → IsField n s
    → Breaks r
    → scan_word (replicate k b' ' ++ (s ++ r)) ≡ (s, r)
unfolding scan_word
scan_word-append k n s r f b =
    ap word (skip_space-replicate k (s ++ r) ∙ skip_space-word s r f.some_byte f.no_space)
    ∙ word-append s r f.no_space b

pub scan_word_upto-append :
    (k n : ℕ) (s r : Str)
    → IsField n s
    → Breaks r
    → scan_word_upto n (replicate k b' ' ++ (s ++ r)) ≡ (s, r)
unfolding scan_word_upto
scan_word_upto-append k n s r f b =
    ap (word_upto n) (skip_space-replicate k (s ++ r) ∙ skip_space-word s r f.some_byte f.no_space)
    ∙ word_upto-append n s r f.fits f.no_space b

-- What `printf("%6s", s)` writes is read back by `%s` and `%6s`.
pub scan_word_upto-pad_left :
    (m n : ℕ) (s r : Str) → IsField n s → Breaks r → scan_word_upto n (pad_left m s ++ r) ≡ (s, r)
unfolding pad_left
scan_word_upto-pad_left m n s r f b =
    ap (scan_word_upto n) (append_assoc (replicate (m - length s) b' ') s r)
    ∙ scan_word_upto-append (m - length s) n s r f b

pub scan_word_upto-space :
    (n c : ℕ) (s : Str) → is_space c ≡ true → scan_word_upto n (c ∷ s) ≡ scan_word_upto n s
unfolding scan_word_upto
scan_word_upto-space n c s e = rw e

-- Reading a word shortens the text by the word at least.
pub length-skip_space : (s : Str) → length (skip_space s) ≤ length s
unfolding skip_space
length-skip_space [] = omega arith
length-skip_space (c ∷ s) = ground (arith, length-skip_space s)

pub length-word : (s : Str) → length (word s).0 + length (word s).1 ≡ length s
unfolding word
length-word [] = refl
length-word (c ∷ s) = ground (arith, length-word s)

pub length-scan_word : (s : Str) → length (scan_word s).0 + length (scan_word s).1 ≤ length s
unfolding scan_word
length-scan_word s = omega (arith, length-word (skip_space s), length-skip_space s)

pub word-NoSpace : (s : Str) → NoSpace (word s).0
unfolding word
word-NoSpace [] = tt
word-NoSpace (c ∷ s) = ground (arith, word-NoSpace s)

pub scan_word-NoSpace : (s : Str) → NoSpace (scan_word s).0
unfolding scan_word
scan_word-NoSpace s = word-NoSpace (skip_space s)

pub is_nil-false : (n : ℕ) (s : Str) → IsField n s → is_nil s ≡ false
is_nil-false n [] f = absurd (omega arith)
is_nil-false n (c ∷ s) f = refl

pub scan_word-space : (c : ℕ) (s : Str) → is_space c ≡ true → scan_word (c ∷ s) ≡ scan_word s
unfolding scan_word
scan_word-space c s e = rw e
