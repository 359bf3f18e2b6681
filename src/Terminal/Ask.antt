-- ===== src/Terminal/Ask.antt =====
-- What the loops that ask for a word come to.
use embedded_pg.Base.{
  ℕ, zero, suc, ◌+◌, ◌-◌, ◌≤◌, ◌<◌, ◌≡◌, refl, true, false, Option, none, some, [], ◌∷◌, ◌++◌,
  length, ltb, ◌==◌, arith, Bool-cases, inl, inr, ◌⊎◌,
}
use embedded_pg.Base.Outcome.{Outcome, ok, fault, hang, stop, starved, ◌>>=◌}
use embedded_pg.Cstring.{Str}
use embedded_pg.Stdio.{is_space, scan_word, is_nil}
use embedded_pg.Stdio.Laws.{
  scan_word-space, is_nil-false, NoSpace, length-scan_word, scan_word-NoSpace, IsField, Breaks,
  scan_word-append,
}
use embedded_pg.Terminal.{myflush, scan_into, ask_exact_on, ask_exact, ask_subject}

pub myflush-cases :
    (s : Str) → (myflush s ≡ hang) ⊎ ((r : Str) × (myflush s ≡ ok r) × (length r < length s))
unfolding myflush
myflush-cases [] = inl refl
myflush-cases (c ∷ s) = elim (Bool-cases (c == b'\n')) [
  | inl e ↦ inr (s, rw e, omega arith)
  | inr e ↦ elim (myflush-cases s) [
    | inl f ↦ inl (rw e f)
    | inr (r, f, h) ↦ inr (r, rw e f, omega arith)
  ]
]

-- A word with no white space, of exactly `n` bytes and not the whole of its array, or a loop that
-- waits for ever at the end of the input, or an array that overflows.
abbrev pub Answers : ℕ → ℕ → Outcome (Str × Str) → Type 0
Answers room n (ok (w, r)) = (length w ≡ n) × (length w < room) × NoSpace w
Answers room n fault = Unit
Answers room n hang = Unit
Answers room n stop = ⊥
Answers room n starved = ⊥

-- What one scan comes to.
pub data Scanned (room : ℕ) (s : Str) (o : Outcome (Option (Str × Str))) : Type 0 where
  at_end : o ≡ ok none → Scanned room s o
  too_long : o ≡ fault → Scanned room s o
  got :
      (w r : Str)
      → o ≡ ok (some (w, r))
      → 1 ≤ length w
      → length w < room
      → NoSpace w
      → length w + length r ≤ length s
      → Scanned room s o

length-not_nil : (w : Str) → is_nil w ≡ false → 1 ≤ length w
length-not_nil [] h = ground arith
length-not_nil (c ∷ w) h = omega arith

pub scan_into-Scanned : (room : ℕ) (s : Str) → Scanned room s (scan_into room s)
unfolding scan_into
scan_into-Scanned room s = elim (Bool-cases (is_nil (scan_word s).0)) [
  | inl e ↦ at_end (rw e)
  | inr e ↦ elim (Bool-cases (ltb (length (scan_word s).0) room)) [
    | inl l ↦
        got (scan_word s).0 (scan_word s).1 (rw e (rw l)) (length-not_nil (scan_word s).0 e)
          (ground arith) (scan_word-NoSpace s) (length-scan_word s)
    | inr l ↦ too_long (rw e (rw l))
  ]
]

module _ (fuel room n : ℕ) (s : Str) where
  on_end : scan_into room s ≡ ok none → ask_exact_on (suc fuel) room n s ≡ hang
  unfolding ask_exact_on
  on_end e = rw e

  on_fault : scan_into room s ≡ fault → ask_exact_on (suc fuel) room n s ≡ fault
  unfolding ask_exact_on
  on_fault e = rw e

  module _ (w r : Str) (e : scan_into room s ≡ ok (some (w, r))) where
    on_answer : (length w == n) ≡ true → ask_exact_on (suc fuel) room n s ≡ ok (w, r)
    unfolding ask_exact_on
    on_answer y = ground arith

    on_retry :
        (length w == n) ≡ false
        → ask_exact_on (suc fuel) room n s ≡ (myflush r >>= ask_exact_on fuel room n)
    unfolding ask_exact_on
    on_retry y = ground arith

ask_exact_on-Answers :
    (fuel room n : ℕ) (s : Str) → length s < fuel → Answers room n (ask_exact_on fuel room n s)
ask_exact_on-Answers zero room n s h = absurd (omega arith)
ask_exact_on-Answers (suc fuel) room n s h = elim (scan_into-Scanned room s) [
  | at_end e ↦ rw (on_end fuel room n s e) tt
  | too_long e ↦ rw (on_fault fuel room n s e) tt
  | got w r e p q ns le ↦ elim (Bool-cases (length w == n)) [
    | inl y ↦ rw (on_answer fuel room n s w r e y) (ground arith, q, ns)
    | inr y ↦ rw (on_retry fuel room n s w r e y) (elim (myflush-cases r) [
      | inl f ↦ rw f tt
      | inr (r', f, k) ↦ rw f (ask_exact_on-Answers fuel room n r' (omega arith))
    ])
  ]
]

-- The loop that asks for a word of exactly `n` bytes ends with such a word that fits in its array,
-- with an overflow of the array, or waiting at the end of the input: the fuel never runs out.
pub ask_exact-Answers : (room n : ℕ) (s : Str) → Answers room n (ask_exact room n s)
unfolding ask_exact
ask_exact-Answers room n s = ask_exact_on-Answers (suc (length s)) room n s (omega arith)

-- A well-formed answer is taken as typed.
pub scan_into-eq :
    (room : ℕ) (w r : Str)
    → IsField (room - 1) w
    → Breaks r
    → scan_into room (w ++ r) ≡ ok (some (w, r))
unfolding scan_into
scan_into-eq room w r f b =
    rw (scan_word-append 0 (room - 1) w r f b) (rw (is_nil-false (room - 1) w f) (ground arith))

pub ask_exact-eq :
    (room n : ℕ) (w r : Str)
    → IsField (room - 1) w
    → length w ≡ n
    → Breaks r
    → ask_exact room n (w ++ r) ≡ ok (w, r)
unfolding ask_exact
ask_exact-eq room n w r f e b =
    on_answer (length (w ++ r)) room n (w ++ r) w r (scan_into-eq room w r f b) (ground arith)

pub ask_subject-eq : (w r : Str) → IsField 19 w → Breaks r → ask_subject (w ++ r) ≡ ok (w, r)
unfolding ask_subject
ask_subject-eq w r f b = rw (scan_into-eq 20 w r f b)

-- The newline behind the last answer is skipped.
pub scan_into-newline : (room : ℕ) (s : Str) → scan_into room (b'\n' ∷ s) ≡ scan_into room s
unfolding scan_into is_space
scan_into-newline room s = rw (scan_word-space b'\n' s refl)

pub ask_subject-newline : (s : Str) → ask_subject (b'\n' ∷ s) ≡ ask_subject s
unfolding ask_subject
ask_subject-newline s = rw (scan_into-newline 20 s)
