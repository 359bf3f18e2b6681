-- ===== src/Schedule/Register/Scan.antt =====
-- What the scan of a number leaves is an end of what it was given.
use embedded_pg.Base.{
  ℕ, ◌+◌, ◌*◌, ◌-◌, ◌≤◌, ◌≡◌, refl, sym, ap, ◌∙◌, inl, inr, Option, none, some, [], ◌∷◌, ◌++◌,
  append_assoc, length, length-append, arith, Bool-cases, ◌==◌,
}
use embedded_pg.Base.Int.{ℤ, pos}
use embedded_pg.Cstring.{Str}
use embedded_pg.Stdio.{is_space, skip_space}
use embedded_pg.Schedule.Register.{
  is_digit, digits_from, scan_digits, negated, with_sign, scan_signed, scan_int,
}

abbrev pub Suffix : Str → Str → Type 0
Suffix s r = (pre : Str) × (s ≡ pre ++ r)

Suffix-cons : (c : ℕ) (s r : Str) → Suffix s r → Suffix (c ∷ s) r
Suffix-cons c s r (pre, e) = (c ∷ pre, ap (◌∷◌ c) e)

Suffix_trans : (s t r : Str) → Suffix s t → Suffix t r → Suffix s r
Suffix_trans s t r (p, e) (q, f) = (p ++ q, e ∙ ap (◌++◌ p) f ∙ sym (append_assoc p q r))

skip_space-Suffix : (s : Str) → Suffix s (skip_space s)
unfolding skip_space
skip_space-Suffix [] = ([], refl)
skip_space-Suffix (c ∷ s) = elim (Bool-cases (is_space c)) [
  | inl e ↦ rw e (Suffix-cons c s (skip_space s) (skip_space-Suffix s))
  | inr e ↦ rw e ([], refl)
]

digits_from-Suffix : (n : ℕ) (s : Str) → Suffix s (digits_from n s).1
unfolding digits_from
digits_from-Suffix n [] = ([], refl)
digits_from-Suffix n (c ∷ s) = elim (Bool-cases (is_digit c)) [
  | inl e ↦ rw e (
      Suffix-cons c s (digits_from (n * 10 + (c - b'0')) s).1
        (digits_from-Suffix (n * 10 + (c - b'0')) s))
  | inr e ↦ rw e ([], refl)
]

scan_digits-Suffix : (s : Str) → Suffix s (scan_digits s).1
unfolding scan_digits
scan_digits-Suffix [] = ([], refl)
scan_digits-Suffix (c ∷ s) = elim (Bool-cases (is_digit c)) [
  | inl e ↦
      rw (e, scan_digits)
        (Suffix-cons c s (digits_from (0 + (c - b'0')) s).1 (digits_from-Suffix (0 + (c - b'0')) s))
  | inr e ↦ rw (e, scan_digits) ([], refl)
]

with_sign-Suffix :
    (f : ℕ → ℤ) (s : Str) (o : Option ℕ × Str) → Suffix s o.1 → Suffix s (with_sign f o).1
with_sign-Suffix f s (none, r) h = h
with_sign-Suffix f s (some n, r) h = h

scan_signed-Suffix : (s : Str) → Suffix s (scan_signed s).1
unfolding scan_signed
scan_signed-Suffix [] = ([], refl)
scan_signed-Suffix (c ∷ r) = elim (Bool-cases (c == b'-')) [
  | inl e ↦ rw e (
      with_sign-Suffix negated (c ∷ r) (scan_digits r)
        (Suffix-cons c r (scan_digits r).1 (scan_digits-Suffix r)))
  | inr e ↦ elim (Bool-cases (c == b'+')) [
    | inl f ↦
        rw (e, f)
          (with_sign-Suffix pos (c ∷ r) (scan_digits r)
            (Suffix-cons c r (scan_digits r).1 (scan_digits-Suffix r)))
    | inr f ↦
        rw (e, f) (with_sign-Suffix pos (c ∷ r) (scan_digits (c ∷ r)) (scan_digits-Suffix (c ∷ r)))
  ]
]

scan_int-Suffix : (s : Str) → Suffix s (scan_int s).1
unfolding scan_int
scan_int-Suffix s =
    Suffix_trans s (skip_space s) (scan_signed (skip_space s)).1 (skip_space-Suffix s)
      (scan_signed-Suffix (skip_space s))

Suffix-whole : (s r : Str) → Suffix s r → length s ≤ length r → r ≡ s
Suffix-whole s r ([], e) h = sym e
Suffix-whole s r (c ∷ pre, e) h = absurd (omega (arith, h, ap length e, length-append pre r))

-- A scan that takes nothing leaves all there was.
pub scan_int-whole : (s : Str) → length s ≤ length (scan_int s).1 → (scan_int s).1 ≡ s
scan_int-whole s h = Suffix-whole s (scan_int s).1 (scan_int-Suffix s) h
