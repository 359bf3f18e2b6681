-- ===== src/Menu/Choice.antt =====
-- What the loops of the menus come to.
use embedded_pg.Base.{
  ℕ, zero, suc, ◌+◌, ◌*◌, ◌-◌, ◌≤◌, ◌<◌, ◌≡◌, refl, inl, inr, true, Option, none, some, [], ◌∷◌,
  length, arith, Bool-cases, Option-cases, ◌==◌,
}
use embedded_pg.Base.Int.{ℤ, pos}
use embedded_pg.Base.Outcome.{Outcome, ok, fault, hang, stop, starved, ◌>>=◌}
use embedded_pg.Cstring.{Str}
use embedded_pg.Stdio.{is_space, skip_space}
use embedded_pg.Schedule.Register.{
  is_digit, digits_from, scan_digits, with_sign, negated, scan_signed, scan_int, fits_int,
}
use embedded_pg.Terminal.{myflush}
use embedded_pg.Terminal.Ask.{myflush-cases}
use embedded_pg.Menu.{is_entry, ask_entry_on, ask_entry}

length-digits_from : (n : ℕ) (s : Str) → length (digits_from n s).1 ≤ length s
unfolding digits_from
length-digits_from n [] = omega arith
length-digits_from n (c ∷ s) = elim (Bool-cases (is_digit c)) [
  | inl e ↦ rw e (omega (arith, length-digits_from (n * 10 + (c - b'0')) s))
  | inr e ↦ rw e (omega arith)
]

-- A scan takes no more than there is, and a byte at least where it finds a number.
abbrev pub Takes {ℓ} : {A : Type ℓ} → Str → Option A × Str → Type 0
Takes s (none, r) = length r ≤ length s
Takes s (some n, r) = length r < length s

scan_digits-Takes : (s : Str) → Takes s (scan_digits s)
unfolding scan_digits digits_from
scan_digits-Takes [] = omega arith
scan_digits-Takes (c ∷ s) = elim (Bool-cases (is_digit c)) [
  | inl e ↦ rw e (omega (arith, length-digits_from (0 + (c - b'0')) s))
  | inr e ↦ rw e (omega arith)
]

length-skip_space : (s : Str) → length (skip_space s) ≤ length s
unfolding skip_space
length-skip_space [] = omega arith
length-skip_space (c ∷ s) = elim (Bool-cases (is_space c)) [
  | inl e ↦ rw e (omega (arith, length-skip_space s))
  | inr e ↦ rw e (omega arith)
]

with_sign-Takes :
    (f : ℕ → ℤ) (s t : Str) (o : Option ℕ × Str)
    → Takes t o
    → length t ≤ length s
    → Takes s (with_sign f o)
with_sign-Takes f s t (none, r) h k = omega arith
with_sign-Takes f s t (some n, r) h k = omega arith

scan_signed-Takes : (s t : Str) → length t ≤ length s → Takes s (scan_signed t)
unfolding scan_signed
scan_signed-Takes s [] k = omega arith
scan_signed-Takes s (c ∷ r) k = elim (Bool-cases (c == b'-')) [
  | inl e ↦ rw e (with_sign-Takes negated s r (scan_digits r) (scan_digits-Takes r) (omega arith))
  | inr e ↦ elim (Bool-cases (c == b'+')) [
    | inl f ↦
        rw (e, f) (with_sign-Takes pos s r (scan_digits r) (scan_digits-Takes r) (omega arith))
    | inr f ↦
        rw (e, f)
          (with_sign-Takes pos s (c ∷ r) (scan_digits (c ∷ r)) (scan_digits-Takes (c ∷ r)) k)
  ]
]

pub scan_int-Takes : (s : Str) → Takes s (scan_int s)
unfolding scan_int
scan_int-Takes s = scan_signed-Takes s (skip_space s) (length-skip_space s)

pub Takes-le : (s : Str) (o : Option ℤ × Str) → Takes s o → length o.1 ≤ length s
Takes-le s (none, r) h = h
Takes-le s (some n, r) h = omega arith

pub Takes-lt :
    (s : Str) (o : Option ℤ × Str) (n : ℤ) → Takes s o → o.0 ≡ some n → length o.1 < length s
Takes-lt s (none, r) n h e = cc
Takes-lt s (some m, r) n h e = h

-- A number of the menu's entries, a number that an `int` cannot hold, or a loop that never ends.
abbrev pub Chosen : ℕ → Outcome (ℤ × Str) → Type 0
Chosen last (ok (sel, r)) = is_entry last sel ≡ true
Chosen last fault = Unit
Chosen last hang = Unit
Chosen last stop = ⊥
Chosen last starved = ⊥

pub on_none :
    (fuel last : ℕ) (s : Str)
    → (scan_int s).0 ≡ none
    → ask_entry_on (suc fuel) last s ≡ (myflush (scan_int s).1 >>= λ r. ask_entry_on fuel last r)
unfolding ask_entry_on
on_none fuel last s e = rw (e, ask_entry_on) refl

ask_entry_on-Chosen :
    (fuel last : ℕ) (s : Str) → length s < fuel → Chosen last (ask_entry_on fuel last s)
unfolding ask_entry_on
ask_entry_on-Chosen zero last s h = absurd (omega arith)
ask_entry_on-Chosen (suc fuel) last s h = elim (Option-cases (scan_int s).0) [
  | inl e ↦
      let le : length (scan_int s).1 ≤ length s = Takes-le s (scan_int s) (scan_int-Takes s) in
      rw (on_none fuel last s e) (elim (myflush-cases (scan_int s).1) [
        | inl f ↦ rw f tt
        | inr (r, f, k) ↦ rw f (ask_entry_on-Chosen fuel last r (omega arith))
      ])
  | inr (sel, e) ↦
      let lt : length (scan_int s).1 < length s =
        Takes-lt s (scan_int s) sel (scan_int-Takes s) e in
      elim (Bool-cases (fits_int sel)) [
        | inr f ↦ rw (e, ask_entry_on) (rw f tt)
        | inl f ↦ elim (Bool-cases (is_entry last sel)) [
          | inl g ↦ rw (e, ask_entry_on) (rw f (rw g g))
          | inr g ↦
              rw (e, ask_entry_on)
                (rw f (rw g (ask_entry_on-Chosen fuel last (scan_int s).1 (omega arith))))
        ]
      ]
]

-- The loop of a menu ends with the number of one of its entries, with a number that an `int` cannot
-- hold, or waits for ever at the end of the input: the fuel does not run out.
pub ask_entry-Chosen : (last : ℕ) (s : Str) → Chosen last (ask_entry last s)
unfolding ask_entry
ask_entry-Chosen last s = ask_entry_on-Chosen (suc (length s)) last s (omega arith)
