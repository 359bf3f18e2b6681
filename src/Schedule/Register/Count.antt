-- ===== src/Schedule/Register/Count.antt =====
-- The loop that asks how many subjects there are.
use embedded_pg.Base.{
  ℕ, zero, suc, ◌<◌, ◌≡◌, refl, ap, ◌∙◌, true, false, none, some, length, ltb, arith, Bool-cases,
  Option-cases, Option, inl, inr, if◌then◌else◌,
}
use embedded_pg.Base.Int.{ℤ}
use embedded_pg.Base.Outcome.{Outcome, ok, fault, hang}
use embedded_pg.Cstring.{Str}
use embedded_pg.Schedule.Register.Scan.{scan_int-whole}
use embedded_pg.Schedule.Register.{scan_int, fits_int, ask_count_on, ask_count}

-- How the question goes on an input, with no fuel: each scan finds a number that an `int` can take,
-- finds one that it cannot, finds none and leaves less to the next scan, or finds none and leaves all
-- to it, which finds none again for ever.
pub data Asks : Str → Outcome (ℤ × Str) → Type 0 where
  answered : {s r : Str} {n : ℤ} → scan_int s ≡ (some n, r) → fits_int n ≡ true → Asks s (ok (n, r))
  too_large : {s r : Str} {n : ℤ} → scan_int s ≡ (some n, r) → fits_int n ≡ false → Asks s fault
  asked_again :
      {s r : Str} {o : Outcome (ℤ × Str)}
      → scan_int s ≡ (none, r)
      → length r < length s
      → Asks r o
      → Asks s o
  never : {s : Str} → scan_int s ≡ (none, s) → Asks s hang

on_number :
    (fuel : ℕ) (s : Str) (n : ℤ)
    → (scan_int s).0 ≡ some n
    → ask_count_on (suc fuel) s ≡ (if fits_int n then ok (n, (scan_int s).1) else fault)
unfolding ask_count_on
on_number fuel s n e = rw (e, ask_count_on) refl

on_none :
    (fuel : ℕ) (s : Str)
    → (scan_int s).0 ≡ none
    → ask_count_on (suc fuel) s
      ≡ (if ltb (length (scan_int s).1) (length s) then ask_count_on fuel (scan_int s).1 else hang)
unfolding ask_count_on
on_none fuel s e = rw (e, ask_count_on) refl

scanned : (s : Str) (o : Option ℤ) → (scan_int s).0 ≡ o → scan_int s ≡ (o, (scan_int s).1)
scanned s o e = ap (λ x. (x, (scan_int s).1)) e

ask_count_on-Asks : (fuel : ℕ) (s : Str) → length s < fuel → Asks s (ask_count_on fuel s)
ask_count_on-Asks zero s h = absurd (omega arith)
ask_count_on-Asks (suc fuel) s h = elim (Option-cases (scan_int s).0) [
  | inr (n, e) ↦ rw (on_number fuel s n e) (elim (Bool-cases (fits_int n)) [
    | inl f ↦ rw f (answered (scanned s (some n) e) f)
    | inr f ↦ rw f (too_large (scanned s (some n) e) f)
  ])
  | inl e ↦ rw (on_none fuel s e) (elim (Bool-cases (ltb (length (scan_int s).1) (length s))) [
    | inl f ↦ rw f (
        asked_again (scanned s none e) (ground arith)
          (ask_count_on-Asks fuel (scan_int s).1 (ground arith)))
    | inr f ↦
        rw f (never (scanned s none e ∙ ap (λ x. (none, x)) (scan_int-whole s (ground arith))))
  ])
]

-- The loop that asks for the number of subjects goes on as the scans go: it ends with the first number
-- that a scan finds, if an `int` can hold it, and leaves what that scan left; it is undefined if an
-- `int` cannot; and it goes on for ever if a scan finds none and takes nothing. The fuel does not
-- run out.
pub ask_count-Asks : (s : Str) → Asks s (ask_count s)
unfolding ask_count
ask_count-Asks s = ask_count_on-Asks (suc (length s)) s (omega arith)

-- Where the scan finds no number and takes nothing from the input, the loop never ends.
pub ask_count-hangs : (s : Str) → scan_int s ≡ (none, s) → ask_count s ≡ hang
unfolding ask_count
ask_count-hangs s e =
    let stays : ltb (length (scan_int s).1) (length s) ≡ false = rw e (ground arith) in
    on_none (length s) s (ap (λ x. x.0) e) ∙ rw stays refl
