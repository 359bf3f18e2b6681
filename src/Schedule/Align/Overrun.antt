-- ===== src/Schedule/Align/Overrun.antt =====
-- What `re_align` does where no slot of another day stands behind the entries in use.
use embedded_pg.Base.{
  ℕ, zero, suc, ◌≡◌, refl, sym, ap, append-nil, ◌∙◌, true, false, List, [], ◌∷◌, arith, length, inl,
  inr, ◌⊎◌, Bool-cases,
}
use embedded_pg.Base.Outcome.{Outcome, ok, fault}
use embedded_pg.Base.Exchange.{rounds, length-rounds}
use embedded_pg.Cstring.{same, after, is_eq}
use embedded_pg.Cstring.Order.{strcmp_self}
use embedded_pg.Schedule.Align.Passes.{date_loop-eq}
use embedded_pg.Schedule.Entry.{Entry}
use embedded_pg.Schedule.Align.{
  date_after, time_after, date_pass, date_loop, time_pass, time_loop, re_align, swap_if,
}

-- A pass over the rest of the array keeps its length or runs off its end.
PassEnds : ℕ → Outcome (Entry × List Entry) → Type 0
PassEnds n o = (o ≡ fault) ⊎ ((m : Entry) × (r : List Entry) × (o ≡ ok (m, r)) × (length r ≡ n))

time_pass-PassEnds : (x : Entry) (l : List Entry) → PassEnds (length l) (time_pass x l)
unfolding PassEnds time_pass
time_pass-PassEnds x [] = inl refl
time_pass-PassEnds x (y ∷ l) = elim (Bool-cases (same x.date y.date)) [
  | inl e ↦ elim (time_pass-PassEnds (swap_if (time_after x y) x y).0 l) [
    | inl f ↦ inl (rw (e, time_pass) (rw f))
    | inr (m, r, f, n) ↦
        inr (m, (swap_if (time_after x y) x y).1 ∷ r, rw (e, time_pass) (rw f), ap suc n)
  ]
  | inr n ↦ inr (x, y ∷ l, rw (n, time_pass), refl)
]

time_loop-full : (k : ℕ) (l : List Entry) → length l ≡ suc k → time_loop (suc k) l ≡ fault
unfolding time_loop PassEnds
time_loop-full k [] e = ground arith
time_loop-full zero (x ∷ []) e = refl
time_loop-full zero (x ∷ y ∷ l) e = ground arith
time_loop-full (suc k) (x ∷ l) e = elim (time_pass-PassEnds x l) [
  | inl f ↦ rw f
  | inr (m, r, f, n) ↦ rw f (rw (time_loop-full k r (omega arith)))
]

date_loop-full : (l : List Entry) → date_loop (length l) l ≡ ok (rounds date_after (length l) l)
date_loop-full l =
    let e = date_loop-eq (length l) l [] refl in
    ap (date_loop (length l)) (sym (append-nil l)) ∙ e ∙ ap ok (append-nil _)

-- An array that is full to its last slot, with at least one entry, is read beyond its end.
pub re_align_full : (x : Entry) (l : List Entry) → re_align (x ∷ l) (length (x ∷ l)) ≡ fault
unfolding re_align
re_align_full x l = rw (date_loop-full (x ∷ l)) (
    time_loop-full (length l) (rounds date_after (length (x ∷ l)) (x ∷ l))
      (length-rounds date_after (length (x ∷ l)) (x ∷ l)))

-- With one entry in use, behind it a slot that is not in use, of the same date and an earlier time,
-- and behind that a slot of another date, `re_align` swaps the entry and the first of these slots.
pub re_align_pulls_in :
    (x z w : Entry) (zs : List Entry)
    → x.date ≡ z.date
    → after x.time z.time ≡ true
    → same x.date w.date ≡ false
    → re_align (x ∷ z ∷ w ∷ zs) 1 ≡ ok (z ∷ x ∷ w ∷ zs)
unfolding re_align date_loop time_loop date_pass time_pass
re_align_pulls_in x z w zs e h n =
    let s : same x.date z.date ≡ true = rw (← e) (ap is_eq (strcmp_self x.date)) in
    let n' : same z.date w.date ≡ false = rw e at n in
    let sw : swap_if (time_after x z) x z ≡ (z, x) = rw h in
    rw (s, time_pass) (rw sw (rw (n', time_pass) (rw sw)))
