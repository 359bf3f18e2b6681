-- ===== src/Schedule/Align/Laws.antt =====
-- What `re_align` does to its array: it sorts the entries in use, if the slot behind them is of
-- another day, and otherwise reads on into what stands there.
use mathlib.Core.List.{Perm}
use mathlib.Core.List.Perm
use embedded_pg.Base.{
  ◌≡◌, refl, ap, ◌∙◌, false, List, [], ◌∷◌, ◌++◌, arith, length, All, All-imp, Bool-cases, inl, inr,
}
use embedded_pg.Base.Outcome.{ok}
use embedded_pg.Base.Exchange.{
  rounds, IsSorted, length-rounds, rounds-perm, rounds-All, rounds-IsSorted, rounds_of_IsSorted,
}
use embedded_pg.Cstring.{same}
use embedded_pg.Cstring.Order.{same→eq, ≼_refl}
use embedded_pg.Schedule.Entry.{Entry}
use embedded_pg.Schedule.Align.{date_after, re_align}
use embedded_pg.Schedule.Align.Passes.{
  later, Ends, date_loop-eq, time_loop-eq, date_after-total, date_after_trans, date_after_self,
  later-total, later_trans, later_self,
}

-- Ascending by date and, on one day, by time.
abbrev pub IsAligned : List Entry → Type 0
IsAligned = IsSorted later

-- The entries as both loops leave them.
unfoldable pub aligned : List Entry → List Entry
aligned l = rounds later (length l) (rounds date_after (length l) l)

pub aligned-IsAligned : (l : List Entry) → IsAligned (aligned l)
unfolding aligned
aligned-IsAligned l =
    rounds-IsSorted later later-total later_trans later_self (length l)
      (rounds date_after (length l) l) (omega (arith, length-rounds date_after (length l) l))

pub aligned-perm : (l : List Entry) → Perm (aligned l) l
unfolding aligned
aligned-perm l =
    Perm.trans (rounds-perm later (length l) (rounds date_after (length l) l))
      (rounds-perm date_after (length l) l)

Le-by_date : (a b : Entry) → later a b ≡ false → date_after a b ≡ false
Le-by_date a b h = elim (Bool-cases (same a.date b.date)) [
  | inl e ↦ rw (same→eq a.date b.date e) (≼_refl b.date)
  | inr e ↦ rw e at h
]

IsAligned-by_date : (l : List Entry) → IsAligned l → IsSorted date_after l
IsAligned-by_date [] s = tt
IsAligned-by_date (x ∷ l) s = (
  All-imp (λ y. later x y ≡ false) (λ y. date_after x y ≡ false) l (Le-by_date x) s.0,
  IsAligned-by_date l s.1,
)

pub length-aligned : (l : List Entry) → length (aligned l) ≡ length l
unfolding aligned
length-aligned l =
    length-rounds later (length l) (rounds date_after (length l) l)
    ∙ length-rounds date_after (length l) l

pub aligned-All {κ} : (P : Entry → Type κ) (l : List Entry) → All P l → All P (aligned l)
unfolding aligned
aligned-All P l h =
    rounds-All later P (length l) (rounds date_after (length l) l)
      (rounds-All date_after P (length l) l h)

-- Sorting by both loops leaves a sorted list as it is.
pub aligned_of_IsAligned : (l : List Entry) → IsAligned l → aligned l ≡ l
unfolding aligned
aligned_of_IsAligned l s =
    ap (rounds later (length l))
      (rounds_of_IsSorted date_after (length l) l (IsAligned-by_date l s))
    ∙ rounds_of_IsSorted later (length l) l s

pub re_align-eq :
    (l : List Entry) (z : Entry) (zs : List Entry)
    → All (Ends z) l
    → re_align (l ++ z ∷ zs) (length l) ≡ ok (aligned l ++ z ∷ zs)
unfolding re_align aligned
re_align-eq l z zs d =
    let by_date = rounds date_after (length l) l in
    rw (date_loop-eq (length l) l (z ∷ zs) refl) (
      time_loop-eq (length l) by_date z zs (length-rounds date_after (length l) l)
        (rounds-IsSorted date_after date_after-total date_after_trans date_after_self (length l) l
          (omega arith))
        (rounds-All date_after (Ends z) (length l) l d))

-- If the slot behind the entries in use has a date that none of them has, `re_align` comes to its
-- end, permutes those entries so that they ascend by date and then time, and changes nothing behind
-- them.
pub re_align_sorts :
    (l : List Entry) (z : Entry) (zs : List Entry)
    → All (Ends z) l
    → (s : List Entry) × (re_align (l ++ z ∷ zs) (length l) ≡ ok (s ++ z ∷ zs))
      × Perm s l
      × IsAligned s
re_align_sorts l z zs d = (aligned l, re_align-eq l z zs d, aligned-perm l, aligned-IsAligned l)
