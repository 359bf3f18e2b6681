-- ===== src/Schedule/Delete/Steps.antt =====
-- The loops of `delete_sched` on an array whose entries in use are split at the entry that decides.
use embedded_pg.Base.{
  ℕ, suc, ◌-◌, ◌≤◌, ◌<◌, ◌≡◌, refl, ap, ◌∙◌, true, false, List, [], ◌∷◌, ◌++◌, length, replicate,
  drop, drop-replicate, length-replicate, All, All-imp, arith, ◌==◌,
}
use embedded_pg.Base.Outcome.{ok}
use embedded_pg.Cstring.{Str, same, strcmp}
use embedded_pg.Schedule.Entry.{Entry, blank}
use embedded_pg.Schedule.Align.Passes.{Ends}
use embedded_pg.Schedule.File.{read_rows}
use embedded_pg.Schedule.File.RoundTrip.{IsRow, rows_text, read_rows-rows_text}
use embedded_pg.Schedule.Delete.{max_sched, zeroed, count_date, shift, ended, refused, remove_on}

-- The slots behind the first `n`.
pub spare : ℕ → List Entry
spare n = replicate (max_sched - suc n) blank

drop-zeroed : (k : ℕ) → k < max_sched → drop k zeroed ≡ blank ∷ spare k
unfolding zeroed spare
drop-zeroed k h = drop-replicate max_sched k blank h

length-zeroed : length zeroed ≡ max_sched
unfolding zeroed
length-zeroed = length-replicate max_sched blank

-- A file of well-formed rows, fewer than the slots, comes into the array with zeroed slots behind.
pub load_zeroed :
    (l : List Entry)
    → length l < max_sched
    → All IsRow l
    → read_rows zeroed (rows_text l) ≡ ok (l ++ blank ∷ spare (length l), length l)
load_zeroed l h r =
    read_rows-rows_text l zeroed (omega (arith, length-zeroed)) r
    ∙ ap (λ (x : List Entry). ok (l ++ x, length l)) (drop-zeroed (length l) h)

not_same-nil : (s : Str) → 1 ≤ length s → same s [] ≡ false
unfolding strcmp
not_same-nil [] h = absurd (omega arith)
not_same-nil (c ∷ s) h = refl

pub IsRow-Ends : (l : List Entry) → All IsRow l → All (Ends blank) l
IsRow-Ends l = All-imp IsRow (Ends blank) l λ e f. not_same-nil e.date f.date_field.some_byte

pub shift-eq :
    (e : Entry) (post : List Entry) (z : Entry) (zs : List Entry)
    → shift (suc (length post)) (e ∷ (post ++ z ∷ zs)) ≡ ok (post ++ z ∷ z ∷ zs)
unfolding shift
shift-eq e [] z zs = refl
shift-eq e (x ∷ post) z zs = rw (shift-eq x post z zs)

-- None of the entries is of the date.
abbrev pub NoneOn : Str → List Entry → Type 0
NoneOn d = All (λ e. same d e.date ≡ false)

pub count_date-ne_zero :
    (d : Str) (pre : List Entry) (e : Entry) (post : List Entry)
    → same d e.date ≡ true
    → (count_date d (pre ++ e ∷ post) == 0) ≡ false
unfolding count_date
count_date-ne_zero d [] e post h = ground arith
count_date-ne_zero d (x ∷ pre) e post h = ground (arith, count_date-ne_zero d pre e post h)

pub count_date-zero : (d : Str) (l : List Entry) → NoneOn d l → count_date d l ≡ 0
unfolding count_date
count_date-zero d [] h = refl
count_date-zero d (x ∷ l) h = rw h.0 (count_date-zero d l h.1)

module _ (d n : Str) (e : Entry) (post : List Entry) (z : Entry) (zs : List Entry) where
  pub remove_on-removed :
      (pre : List Entry)
      → NoneOn d pre
      → same d e.date ≡ true
      → same n e.name_sub ≡ true
      → remove_on d n (length (pre ++ e ∷ post)) ((pre ++ e ∷ post) ++ z ∷ zs)
        ≡ ok (ended ((pre ++ post) ++ z ∷ z ∷ zs) (length (pre ++ post)))
  unfolding remove_on
  remove_on-removed [] h p q = rw p (rw q (rw (shift-eq e post z zs)))
  remove_on-removed (x ∷ pre) h p q = rw h.0 (rw (remove_on-removed pre h.1 p q))

  pub remove_on-refused :
      (pre : List Entry)
      → NoneOn d pre
      → same d e.date ≡ true
      → same n e.name_sub ≡ false
      → remove_on d n (length (pre ++ e ∷ post)) ((pre ++ e ∷ post) ++ z ∷ zs) ≡ ok refused
  unfolding remove_on
  remove_on-refused [] h p q = rw p (rw q)
  remove_on-refused (x ∷ pre) h p q = rw h.0 (rw (remove_on-refused pre h.1 p q))
