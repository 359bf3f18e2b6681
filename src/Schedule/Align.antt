-- ===== src/Schedule/Align.antt =====
-- `re_align` of studysys/schedule.c. An array is the list of its elements from the index that a loop
-- has come to; a loop that reads beyond the end of the array is a fault.
pub mod Passes
pub mod Laws
pub mod Overrun
use embedded_pg.Base.{ℕ, zero, suc, Bool, true, false, List, [], ◌∷◌, if◌then◌else◌}
use embedded_pg.Base.Outcome.{Outcome, ok, fault, ◌>>=◌}
use embedded_pg.Cstring.{same, after}
use embedded_pg.Schedule.Entry.{Entry}

-- `strcmp(a[i].date, a[j].date) > 0`
abbrev pub date_after : Entry → Entry → Bool
date_after x y = after x.date y.date

-- `strcmp(a[i].time, a[j].time) > 0`
abbrev pub time_after : Entry → Entry → Bool
time_after x y = after x.time y.time

-- The three `memcpy`s exchange a[i] and a[j]: the new a[i] and a[j].
abbrev pub swap_if : Bool → Entry → Entry → Entry × Entry
swap_if b x y = if b then (y, x) else (x, y)

-- `for (j = i + 1; j < n; j++)`: the number is n - j, `x` is a[i], and the list begins at a[j].
unfoldable pub date_pass : ℕ → Entry → List Entry → Outcome (Entry × List Entry)
date_pass zero x l = ok (x, l)
date_pass (suc k) x [] = fault
date_pass (suc k) x (y ∷ l) = do
  let (x', y') = swap_if (date_after x y) x y
  (m, r) ← date_pass k x' l
  ok (m, y' ∷ r)

-- the first `for (i = 0; i < n; i++)`: the number is n - i, and the list begins at a[i]
unfoldable pub date_loop : ℕ → List Entry → Outcome (List Entry)
unfolding date_pass
date_loop zero l = ok l
date_loop (suc k) [] = fault
date_loop (suc k) (x ∷ l) = do (m, r) ← date_pass k x l; r' ← date_loop k r; ok (m ∷ r')

-- `for (j = i + 1; !strcmp(a[i].date, a[j].date); j++)`, which has no bound but the array's end
unfoldable pub time_pass : Entry → List Entry → Outcome (Entry × List Entry)
time_pass x [] = fault
time_pass x (y ∷ l) = elim (same x.date y.date) [
  | true ↦ do let (x', y') = swap_if (time_after x y) x y; (m, r) ← time_pass x' l; ok (m, y' ∷ r)
  | false ↦ ok (x, y ∷ l)
]

-- the second `for (i = 0; i < n; i++)`
unfoldable pub time_loop : ℕ → List Entry → Outcome (List Entry)
unfolding time_pass
time_loop zero l = ok l
time_loop (suc k) [] = fault
time_loop (suc k) (x ∷ l) = do (m, r) ← time_pass x l; r' ← time_loop k r; ok (m ∷ r')

unfoldable pub re_align : List Entry → ℕ → Outcome (List Entry)
unfolding date_loop time_loop
re_align a n = do a' ← date_loop n a; time_loop n a'
