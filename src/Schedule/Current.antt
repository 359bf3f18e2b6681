-- ===== src/Schedule/Current.antt =====
-- `cur_subject` and `output_schedtime` of studysys/schedule.c: what is to be studied now.
pub mod Laws
use embedded_pg.Base.{
  ℕ, zero, suc, ◌+◌, ◌-◌, ◌%◌, Bool, true, false, Option, none, some, List, [], ◌∷◌, ◌++◌, length,
  take, map, get_elem?, if◌then◌else◌, ◌==◌,
}
use embedded_pg.Base.Outcome.{Outcome, ok, fault, ◌>>=◌}
use embedded_pg.Cstring.{Str, same, after}
use embedded_pg.Schedule.Entry.{Entry}
use embedded_pg.Schedule.Align.{re_align}
use embedded_pg.Schedule.File.{Disk, txt_read}
use embedded_pg.Schedule.Session.{count_of}
use embedded_pg.Stdio.{two_digits}

-- The fields of `struct tm` that the program reads: `year` is years since 1900, `month` counts
-- from 0.
pub record LocalTime : Type 0 where
  pub year : ℕ
  pub month : ℕ
  pub mday : ℕ
  pub hour : ℕ
  pub minute : ℕ

-- 1706061545 on 6 June 2017 at 15:45
unfoldable pub nowtime : LocalTime → Str
nowtime tm =
    two_digits (tm.year % 100)
    ++ (two_digits (tm.month + 1)
        ++ (two_digits tm.mday ++ (two_digits tm.hour ++ two_digits tm.minute)))

-- One round of `output_schedtime`: `strcpy(buf[i], date)`, then `strcpy(buf[i] + 6, time)`. Behind a
-- date of fewer than six bytes its own NUL ends the string.
unfoldable pub sched_time : Entry → Str
sched_time e = if length e.date == 6 then e.date ++ e.time else e.date

unfoldable pub output_schedtime : List Entry → List Str
unfolding sched_time
output_schedtime = map sched_time

-- The `for` that looks for the first time after now: the index at which it stops.
unfoldable pub first_after : Str → List Str → ℕ
first_after now [] = 0
first_after now (t ∷ ts) = if after t now then 0 else suc (first_after now ts)

-- "NOTHING"
abbrev pub nothing : Str
nothing = b'N' ∷ b'O' ∷ b'T' ∷ b'H' ∷ b'I' ∷ b'N' ∷ b'G' ∷ []

-- What goes into `buf`, from the sorted array and the number of entries.
unfoldable pub subject_at : Str → ℕ → List Entry → Outcome Str
unfolding output_schedtime
subject_at now n a =
    let i = first_after now (output_schedtime (take n a)) in
    if i == 0
    then ok nothing
    else elim (get_elem? a (i - 1)) [ none ↦ fault | some e ↦ ok e.name_sub ]

-- `cur_subject` reads the file again, into an array of its own that is not initialised; `n` is what
-- its caller has counted.
unfoldable pub cur_subject : List Entry → Option ℕ → Disk → LocalTime → Outcome Str
cur_subject tmp_sched n disk tm = do
  (a, count) ← txt_read tmp_sched disk
  a' ← re_align a (count_of count)
  subject_at (nowtime tm) (count_of n) a'
