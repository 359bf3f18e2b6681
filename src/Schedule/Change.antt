-- ===== src/Schedule/Change.antt =====
-- `change_sched` of studysys/schedule.c. Its array and its variable `change` are not initialised, so
-- what they hold is an argument; a number that is no index stands for any such value.
pub mod Laws
use embedded_pg.Base.{
  ℕ, zero, suc, ◌+◌, Bool, true, false, ◌&&◌, Option, none, some, List, [], ◌∷◌, ◌++◌, take,
  if◌then◌else◌, ◌==◌,
}
use embedded_pg.Base.Outcome.{Outcome, ok, fault, ◌>>=◌}
use embedded_pg.Cstring.{Str, same}
use embedded_pg.Schedule.Entry.{Entry}
use embedded_pg.Schedule.Align.{re_align}
use embedded_pg.Schedule.File.{Disk, txt_read, print_row}
use embedded_pg.Schedule.Session.{Session, count_of, shown}
use embedded_pg.Schedule.Delete.{rows_on}
use embedded_pg.Terminal.{
  Line, full_row, message, no_entry_on_date, myflush, getch, ask_date, ask_time, ask_subject,
}

-- `for (i = 0; i < count; i++)`: the last match decides, and without one `change` stays.
unfoldable pub find_change : Str → Str → ℕ → ℕ → List Entry → ℕ
find_change d n change i [] = change
find_change d n change i (e ∷ l) =
    find_change d n (if same d e.date && same n e.name_sub then i else change) (i + 1) l

-- The new name and time. A `scanf` that fails is at the end of the input, where `myflush` waits for
-- ever; a name of more than 19 bytes has overflowed its array before its length is looked at. So
-- the loop that asks for another name makes no round.
unfoldable pub ask_change : Entry → Str → Outcome (Entry × Str)
ask_change e r = do
  (name_sub, r1) ← ask_subject r
  r2 ← myflush r1
  (time, r3) ← ask_time r2
  ok (record e { name_sub = name_sub; time = time }, r3)

-- The loop that writes the file: its text and what is left of the input.
unfoldable pub rewrite_rows : ℕ → ℕ → List Entry → Str → Outcome (Str × Str)
rewrite_rows change i [] r = ok ([], r)
rewrite_rows change i (e ∷ l) r = do
  (e', r1) ← (if i == change then ask_change e r else ok (e, r))
  (text, r2) ← rewrite_rows change (i + 1) l r1
  ok (print_row e' ++ text, r2)

-- A file that cannot be opened for writing is written all the same.
unfoldable pub write_change : ℕ → List Entry → Session → List Line → Str → Outcome Session
write_change change l s rows r =
    if s.disk.writable
    then (do
      (text, r1) ← rewrite_rows change 0 l r
      r2 ← myflush r1
      ok (record (shown s rows (getch r2)) { disk = record s.disk { text = some text } }))
    else fault

-- `count != 0`, with the count -1 of a file that cannot be opened
abbrev pub is_empty_count : Option ℕ → Bool
is_empty_count none = false
is_empty_count (some n) = n == 0

unfoldable pub change_sched : List Entry → ℕ → Session → Outcome Session
change_sched tmp_sched garbage s = do
  (a, c) ← txt_read tmp_sched s.disk
  let count = count_of c
  a' ← re_align a count
  (date, r) ← ask_date s.input
  elim (is_empty_count c) [
    | true ↦ do r' ← myflush r; ok (shown s (message no_entry_on_date ∷ []) (getch r'))
    | false ↦ do
      (name_sub, r') ← ask_subject r
      let used = take count a'
      write_change (find_change date name_sub garbage 0 used) used s (rows_on date used) r'
  ]
