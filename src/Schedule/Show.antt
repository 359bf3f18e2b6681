-- ===== src/Schedule/Show.antt =====
-- `check_sched` and `check_sched_date` of studysys/schedule.c, which list the schedule. Their array
-- is not initialised, so what it holds is an argument.
pub mod Rows
use embedded_pg.Base.{
  ℕ, zero, suc, Bool, true, false, Option, none, some, List, [], ◌∷◌, ◌++◌, take, if◌then◌else◌,
}
use embedded_pg.Base.Outcome.{Outcome, ok, fault, ◌>>=◌}
use embedded_pg.Cstring.{Str, same}
use embedded_pg.Schedule.Entry.{Entry}
use embedded_pg.Schedule.Align.{re_align}
use embedded_pg.Schedule.File.{read_rows, txt_read}
use embedded_pg.Schedule.Session.{Session, count_of, shown}
use embedded_pg.Terminal.{Line, full_row, short_row, myflush, getch, ask_date}

-- `strcpy(tmp_date, "000000")`
abbrev pub no_date : Str
no_date = b'0' ∷ b'0' ∷ b'0' ∷ b'0' ∷ b'0' ∷ b'0' ∷ []

-- one round: the row, and the `tmp_date` after it
abbrev pub row_under : Str → Entry → Line
row_under tmp_date e = if same tmp_date e.date then short_row e else full_row e

abbrev pub date_after_row : Str → Entry → Str
date_after_row tmp_date e = if same tmp_date e.date then tmp_date else e.date

unfoldable pub show_rows : Str → List Entry → List Line
show_rows tmp_date [] = []
show_rows tmp_date (e ∷ l) = row_under tmp_date e ∷ show_rows (date_after_row tmp_date e) l

-- A file that cannot be opened is read all the same.
unfoldable pub check_sched : List Entry → Session → Outcome Session
check_sched tmp_sched s = elim s.disk.text [
  | none ↦ fault
  | some text ↦ do
    (a, count) ← read_rows tmp_sched text
    a' ← re_align a count
    r ← myflush s.input
    ok (shown s (show_rows no_date (take count a')) (getch r))
]

unfoldable pub show_date_rows : Str → Str → List Entry → List Line
show_date_rows find_date tmp_date [] = []
show_date_rows find_date tmp_date (e ∷ l) =
    let hit = same find_date e.date in
    let rest = show_date_rows find_date (if hit then date_after_row tmp_date e else tmp_date) l in
    if hit then row_under tmp_date e ∷ rest else rest

unfoldable pub check_sched_date : List Entry → Session → Outcome Session
check_sched_date tmp_sched s = do
  (a, count) ← txt_read tmp_sched s.disk
  a' ← re_align a (count_of count)
  (find_date, r) ← ask_date s.input
  r' ← myflush r
  ok (shown s (show_date_rows find_date no_date (take (count_of count) a')) (getch r'))
