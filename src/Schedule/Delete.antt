-- ===== src/Schedule/Delete.antt =====
-- `delete_sched` of studysys/schedule.c. Its array is zeroed.
pub mod Steps
pub mod Laws
use embedded_pg.Base.{
  ℕ, zero, suc, ◌+◌, Bool, true, false, Option, none, some, List, [], ◌∷◌, ◌++◌, replicate, take,
  if◌then◌else◌, ◌==◌,
}
use embedded_pg.Base.Outcome.{Outcome, ok, fault, ◌>>=◌}
use embedded_pg.Cstring.{Str, same}
use embedded_pg.Schedule.Entry.{Entry, blank}
use embedded_pg.Schedule.Align.{re_align}
use embedded_pg.Schedule.File.{Disk, txt_read, txt_write}
use embedded_pg.Schedule.Session.{Session, count_of, shown}
use embedded_pg.Terminal.{
  Line, full_row, message, no_entry_on_date, wrong_subject, deleted, myflush, getch, ask_date,
  ask_subject,
}

-- The slots of `tmp_sched`.
abbrev pub max_sched : ℕ
max_sched = 10000

-- `schedule tmp_sched[10000] = { 0 };`
pub zeroed : List Entry
zeroed = replicate max_sched blank

unfoldable pub count_date : Str → List Entry → ℕ
count_date d [] = 0
count_date d (e ∷ l) = if same d e.date then suc (count_date d l) else count_date d l

-- The rows of the entries with the date.
unfoldable pub rows_on : Str → List Entry → List Line
rows_on d [] = []
rows_on d (e ∷ l) = if same d e.date then full_row e ∷ rows_on d l else rows_on d l

-- `for (j = i; j < count; j++)`, which copies a[j + 1] to a[j]: the number is count - j, and the
-- list begins at a[j].
unfoldable pub shift : ℕ → List Entry → Outcome (List Entry)
shift zero l = ok l
shift (suc k) [] = fault
shift (suc k) (x ∷ []) = fault
shift (suc k) (x ∷ y ∷ l) = do r ← shift k (y ∷ l); ok (y ∷ r)

-- The loop that deletes: how it ends, with the array and the entries in use from here on.
pub data Removal : Type 0 where
  ended : List Entry → ℕ → Removal
  refused : Removal

-- The first entry of the date decides.
unfoldable pub remove_on : Str → Str → ℕ → List Entry → Outcome Removal
unfolding shift
remove_on d n zero l = ok (ended l 0)
remove_on d n (suc k) [] = fault
remove_on d n (suc k) (e ∷ l) =
    let onward = (do
      r ← remove_on d n k l
      elim r [ ended l' c ↦ ok (ended (e ∷ l') (suc c)) | refused ↦ ok refused ]) in
    let matched = (do l' ← shift (suc k) (e ∷ l); ok (ended l' k)) in
    if same d e.date then (if same n e.name_sub then matched else ok refused) else onward

-- What follows the loop: where it did not refuse, the array is sorted and written.
unfoldable pub finish_delete : Session → List Line → Str → Removal → Outcome Session
finish_delete s rows r refused = ok (shown s (rows ++ message wrong_subject ∷ []) r)
finish_delete s rows r (ended a count) = do
  a' ← re_align a count
  disk ← txt_write a' count s.disk
  r' ← myflush r
  ok (record (shown s (rows ++ message deleted ∷ []) (getch r')) { disk = disk })

-- From the date on: the entries of the date are listed, and one of them is asked for.
unfoldable pub delete_on : Session → List Entry → ℕ → Str → Str → Outcome Session
delete_on s a count date r = elim (count_date date (take count a) == 0) [
  | true ↦ do r' ← myflush r; ok (shown s (message no_entry_on_date ∷ []) (getch r'))
  | false ↦ do
    (name_sub, r') ← ask_subject r
    removal ← remove_on date name_sub count a
    finish_delete s (rows_on date (take count a)) r' removal
]

unfoldable pub delete_sched : Session → Outcome Session
delete_sched s = do
  (a, count) ← txt_read zeroed s.disk
  a' ← re_align a (count_of count)
  (date, r) ← ask_date s.input
  delete_on s a' (count_of count) date r
