-- ===== src/Schedule/File.antt =====
-- schedule_info.txt: `txt_read` and `txt_write` of studysys/schedule.c.
pub mod RoundTrip
use embedded_pg.Base.{
  ℕ, zero, suc, ◌+◌, Bool, true, false, Option, none, some, List, [], ◌∷◌, ◌++◌, length, ltb,
  if◌then◌else◌,
}
use embedded_pg.Base.Outcome.{Outcome, ok, fault, stop, ◌>>=◌}
use embedded_pg.Cstring.{Str}
use embedded_pg.Stdio.{skip_space, scan_word, scan_word_upto, is_nil, pad_left}
use embedded_pg.Schedule.Entry.{Entry, subject_name_max}

-- schedule_info.txt as the program finds it: its text, or `none` if it cannot be opened for
-- reading, and whether it can be opened for writing.
pub record Disk : Type 0 where
  pub text : Option Str
  pub writable : Bool

-- `fscanf(fp, "%6s%s%4s", s.date, s.name_sub, s.time)`: the slot after it and, if all three words
-- were there, the rest of the text. A name that does not fit in its array is a fault.
unfoldable pub scan_row : Str → Entry → Outcome (Entry × Option Str)
scan_row inp s =
    let (d, r1) = scan_word_upto 6 inp in
    let (n, r2) = scan_word r1 in
    let (t, r3) = scan_word_upto 4 r2 in
    if is_nil d
    then ok (s, none)
    else if is_nil n
    then ok (record s { date = d }, none)
    else if ltb (length n) subject_name_max
    then if is_nil t
      then ok (record s { date = d; name_sub = n }, none)
      else ok (record { date = d; name_sub = n; time = t }, some r3)
    else fault

-- The `while` of `txt_read`, from the slot that it has come to: the slots after it and the number
-- of rows read. A word that is read with no slot left is a fault.
unfoldable pub read_rows : List Entry → Str → Outcome (List Entry × ℕ)
read_rows [] inp = if is_nil (skip_space inp) then ok ([], 0) else fault
read_rows (s ∷ slots) inp = do
  (s', more) ← scan_row inp s
  elim more [
    | none ↦ ok (s' ∷ slots, 0)
    | some rest ↦ do (slots', n) ← read_rows slots rest; ok (s' ∷ slots', n + 1)
  ]

-- The result is the array and the number of entries, `none` for -1.
unfoldable pub txt_read : List Entry → Disk → Outcome (List Entry × Option ℕ)
txt_read a disk = elim disk.text [
  | none ↦ ok (a, none)
  | some text ↦ do (a', n) ← read_rows a text; ok (a', some n)
]

-- `fprintf(fp, "%6s %s %4s\n", …)`; `txt_write` writes the same in three calls
unfoldable pub print_row : Entry → Str
print_row e = pad_left 6 e.date ++ b' ' ∷ (e.name_sub ++ b' ' ∷ (pad_left 4 e.time ++ b'\n' ∷ []))

-- The `for` over a[0 .. n) that prints a row for each entry.
unfoldable pub print_rows : ℕ → List Entry → Outcome Str
print_rows zero a = ok []
print_rows (suc n) [] = fault
print_rows (suc n) (e ∷ a) = do rest ← print_rows n a; ok (print_row e ++ rest)

-- The `assert` stops the program where the file cannot be written; the `return 0` is never reached.
unfoldable pub txt_write : List Entry → ℕ → Disk → Outcome Disk
txt_write a n disk =
    if disk.writable
    then (do text ← print_rows n a; ok (record disk { text = some text }))
    else stop
