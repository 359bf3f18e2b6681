-- ===== src/Schedule/File/RoundTrip.antt =====
-- What `txt_write` has written, `txt_read` reads back.
use embedded_pg.Base.{
  ◌≤◌, ◌≡◌, refl, ap, ◌∙◌, true, none, some, List, [], ◌∷◌, ◌++◌, append_assoc, length, drop, All,
  arith,
}
use embedded_pg.Base.Outcome.{ok, ◌>>=◌}
use embedded_pg.Cstring.{Str}
use embedded_pg.Stdio.{is_space, skip_space, scan_word, scan_word_upto, pad_left, word_upto}
use embedded_pg.Stdio.Laws.{
  is_nil-false, IsField, scan_word-append, scan_word_upto-pad_left, scan_word_upto-space,
}
use embedded_pg.Schedule.Entry.{Entry}
use embedded_pg.Schedule.File.{
  Disk, scan_row, read_rows, txt_read, print_row, print_rows, txt_write,
}

-- An entry whose three texts are words that fit in their arrays.
pub record IsRow (e : Entry) : Type 0 where
  pub date_field : IsField 6 e.date
  pub name_field : IsField 19 e.name_sub
  pub time_field : IsField 4 e.time

module _ (e : Entry) (rest : Str) where
  after_name : Str
  after_name = b' ' ∷ (pad_left 4 e.time ++ b'\n' ∷ rest)

  after_date : Str
  after_date = b' ' ∷ (e.name_sub ++ after_name)

  print_row-append : print_row e ++ rest ≡ pad_left 6 e.date ++ after_date
  unfolding print_row after_date after_name
  print_row-append = simp append_assoc

  scan_date : IsRow e → scan_word_upto 6 (print_row e ++ rest) ≡ (e.date, after_date)
  unfolding after_date is_space
  scan_date f =
      ap (scan_word_upto 6) print_row-append
      ∙ scan_word_upto-pad_left 6 6 e.date after_date f.date_field refl

  scan_name : IsRow e → scan_word after_date ≡ (e.name_sub, after_name)
  unfolding after_date after_name is_space
  scan_name f = scan_word-append 1 19 e.name_sub after_name f.name_field refl

  scan_time : IsRow e → scan_word_upto 4 after_name ≡ (e.time, b'\n' ∷ rest)
  unfolding after_name is_space
  scan_time f =
      scan_word_upto-space 4 b' ' (pad_left 4 e.time ++ b'\n' ∷ rest) refl
      ∙ scan_word_upto-pad_left 4 4 e.time (b'\n' ∷ rest) f.time_field refl

  scan_row-print_row :
      (s : Entry) → IsRow e → scan_row (print_row e ++ rest) s ≡ ok (e, some (b'\n' ∷ rest))
  unfolding scan_row
  scan_row-print_row s f = rw (scan_date f) (
      rw (scan_name f) (
        rw (scan_time f) (
          rw (is_nil-false 6 e.date f.date_field) (
            rw (is_nil-false 19 e.name_sub f.name_field)
              (rw (is_nil-false 4 e.time f.time_field) (ground arith))))))

read_rows-newline :
    (slots : List Entry) (text : Str) → read_rows slots (b'\n' ∷ text) ≡ read_rows slots text
unfolding read_rows scan_row scan_word_upto skip_space is_space
read_rows-newline [] text = refl
read_rows-newline (s ∷ slots) text = refl

-- The rows of all entries, one after another.
unfoldable pub rows_text : List Entry → Str
rows_text [] = []
rows_text (e ∷ l) = print_row e ++ rows_text l

pub print_rows-eq : (l junk : List Entry) → print_rows (length l) (l ++ junk) ≡ ok (rows_text l)
unfolding print_rows rows_text
print_rows-eq [] junk = refl
print_rows-eq (e ∷ l) junk = rw (print_rows-eq l junk)

scan_row-nil : (s : Entry) → scan_row [] s ≡ ok (s, none)
unfolding scan_row scan_word_upto skip_space word_upto
scan_row-nil s = refl

pub read_rows-rows_text :
    (l slots : List Entry)
    → length l ≤ length slots
    → All IsRow l
    → read_rows slots (rows_text l) ≡ ok (l ++ drop (length l) slots, length l)
unfolding read_rows rows_text skip_space
read_rows-rows_text [] [] h r = refl
read_rows-rows_text [] (s ∷ slots) h r = rw (scan_row-nil s)
read_rows-rows_text (e ∷ l) [] h r = absurd (omega arith)
read_rows-rows_text (e ∷ l) (s ∷ slots) h r = rw (scan_row-print_row e (rows_text l) s r.0) (
    rw (read_rows-newline slots (rows_text l))
      (rw (read_rows-rows_text l slots (omega arith) r.1) (ground arith)))

pub txt_write-eq :
    (l junk : List Entry) (disk : Disk)
    → disk.writable ≡ true
    → txt_write (l ++ junk) (length l) disk ≡ ok (record disk { text = some (rows_text l) })
unfolding txt_write
txt_write-eq l junk disk w = rw w (rw (print_rows-eq l junk))

-- Entries whose texts are words that fit in their arrays come back from the file as they were
-- written, and the slots behind them stay as they are, if the file can be written and the array
-- that is read into has a slot for each.
pub txt_read-txt_write :
    (l junk slots : List Entry) (disk : Disk)
    → disk.writable ≡ true
    → length l ≤ length slots
    → All IsRow l
    → (txt_write (l ++ junk) (length l) disk >>= txt_read slots)
      ≡ ok (l ++ drop (length l) slots, some (length l))
unfolding txt_read
txt_read-txt_write l junk slots disk w h r =
    rw (txt_write-eq l junk disk w) (rw (read_rows-rows_text l slots h r))
