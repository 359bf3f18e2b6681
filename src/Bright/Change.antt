-- ===== src/Bright/Change.antt =====
-- What `change_subject_bright` writes, and what `get_subject_bright` then finds.
use embedded_pg.Base.{
  ℕ, suc, ◌+◌, ◌<◌, ◌≡◌, refl, sym, ap, ◌∙◌, true, false, some, List, [], ◌∷◌, ◌++◌, append-nil,
  map, length, drop, drop-append_left, get_elem?, get_elem?-append, get_elem?-All, ◌==◌, All,
  All-append, All-left, All-right, arith,
}
use embedded_pg.Base.Int.{pos}
use embedded_pg.Base.Outcome.{ok}
use embedded_pg.Cstring.{Str, is_eq}
use embedded_pg.Cstring.Order.{strcmp_self}
use embedded_pg.Schedule.File.{Disk}
use embedded_pg.Stdio.{is_space}
use embedded_pg.Stdio.Laws.{IsField}
use embedded_pg.Stdio.Lines.{file_lines}
use embedded_pg.Terminal.{myflush, getch}
use embedded_pg.Bright.{
  scan_subject, get_subject_bright, subject_names, Unset, scan_number, write_row, change_line,
  change_lines, Changed, change_subject_bright,
}
use embedded_pg.Bright.Rows.{
  Row, IsRow, subject_of, row_text, rows_text, scan_subject-row, length-row_text, file_lines-rows,
  join-rows,
}
use embedded_pg.Bright.Find.{NotNamed, find_bright-rows, fuel_enough}

module _ (unset : Unset) (input r : Str) (n : ℕ) (name : Str)
    (typed : scan_number unset.new_bright input ≡ ok (pos n, r))
    (is_row : IsRow (record { name = name; bright = n })) where
  abbrev new_row : Row
  new_row = record { name = name; bright = n }

  -- The new row is as long as the one that it is written over.
  write_row-row :
      (i : ℕ) (s : Row) (post : List Row)
      → IsRow s
      → get_elem? (subject_names ++ unset.names) i ≡ some name
      → write_row unset i (row_text s ++ rows_text post) (pos n) r
        ≡ ok (row_text new_row ++ rows_text post, r)
  unfolding write_row row_text
  write_row-row i s post f e =
      let same_length : length (row_text new_row) ≡ length (row_text s) =
        length-row_text new_row is_row ∙ sym (length-row_text s f) in
      let left : drop (length (row_text new_row)) (row_text s ++ rows_text post) ≡ rows_text post =
        ap (λ k. drop k (row_text s ++ rows_text post)) same_length
        ∙ drop-append_left (row_text s) (rows_text post) in
      rw (e, write_row) (ap (λ x. ok (row_text new_row ++ x, r)) left)

  change_line-row :
      (i : ℕ) (s : Row) (post : List Row)
      → IsRow s
      → get_elem? (subject_names ++ unset.names) i ≡ some name
      → change_line unset i (row_text s) (rows_text post) input
        ≡ ok (row_text new_row ++ rows_text post, r)
  unfolding change_line
  change_line-row i s post f e =
      let read : scan_subject (row_text s) ≡ ok (some (subject_of s, b'\n' ∷ [])) =
        ap scan_subject (sym (append-nil (row_text s))) ∙ scan_subject-row s f [] in
      rw read (rw typed (write_row-row i s post f e))

  change_lines-rows :
      (k i : ℕ) (pre : List Row) (s : Row) (post : List Row)
      → i + length pre ≡ k
      → All IsRow (pre ++ s ∷ post)
      → get_elem? (subject_names ++ unset.names) k ≡ some name
      → change_lines unset (pos k) i (map row_text (pre ++ s ∷ post)) input
        ≡ ok (some (rows_text (pre ++ new_row ∷ post), r))
  unfolding change_lines rows_text
  change_lines-rows k i [] s post h f e =
      let here : (i == k) ≡ true = ground arith in
      rw (here, change_lines)
        (rw (ap (λ x. change_line unset i (row_text s) x input) (join-rows post)) (
          rw
            (change_line-row i s post f.0
              (ap (get_elem? (subject_names ++ unset.names)) (omega arith) ∙ e))
            refl))
  change_lines-rows k i (x ∷ pre) s post h f e =
      let other : (i == k) ≡ false = ground arith in
      rw (other, change_lines)
        (rw (change_lines-rows k (i + 1) pre s post (omega arith) f.1 e) refl)

-- A name without white space that fits.
names-IsField : All (IsField 19) subject_names
unfolding is_space
names-IsField = (
  record {
    some_byte = omega arith;
    fits = omega arith;
    no_space = (refl, (refl, (refl, (refl, (refl, (refl, tt))))));
  },
  (
    record {
      some_byte = omega arith;
      fits = omega arith;
      no_space = (refl, (refl, (refl, (refl, tt))));
    },
    (
      record {
        some_byte = omega arith;
        fits = omega arith;
        no_space = (refl, (refl, (refl, (refl, (refl, (refl, (refl, tt)))))));
      },
      (
        record {
          some_byte = omega arith;
          fits = omega arith;
          no_space = (refl, (refl, (refl, (refl, (refl, (refl, (refl, tt)))))));
        },
        (
          record {
            some_byte = omega arith;
            fits = omega arith;
            no_space = (refl, (refl, (refl, (refl, (refl, (refl, (refl, tt)))))));
          },
          tt,
        ),
      ),
    ),
  ),
)

-- On a file of well-formed rows that can be written, with a number below five that one of the rows
-- has, counted from 0: if no row before that one is named like the subject of the number, a brightness
-- below 1000 is typed and a newline comes after it, then `change_subject_bright` puts the subject with
-- that brightness in place of the row, the other rows stay, and `get_subject_bright` finds it.
pub change_subject_bright-get_subject_bright :
    (unset : Unset) (input r r' : Str) (n k : ℕ) (name : Str) (disk : Disk) (pre : List Row)
    (s : Row) (post : List Row)
    → disk.writable ≡ true
    → disk.text ≡ some (rows_text (pre ++ s ∷ post))
    → All IsRow (pre ++ s ∷ post)
    → length pre ≡ k
    → get_elem? subject_names k ≡ some name
    → NotNamed name pre
    → n < 1000
    → scan_number unset.new_bright input ≡ ok (pos n, r)
    → myflush r ≡ ok r'
    → (changed : Changed) × (change_subject_bright unset (pos k) disk input ≡ ok changed)
      × (changed.ret ≡ pos 0)
      × (changed.disk.text ≡ some (rows_text (pre ++ record { name = name; bright = n } ∷ post)))
      × (get_subject_bright name changed.disk ≡ ok (pos n))
unfolding change_subject_bright get_subject_bright
change_subject_bright-get_subject_bright unset input r r' n k name disk pre s post w t rows h e
      other small typed f =
    let new : Row = record { name = name; bright = n } in
    let new_IsRow : IsRow new = record {
      name_field = get_elem?-All (IsField 19) subject_names k name names-IsField e;
      three_digits = small;
    } in
    let new_rows : All IsRow (pre ++ new ∷ post) =
      All-append IsRow pre (new ∷ post) (All-left IsRow pre (s ∷ post) rows)
        (new_IsRow, (All-right IsRow pre (s ∷ post) rows).1) in
    let found = get_elem?-append subject_names unset.names k name e in
    let lines : change_lines unset (pos k) 0 (file_lines (rows_text (pre ++ s ∷ post))) input
        ≡ ok (some (rows_text (pre ++ new ∷ post), r)) =
      ap (λ x. change_lines unset (pos k) 0 x input) (file_lines-rows (pre ++ s ∷ post) rows)
      ∙ change_lines-rows unset input r n name typed new_IsRow k 0 pre s post (omega arith) rows
          found in
    let changed : Changed = record {
      ret = pos 0;
      disk = record disk { text = some (rows_text (pre ++ new ∷ post)) };
      input = getch r';
    } in
    (
      changed,
      rw w (rw t (rw lines (rw f refl))),
      refl,
      refl,
      find_bright-rows (suc (length (rows_text (pre ++ new ∷ post)))) name pre new post
          (fuel_enough pre new post new_rows) (All-left IsRow pre (s ∷ post) rows) new_IsRow other
          (ap is_eq (strcmp_self name)),
    )
