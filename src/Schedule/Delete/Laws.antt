-- ===== src/Schedule/Delete/Laws.antt =====
-- What `delete_sched` does to a file of well-formed rows, by the first entry of the date typed.
use embedded_pg.Base.{
  ◌<◌, ◌≡◌, sym, ap, ap₂, subst, ◌∙◌, true, false, some, List, [], ◌∷◌, ◌++◌, length, take,
  take-append_left, All, All-remove, ◌==◌,
}
use embedded_pg.Base.Exchange.{IsSorted-remove}
use embedded_pg.Base.Outcome.{ok}
use embedded_pg.Cstring.{Str, same}
use embedded_pg.Terminal.{
  message, no_entry_on_date, wrong_subject, deleted, myflush, getch, ask_date, ask_subject,
}
use embedded_pg.Schedule.Entry.{Entry, blank}
use embedded_pg.Schedule.Align.{re_align}
use embedded_pg.Schedule.Align.Laws.{
  IsAligned, aligned, aligned-All, aligned-IsAligned, length-aligned, re_align-eq,
  aligned_of_IsAligned,
}
use embedded_pg.Schedule.Align.Passes.{later}
use embedded_pg.Schedule.File.{txt_read}
use embedded_pg.Schedule.File.RoundTrip.{IsRow, rows_text, txt_write-eq}
use embedded_pg.Schedule.Session.{Session, shown}
use embedded_pg.Schedule.Delete.{
  max_sched, zeroed, count_date, rows_on, Removal, ended, refused, remove_on, finish_delete,
  delete_on, delete_sched,
}
use embedded_pg.Schedule.Delete.Steps.{
  spare, load_zeroed, IsRow-Ends, NoneOn, count_date-ne_zero, count_date-zero, remove_on-removed,
  remove_on-refused,
}

-- The file holds the rows of `l`, well formed and fewer than the slots, and can be written.
pub record Holds (s : Session) (l : List Entry) : Type 0 where
  pub text : s.disk.text ≡ some (rows_text l)
  pub writable : s.disk.writable ≡ true
  pub rows : All IsRow l
  pub room : length l < max_sched

module _ (s : Session) (l : List Entry) (holds : Holds s l) where
  loaded : txt_read zeroed s.disk ≡ ok (l ++ blank ∷ spare (length l), some (length l))
  unfolding txt_read
  loaded = rw holds.text (rw (load_zeroed l holds.room holds.rows))

  sorted :
      re_align (l ++ blank ∷ spare (length l)) (length l)
      ≡ ok (aligned l ++ blank ∷ spare (length l))
  sorted = re_align-eq l blank (spare (length l)) (IsRow-Ends l holds.rows)

  used : take (length l) (aligned l ++ blank ∷ spare (length l)) ≡ aligned l
  used =
      ap (λ k. take k (aligned l ++ blank ∷ spare (length l))) (sym (length-aligned l))
      ∙ take-append_left (aligned l) (blank ∷ spare (length l))

  module _ (date r : Str) (typed : ask_date s.input ≡ ok (date, r)) where
    begun : delete_sched s ≡ delete_on s (aligned l ++ blank ∷ spare (length l)) (length l) date r
    unfolding delete_sched
    begun = rw loaded (rw sorted (rw typed))

    -- On a file that can be written and that holds well-formed rows, fewer than 10000: if no entry
    -- is of the date typed, `delete_sched` comes to its end at the next newline with the message
    -- that says so, and the file stays as it is.
    pub delete-none :
        (r' : Str)
        → NoneOn date (aligned l)
        → myflush r ≡ ok r'
        → delete_sched s ≡ ok (shown s (message no_entry_on_date ∷ []) (getch r'))
    unfolding delete_on
    delete-none r' h f =
        begun ∙ rw (used, delete_on) (rw (count_date-zero date (aligned l) h) (rw f))

    module _ (pre : List Entry) (e : Entry) (post : List Entry)
        (split : aligned l ≡ pre ++ e ∷ post) (first : NoneOn date pre)
        (on_date : same date e.date ≡ true) (name r' : Str)
        (named : ask_subject r ≡ ok (name, r')) where
      counted : (count_date date (aligned l) == 0) ≡ false
      counted = rw split (count_date-ne_zero date pre e post on_date)

      step :
          (removal : Removal)
          → remove_on date name (length l) (aligned l ++ blank ∷ spare (length l)) ≡ ok removal
          → delete_sched s ≡ finish_delete s (rows_on date (aligned l)) r' removal
      unfolding delete_on
      step removal g = begun ∙ rw (used, delete_on) (rw counted (rw named (rw g (rw used))))

      length-split : length l ≡ length (pre ++ e ∷ post)
      length-split = sym (length-aligned l) ∙ ap length split

      at_split :
          remove_on date name (length l) (aligned l ++ blank ∷ spare (length l))
          ≡ remove_on date name
              (length (pre ++ e ∷ post))
              ((pre ++ e ∷ post) ++ blank ∷ spare (length l))
      at_split =
          ap₂ (λ k a. remove_on date name k (a ++ blank ∷ spare (length l))) length-split split

      rest_rows : All IsRow (pre ++ post)
      rest_rows =
          All-remove IsRow pre e post (subst (All IsRow) split (aligned-All IsRow l holds.rows))

      rest_aligned : aligned (pre ++ post) ≡ pre ++ post
      rest_aligned =
          aligned_of_IsAligned (pre ++ post)
            (IsSorted-remove later pre e post (subst IsAligned split (aligned-IsAligned l)))

      -- On a file that can be written and that holds well-formed rows, fewer than 10000: if the
      -- first entry, in order, of the date typed has another name than the one typed,
      -- `delete_sched` lists the entries of the date and refuses, and the file stays as it is,
      -- whatever the entries behind that one are.
      pub delete-refuses :
          same name e.name_sub ≡ false
          → delete_sched s
            ≡ ok (shown s (rows_on date (aligned l) ++ message wrong_subject ∷ []) r')
      unfolding finish_delete
      delete-refuses other = step refused (
          at_split
          ∙ remove_on-refused date name e post blank (spare (length l)) pre first on_date other)

      -- On a file that can be written and that holds well-formed rows, fewer than 10000: if the
      -- first entry, in order, of the date typed has the name typed, `delete_sched` lists the
      -- entries of the date and comes to its end at the next newline, and the file holds the rows
      -- of the other entries, in order.
      pub delete-removes :
          (r'' : Str)
          → same name e.name_sub ≡ true
          → myflush r' ≡ ok r''
          → delete_sched s
            ≡ ok (record (shown s (rows_on date (aligned l) ++ message deleted ∷ []) (getch r'')) {
              disk = record s.disk { text = some (rows_text (pre ++ post)) };
            })
      unfolding finish_delete
      delete-removes r'' matches f =
          let behind = blank ∷ spare (length l) in
          step (ended ((pre ++ post) ++ blank ∷ behind) (length (pre ++ post))) (
            at_split
            ∙ remove_on-removed date name e post blank (spare (length l)) pre first on_date matches)
          ∙ rw (re_align-eq (pre ++ post) blank behind (IsRow-Ends (pre ++ post) rest_rows)) (
              rw rest_aligned
                (rw (txt_write-eq (pre ++ post) (blank ∷ behind) s.disk holds.writable) (rw f)))
