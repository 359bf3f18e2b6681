-- ===== src/Schedule/Loads.antt =====
-- What the commands find in their arrays when they have read the file and sorted it.
use embedded_pg.Base.{
  ◌≤◌, ◌≡◌, sym, ap, ◌∙◌, some, List, ◌∷◌, ◌++◌, length, take, drop, take-append_left, All,
}
use embedded_pg.Base.Outcome.{ok}
use embedded_pg.Schedule.Entry.{Entry}
use embedded_pg.Schedule.Align.{re_align}
use embedded_pg.Schedule.Align.Laws.{aligned, re_align-eq, length-aligned}
use embedded_pg.Schedule.Align.Passes.{Ends}
use embedded_pg.Schedule.File.{Disk, read_rows, txt_read}
use embedded_pg.Schedule.File.RoundTrip.{IsRow, rows_text, read_rows-rows_text}

-- The file holds the rows of `l`, and the slot of the array that comes behind them is of another
-- date than theirs.
pub record Loads (tmp_sched : List Entry) (disk : Disk) (l : List Entry) : Type 0 where
  pub text : disk.text ≡ some (rows_text l)
  pub rows : All IsRow l
  pub behind : Entry
  pub others : List Entry
  pub room : length l ≤ length tmp_sched
  pub slots : drop (length l) tmp_sched ≡ behind ∷ others
  pub other_date : All (Ends behind) l

module _ (tmp_sched : List Entry) (disk : Disk) (l : List Entry)
    (loads : Loads tmp_sched disk l) where
  open loads use {behind, others}

  pub loads-read : read_rows tmp_sched (rows_text l) ≡ ok (l ++ behind ∷ others, length l)
  loads-read =
      read_rows-rows_text l tmp_sched loads.room loads.rows
      ∙ ap (λ x. ok (l ++ x, length l)) loads.slots

  pub loads-txt_read : txt_read tmp_sched disk ≡ ok (l ++ behind ∷ others, some (length l))
  unfolding txt_read
  loads-txt_read = rw loads.text (rw loads-read)

  pub loads-aligned : re_align (l ++ behind ∷ others) (length l) ≡ ok (aligned l ++ behind ∷ others)
  loads-aligned = re_align-eq l behind others loads.other_date

  pub loads-used : take (length l) (aligned l ++ behind ∷ others) ≡ aligned l
  loads-used =
      ap (λ k. take k (aligned l ++ behind ∷ others)) (sym (length-aligned l))
      ∙ take-append_left (aligned l) (behind ∷ others)
