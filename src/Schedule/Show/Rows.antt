-- ===== src/Schedule/Show/Rows.antt =====
-- What the listings show: the entries can be read back from the rows, dates included.
use embedded_pg.Base.{◌≡◌, refl, ap, ◌∙◌, List, [], ◌∷◌, if◌then◌else◌, Bool-cases, inl, inr}
use embedded_pg.Base.Outcome.{ok}
use embedded_pg.Cstring.{Str, same}
use embedded_pg.Cstring.Order.{same→eq}
use embedded_pg.Terminal.{Line, full_row, short_row, message, myflush, getch, ask_date}
use embedded_pg.Schedule.Entry.{Entry}
use embedded_pg.Schedule.Align.Laws.{aligned}
use embedded_pg.Schedule.Loads.{Loads, loads-read, loads-txt_read, loads-aligned, loads-used}
use embedded_pg.Schedule.Session.{Session, shown}
use embedded_pg.Schedule.Show.{
  no_date, row_under, date_after_row, show_rows, check_sched, show_date_rows, check_sched_date,
}

-- What a reader of the listing makes of it: a row without a date is of the date above.
unfoldable pub read_back : Str → List Line → List Entry
read_back d [] = []
read_back d (full_row e ∷ rows) = e ∷ read_back e.date rows
read_back d (short_row e ∷ rows) = record e { date = d } ∷ read_back d rows
read_back d (message m ∷ rows) = read_back d rows

-- The entries of a date.
unfoldable pub only_on : Str → List Entry → List Entry
only_on d [] = []
only_on d (e ∷ l) = if same d e.date then e ∷ only_on d l else only_on d l

row-read_back :
    (d : Str) (e : Entry) (rows : List Line)
    → read_back d (row_under d e ∷ rows) ≡ e ∷ read_back (date_after_row d e) rows
unfolding read_back
row-read_back d e rows = elim (Bool-cases (same d e.date)) [
  | inl s ↦ rw s (ap (λ x. record e { date = x } ∷ read_back d rows) (same→eq d e.date s))
  | inr s ↦ rw s
]

pub read_back-show_rows : (d : Str) (l : List Entry) → read_back d (show_rows d l) ≡ l
unfolding show_rows read_back
read_back-show_rows d [] = refl
read_back-show_rows d (e ∷ l) =
    row-read_back d e (show_rows (date_after_row d e) l)
    ∙ ap (◌∷◌ e) (read_back-show_rows (date_after_row d e) l)

pub read_back-show_date_rows :
    (find d : Str) (l : List Entry) → read_back d (show_date_rows find d l) ≡ only_on find l
unfolding show_date_rows only_on read_back
read_back-show_date_rows find d [] = refl
read_back-show_date_rows find d (e ∷ l) = elim (Bool-cases (same find e.date)) [
  | inl h ↦ rw h (
      row-read_back d e (show_date_rows find (date_after_row d e) l)
      ∙ ap (◌∷◌ e) (read_back-show_date_rows find (date_after_row d e) l))
  | inr h ↦ rw h (read_back-show_date_rows find d l)
]

module _ (tmp_sched : List Entry) (s : Session) (l : List Entry)
    (loads : Loads tmp_sched s.disk l) where
  -- On a file that `Loads`: once a newline is typed, `check_sched` comes to its end, leaves the
  -- file as it is and shows rows from which all entries of the file can be read back, in order of
  -- date and time.
  pub check_sched_shows :
      (r : Str)
      → myflush s.input ≡ ok r
      → (rows : List Line) × (check_sched tmp_sched s ≡ ok (shown s rows (getch r)))
        × (read_back no_date rows ≡ aligned l)
  unfolding check_sched
  check_sched_shows r f = (
    show_rows no_date (aligned l),
    rw loads.text (
        rw (loads-read tmp_sched s.disk l loads) (
          rw (loads-aligned tmp_sched s.disk l loads)
            (rw f (rw (loads-used tmp_sched s.disk l loads))))),
    read_back-show_rows no_date (aligned l),
  )

  -- On a file that `Loads`: once a date and a newline are typed, `check_sched_date` comes to its
  -- end, leaves the file as it is and shows rows from which exactly the entries of that date can be
  -- read back, in order.
  pub check_sched_date_shows :
      (find_date r r' : Str)
      → ask_date s.input ≡ ok (find_date, r)
      → myflush r ≡ ok r'
      → (rows : List Line) × (check_sched_date tmp_sched s ≡ ok (shown s rows (getch r')))
        × (read_back no_date rows ≡ only_on find_date (aligned l))
  unfolding check_sched_date
  check_sched_date_shows find_date r r' typed f = (
    show_date_rows find_date no_date (aligned l),
    rw (loads-txt_read tmp_sched s.disk l loads) (
        rw (loads-aligned tmp_sched s.disk l loads)
          (rw typed (rw f (rw (loads-used tmp_sched s.disk l loads))))),
    read_back-show_date_rows find_date no_date (aligned l),
  )
