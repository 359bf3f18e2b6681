-- ===== src/Schedule/Change/Laws.antt =====
-- What `change_sched` does to a file of well-formed rows.
use embedded_pg.Base.{
  ℕ, ◌+◌, ◌≤◌, ◌<◌, ◌≡◌, refl, ap, ◌∙◌, ◌⊎◌, inl, inr, Bool, true, false, ◌&&◌, some, List, [], ◌∷◌,
  ◌++◌, length, All, arith, if◌then◌else◌, ◌==◌,
}
use embedded_pg.Base.Outcome.{ok}
use embedded_pg.Cstring.{Str, same}
use embedded_pg.Terminal.{myflush, getch, ask_date, ask_subject}
use embedded_pg.Schedule.Entry.{Entry}
use embedded_pg.Schedule.Align.Laws.{aligned, length-aligned}
use embedded_pg.Schedule.File.RoundTrip.{rows_text}
use embedded_pg.Schedule.Loads.{Loads, loads-txt_read, loads-aligned, loads-used}
use embedded_pg.Schedule.Session.{Session, shown}
use embedded_pg.Schedule.Delete.{rows_on}
use embedded_pg.Schedule.Change.{find_change, ask_change, rewrite_rows, write_change, change_sched}

-- The entry is of the date and has the name.
abbrev pub is_match : Str → Str → Entry → Bool
is_match d n e = same d e.date && same n e.name_sub

abbrev pub NoMatch : Str → Str → List Entry → Type 0
NoMatch d n = All (λ e. is_match d n e ≡ false)

find_change-none :
    (d n : Str) (change i : ℕ) (l : List Entry)
    → NoMatch d n l
    → find_change d n change i l ≡ change
unfolding find_change
find_change-none d n change i [] h = refl
find_change-none d n change i (e ∷ l) h = rw h.0 (find_change-none d n change (i + 1) l h.1)

-- The last match decides.
find_change-last :
    (d n : Str) (change i j : ℕ) (pre : List Entry) (e : Entry) (post : List Entry)
    → is_match d n e ≡ true
    → NoMatch d n post
    → i + length pre ≡ j
    → find_change d n change i (pre ++ e ∷ post) ≡ j
unfolding find_change
find_change-last d n change i j [] e post h k q =
    ap (λ (b : Bool). find_change d n (if b then i else change) (i + 1) post) h
    ∙ find_change-none d n i (i + 1) post k
    ∙ omega arith
find_change-last d n change i j (x ∷ pre) e post h k q =
    find_change-last d n (if is_match d n x then i else change) (i + 1) j pre e post h k
      (omega arith)

-- No row has the number `change`.
rewrite_rows-none :
    (change i : ℕ) (l : List Entry) (r : Str)
    → (change < i) ⊎ (i + length l ≤ change)
    → rewrite_rows change i l r ≡ ok (rows_text l, r)
unfolding rewrite_rows rows_text
rewrite_rows-none change i [] r h = refl
rewrite_rows-none change i (e ∷ l) r h =
    let other : (i == change) ≡ false = ground arith in
    rw other (rw (rewrite_rows-none change (i + 1) l r (ground arith)))

rewrite_rows-one :
    (change i : ℕ) (pre : List Entry) (e e' : Entry) (post : List Entry) (r r' : Str)
    → i + length pre ≡ change
    → ask_change e r ≡ ok (e', r')
    → rewrite_rows change i (pre ++ e ∷ post) r ≡ ok (rows_text (pre ++ e' ∷ post), r')
unfolding rewrite_rows rows_text
rewrite_rows-one change i [] e e' post r r' h a =
    let here : (i == change) ≡ true = ground arith in
    rw here (rw a (rw (rewrite_rows-none change (i + 1) post r' (inl (omega arith)))))
rewrite_rows-one change i (x ∷ pre) e e' post r r' h a =
    let other : (i == change) ≡ false = ground arith in
    rw other (rw (rewrite_rows-one change (i + 1) pre e e' post r r' (omega arith) a))

module _ (tmp_sched : List Entry) (garbage : ℕ) (s : Session) (l : List Entry)
    (loads : Loads tmp_sched s.disk l) (writable : s.disk.writable ≡ true) (date r name r' : Str)
    (not_empty : 1 ≤ length l) (typed : ask_date s.input ≡ ok (date, r))
    (named : ask_subject r ≡ ok (name, r')) where
  -- What the screen, the input and the file come to.
  abbrev changed : List Entry → Str → Session
  changed l' rest = record (shown s (rows_on date (aligned l)) rest) {
    disk = record s.disk { text = some (rows_text l') };
  }

  reach :
      change_sched tmp_sched garbage s
      ≡ write_change
          (find_change date name garbage 0 (aligned l))
          (aligned l)
          s
          (rows_on date (aligned l))
          r'
  unfolding change_sched
  reach =
      let some_row : (length l == 0) ≡ false = ground arith in
      rw (loads-txt_read tmp_sched s.disk l loads) (
        rw (loads-aligned tmp_sched s.disk l loads)
          (rw typed (rw some_row (rw named (rw (loads-used tmp_sched s.disk l loads))))))

  write-one :
      (change : ℕ) (pre : List Entry) (e e' : Entry) (post : List Entry) (r1 r2 : Str)
      → aligned l ≡ pre ++ e ∷ post
      → length pre ≡ change
      → ask_change e r' ≡ ok (e', r1)
      → myflush r1 ≡ ok r2
      → write_change change (aligned l) s (rows_on date (aligned l)) r'
        ≡ ok (changed (pre ++ e' ∷ post) (getch r2))
  unfolding write_change
  write-one change pre e e' post r1 r2 split h a f =
      let rewritten = rewrite_rows-one change 0 pre e e' post r' r1 (omega arith) a in
      rw writable (rw (ap (λ x. rewrite_rows change 0 x r') split ∙ rewritten) (rw f))

  -- On a file that `Loads`, with at least one row, that can be written: the last entry, in order,
  -- of the date and name typed gets the name and time that are typed next, and the file holds its
  -- row and those of the other entries, in the order that they had before the change.
  pub change_sched-last :
      (pre : List Entry) (e e' : Entry) (post : List Entry) (r1 r2 : Str)
      → aligned l ≡ pre ++ e ∷ post
      → is_match date name e ≡ true
      → NoMatch date name post
      → ask_change e r' ≡ ok (e', r1)
      → myflush r1 ≡ ok r2
      → change_sched tmp_sched garbage s ≡ ok (changed (pre ++ e' ∷ post) (getch r2))
  change_sched-last pre e e' post r1 r2 split h k a f =
      reach
      ∙ ap (λ x. write_change x (aligned l) s (rows_on date (aligned l)) r')
          (ap (find_change date name garbage 0) split
            ∙ find_change-last date name garbage 0 (length pre) pre e post h k (omega arith))
      ∙ write-one (length pre) pre e e' post r1 r2 split refl a f

  -- On a file that `Loads`, with at least one row, that can be written: if no entry is of the date
  -- and name typed, the entry whose index the uninitialised variable happens to hold is asked for
  -- and overwritten in its place.
  pub change_sched-garbage :
      (pre : List Entry) (e e' : Entry) (post : List Entry) (r1 r2 : Str)
      → aligned l ≡ pre ++ e ∷ post
      → length pre ≡ garbage
      → NoMatch date name (aligned l)
      → ask_change e r' ≡ ok (e', r1)
      → myflush r1 ≡ ok r2
      → change_sched tmp_sched garbage s ≡ ok (changed (pre ++ e' ∷ post) (getch r2))
  change_sched-garbage pre e e' post r1 r2 split h k a f =
      reach
      ∙ ap (λ x. write_change x (aligned l) s (rows_on date (aligned l)) r')
          (find_change-none date name garbage 0 (aligned l) k)
      ∙ write-one garbage pre e e' post r1 r2 split h a f

  -- On a file that `Loads`, with at least one row, that can be written: if no entry is of the date
  -- and name typed and the uninitialised variable holds no index of an entry, the file comes to
  -- hold the rows of the same entries, in order.
  pub change_sched-none :
      (r2 : Str)
      → length l ≤ garbage
      → NoMatch date name (aligned l)
      → myflush r' ≡ ok r2
      → change_sched tmp_sched garbage s ≡ ok (changed (aligned l) (getch r2))
  unfolding write_change
  change_sched-none r2 h k f =
      reach
      ∙ rw (find_change-none date name garbage 0 (aligned l) k) (
          rw writable (
            rw (rewrite_rows-none garbage 0 (aligned l) r' (inr (omega (arith, length-aligned l))))
              (rw f)))
