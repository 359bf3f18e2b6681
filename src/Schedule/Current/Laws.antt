-- ===== src/Schedule/Current/Laws.antt =====
-- Which subject `cur_subject` finds.
use embedded_pg.Base.{
  ℕ, suc, ◌-◌, ◌≡◌, refl, sym, ap, ◌∙◌, true, false, some, List, [], ◌∷◌, ◌++◌, append_assoc,
  length, take, map, get_elem?, All, All-middle, length-append, subst, arith, if◌then◌else◌, ◌==◌,
}
use embedded_pg.Base.Outcome.{ok}
use embedded_pg.Cstring.{Str, strcmp, same, after}
use embedded_pg.Cstring.Order.{≼_trans}
use embedded_pg.Schedule.Entry.{Entry}
use embedded_pg.Schedule.Align.Passes.{later}
use embedded_pg.Schedule.Align.Laws.{aligned, IsAligned, aligned-IsAligned, aligned-All}
use embedded_pg.Schedule.File.{Disk}
use embedded_pg.Schedule.Loads.{Loads, loads-txt_read, loads-aligned, loads-used}
use embedded_pg.Schedule.Current.{
  LocalTime, nowtime, sched_time, first_after, nothing, subject_at, cur_subject,
}

-- The date has all its six bytes and the time its four.
pub record IsFull (e : Entry) : Type 0 where
  pub date_full : length e.date ≡ 6
  pub time_full : length e.time ≡ 4

-- Strings that agree in length up to a place are ordered by what stands before it and, if that is
-- the same, by what stands behind it.
after-append :
    (s t u v : Str)
    → length s ≡ length t
    → after (s ++ u) (t ++ v) ≡ (if same s t then after u v else after s t)
unfolding strcmp
after-append [] [] u v h = refl
after-append [] (d ∷ t) u v h = ground arith
after-append (c ∷ s) [] u v h = ground arith
after-append (c ∷ s) (d ∷ t) u v h = ground (arith, after-append s t u v)

-- If two entries have dates of six bytes and times of four, their ten digits are ordered as they
-- are, by date and then time.
pub after-sched_time :
    (a b : Entry) → IsFull a → IsFull b → after (sched_time a) (sched_time b) ≡ later a b
unfolding sched_time
after-sched_time a b f g =
    let ea : (length a.date == 6) ≡ true = ground arith in
    let eb : (length b.date == 6) ≡ true = ground arith in
    rw ea (rw eb (after-append a.date b.date a.time b.time (omega arith)))

-- The entry is to begin after `now`.
abbrev pub IsFuture : Str → Entry → Type 0
IsFuture now e = after (sched_time e) now ≡ true

abbrev pub IsPast : Str → Entry → Type 0
IsPast now e = after (sched_time e) now ≡ false

first_after-append :
    (now : Str) (pre post : List Entry)
    → All (IsPast now) pre
    → All (IsFuture now) post
    → first_after now (map sched_time (pre ++ post)) ≡ length pre
unfolding first_after
first_after-append now [] [] h k = refl
first_after-append now [] (e ∷ post) h k = rw k.0
first_after-append now (x ∷ pre) post h k = rw h.0 (ap suc (first_after-append now pre post h.1 k))

get_elem?-append :
    (pre : List Entry) (e : Entry) (post : List Entry)
    → get_elem? (pre ++ e ∷ post) (length pre) ≡ some e
get_elem?-append [] e post = refl
get_elem?-append (x ∷ pre) e post = get_elem?-append pre e post

-- In a sorted array all entries before one that has begun have begun.
IsPast-before :
    (now : Str) (pre : List Entry) (e : Entry) (post : List Entry)
    → All IsFull (pre ++ e ∷ post)
    → IsAligned (pre ++ e ∷ post)
    → IsPast now e
    → All (IsPast now) (pre ++ e ∷ [])
IsPast-before now [] e post f s p = (p, tt)
IsPast-before now (x ∷ pre) e post f s p =
    let not_later = All-middle (λ y. later x y ≡ false) pre e post s.0 in
    let e_full = All-middle IsFull pre e post f.1 in
    (
      ≼_trans (sched_time x) (sched_time e) now (after-sched_time x e f.0 e_full ∙ not_later) p,
      IsPast-before now pre e post f.1 s.1 p,
    )

subject_at-nothing :
    (now : Str) (n : ℕ) (a l : List Entry)
    → take n a ≡ l
    → All (IsFuture now) l
    → subject_at now n a ≡ ok nothing
unfolding subject_at
subject_at-nothing now n a l t h = rw t (rw (first_after-append now [] l tt h))

subject_at-latest :
    (now : Str) (n : ℕ) (pre : List Entry) (e : Entry) (post zs : List Entry)
    → take n ((pre ++ e ∷ post) ++ zs) ≡ pre ++ e ∷ post
    → All (IsPast now) (pre ++ e ∷ [])
    → All (IsFuture now) post
    → subject_at now n ((pre ++ e ∷ post) ++ zs) ≡ ok e.name_sub
unfolding subject_at
subject_at-latest now n pre e post zs t p f =
    let a : List Entry = (pre ++ e ∷ post) ++ zs in
    let stops : first_after now (map sched_time (take n a)) ≡ suc (length pre) =
      ap (λ x. first_after now (map sched_time x)) (t ∙ sym (append_assoc pre (e ∷ []) post))
      ∙ first_after-append now (pre ++ e ∷ []) post p f
      ∙ length-append pre (e ∷ [])
      ∙ omega arith in
    let not_first : (suc (length pre) == 0) ≡ false = ground arith in
    let found : get_elem? a (suc (length pre) - 1) ≡ some e =
      ap (get_elem? a) (omega arith)
      ∙ ap (λ x. get_elem? x (length pre)) (append_assoc pre (e ∷ post) zs)
      ∙ get_elem?-append pre e (post ++ zs) in
    rw stops (rw not_first (rw found))

module _ (tmp_sched : List Entry) (disk : Disk) (l : List Entry) (loads : Loads tmp_sched disk l)
    (tm : LocalTime) where
  reach :
      cur_subject tmp_sched (some (length l)) disk tm
      ≡ subject_at (nowtime tm) (length l) (aligned l ++ loads.behind ∷ loads.others)
  unfolding cur_subject
  reach = rw (loads-txt_read tmp_sched disk l loads) (rw (loads-aligned tmp_sched disk l loads))

  -- On a file that `Loads`, whose rows the caller has counted: while every entry is to begin after
  -- now, the subject is NOTHING.
  pub cur_subject-nothing :
      All (IsFuture (nowtime tm)) (aligned l)
      → cur_subject tmp_sched (some (length l)) disk tm ≡ ok nothing
  cur_subject-nothing h =
      reach
      ∙ subject_at-nothing (nowtime tm) (length l) _ (aligned l) (loads-used tmp_sched disk l loads)
          h

  -- On a file that `Loads`, whose rows the caller has counted and have dates of six bytes and times
  -- of four: the subject is that of the last entry, in order, that is not to begin after now.
  pub cur_subject-latest :
      (pre : List Entry) (e : Entry) (post : List Entry)
      → All IsFull l
      → aligned l ≡ pre ++ e ∷ post
      → IsPast (nowtime tm) e
      → All (IsFuture (nowtime tm)) post
      → cur_subject tmp_sched (some (length l)) disk tm ≡ ok e.name_sub
  cur_subject-latest pre e post full split p f =
      let zs = loads.behind ∷ loads.others in
      reach
      ∙ ap (λ x. subject_at (nowtime tm) (length l) (x ++ zs)) split
      ∙ subject_at-latest (nowtime tm) (length l) pre e post zs
          (subst (λ x. take (length l) (x ++ zs) ≡ x) split (loads-used tmp_sched disk l loads))
          (IsPast-before (nowtime tm) pre e post
            (subst (All IsFull) split (aligned-All IsFull l full))
            (subst IsAligned split (aligned-IsAligned l)) p)
          f
