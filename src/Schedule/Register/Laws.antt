-- ===== src/Schedule/Register/Laws.antt =====
-- What `register_sched` does to a file of well-formed rows.
use mathlib.Core.List.{Perm}
use mathlib.Core.List.{Permᴰ}
use mathlib.Core.Logic.{∥∥₁_elim}
use native.Mathlib.Nat.{ℕ_set}
use embedded_pg.Base.{
  ℕ, zero, suc, ◌≤◌, ◌≡◌, refl, sym, ap, ◌∙◌, true, some, List, [], ◌∷◌, ◌++◌, append-nil,
  append_assoc, length, length-append, drop, arith,
}
use embedded_pg.Base.Int.{ℤ}
use embedded_pg.Base.Outcome.{ok}
use embedded_pg.Cstring.{Str}
use embedded_pg.Schedule.Entry.{Entry}
use embedded_pg.Schedule.Align.Laws.{aligned, aligned-perm, length-aligned}
use embedded_pg.Schedule.File.{Disk, print_row, print_rows}
use embedded_pg.Schedule.File.RoundTrip.{rows_text, print_rows-eq}
use embedded_pg.Schedule.Loads.{Loads, loads-read, loads-aligned}
use embedded_pg.Schedule.Session.{Session}
use embedded_pg.Schedule.Register.{
  ask_count, register_rows, rounds_of, rewrite_sorted, register_sched,
}
use embedded_pg.Terminal.{ask_date}

rows_text-append : (l m : List Entry) → rows_text (l ++ m) ≡ rows_text l ++ rows_text m
unfolding rows_text
rows_text-append [] m = refl
rows_text-append (e ∷ l) m =
    ap (◌++◌ (print_row e)) (rows_text-append l m)
    ∙ sym (append_assoc (print_row e) (rows_text l) (rows_text m))

length-rows_text-permᴰ :
    {l m : List Entry} → Permᴰ l m → length (rows_text l) ≡ length (rows_text m)
unfolding rows_text
length-rows_text-permᴰ Permᴰ.nil = refl
length-rows_text-permᴰ (Permᴰ.cons {a = a} {b = b} {l₁ = l} {l₂ = m} e p) =
    let rest = length-rows_text-permᴰ p in
    let row : length (print_row a) ≡ length (print_row b) = ap (λ x. length (print_row x)) e in
    omega (
      arith,
      rest,
      row,
      length-append (print_row a) (rows_text l),
      length-append (print_row b) (rows_text m),
    )
length-rows_text-permᴰ (Permᴰ.swap {a = a} {b = b} {a' = a'} {b' = b'} {l = l} e f) =
    let row_a : length (print_row a) ≡ length (print_row b') = ap (λ x. length (print_row x)) e in
    let row_b : length (print_row b) ≡ length (print_row a') = ap (λ x. length (print_row x)) f in
    omega (
      arith,
      row_a,
      row_b,
      length-append (print_row a) (print_row b ++ rows_text l),
      length-append (print_row b) (rows_text l),
      length-append (print_row a') (print_row b' ++ rows_text l),
      length-append (print_row b') (rows_text l),
    )
length-rows_text-permᴰ (Permᴰ.trans p q) = length-rows_text-permᴰ p ∙ length-rows_text-permᴰ q

-- The order of the rows makes no difference to the length of the text.
length-rows_text-perm : {l m : List Entry} → Perm l m → length (rows_text l) ≡ length (rows_text m)
length-rows_text-perm {l} {m} p = ∥∥₁_elim p (ℕ_set _ _) length-rows_text-permᴰ

drop-all : (s : Str) (n : ℕ) → length s ≤ n → drop n s ≡ []
drop-all [] zero h = refl
drop-all [] (suc n) h = refl
drop-all (c ∷ s) zero h = absurd (omega arith)
drop-all (c ∷ s) (suc n) h = drop-all s n (omega arith)

module _ (tmp_sched : List Entry) (disk : Disk) (l : List Entry)
    (loads : Loads tmp_sched disk l) where
  -- The text that is written is as long as the one that was read, so nothing of that is left.
  rewritten : rewrite_sorted tmp_sched (rows_text l) ≡ ok (rows_text (aligned l))
  unfolding rewrite_sorted
  rewritten =
      let behind = loads.behind ∷ loads.others in
      let printed : print_rows (length l) (aligned l ++ behind) ≡ ok (rows_text (aligned l)) =
        ap (λ n. print_rows n (aligned l ++ behind)) (sym (length-aligned l))
        ∙ print_rows-eq (aligned l) behind in
      let same_length : length (rows_text l) ≡ length (rows_text (aligned l)) =
        sym (length-rows_text-perm (aligned-perm l)) in
      let nothing_left : drop (length (rows_text (aligned l))) (rows_text l) ≡ [] =
        drop-all (rows_text l) (length (rows_text (aligned l))) (omega arith) in
      rw (loads-read tmp_sched disk l loads) (
        rw (loads-aligned tmp_sched disk l loads) (
          rw printed (
            ap (λ x. ok (rows_text (aligned l) ++ x)) nothing_left
            ∙ ap ok (append-nil (rows_text (aligned l))))))

-- If the file can be written and holds rows, the questions for the date, the number and the rows
-- are answered, and the file with the new rows behind the old ones `Loads`, then `register_sched`
-- comes to its end and the file holds the old and the new entries, all in order of date and time,
-- with nothing behind them.
pub register_sched-adds :
    (tmp_sched : List Entry) (s : Session) (l new : List Entry) (date r r1 r2 : Str) (num_sub : ℤ)
    → s.disk.text ≡ some (rows_text l)
    → s.disk.writable ≡ true
    → Loads tmp_sched (record s.disk { text = some (rows_text (l ++ new)) }) (l ++ new)
    → ask_date s.input ≡ ok (date, r)
    → ask_count r ≡ ok (num_sub, r1)
    → register_rows date (rounds_of num_sub) r1 ≡ ok (rows_text new, r2)
    → register_sched tmp_sched s
      ≡ ok (record s {
        disk = record s.disk { text = some (rows_text (aligned (l ++ new))) };
        input = r2;
      })
unfolding register_sched
register_sched-adds tmp_sched s l new date r r1 r2 num_sub text writable loads typed counted rows =
    let full : rewrite_sorted tmp_sched (rows_text l ++ rows_text new)
        ≡ ok (rows_text (aligned (l ++ new))) =
      ap (rewrite_sorted tmp_sched) (sym (rows_text-append l new))
      ∙ rewritten tmp_sched (record s.disk { text = some (rows_text (l ++ new)) }) (l ++ new)
          loads in
    rw typed (rw counted (rw writable (rw rows (rw text (rw full (rw writable refl))))))
