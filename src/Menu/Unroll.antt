-- ===== src/Menu/Unroll.antt =====
-- The fuel of `menu_sched` is enough.
use embedded_pg.Base.{
  ℕ, zero, suc, ◌≤◌, ◌<◌, ◌≡◌, refl, sym, subst, ◌∙◌, inl, inr, Bool, true, false, List, length,
  take, ◌==◌, arith, Bool-cases, Option-cases,
}
use embedded_pg.Base.Int.{ℤ, pos, negsuc}
use embedded_pg.Base.Outcome.{
  Outcome, ok, ◌>>=◌, Gives, Gives-then, Ends, Ends-Gives, Gives-Ends-then, Gives-imp, then_ext,
  then_ext_ok,
}
use embedded_pg.Cstring.{Str}
use embedded_pg.Schedule.Entry.{Entry}
use embedded_pg.Schedule.Align.{re_align}
use embedded_pg.Schedule.File.{read_rows, txt_read, txt_write}
use embedded_pg.Schedule.Session.{Session, count_of}
use embedded_pg.Schedule.Register.{
  ask_count, register_rows, rounds_of, rewrite_sorted, register_sched,
}
use embedded_pg.Schedule.Change.{rewrite_rows, write_change, is_empty_count, change_sched}
use embedded_pg.Schedule.Delete.{
  zeroed, count_date, remove_on, ended, refused, Removal, finish_delete, delete_on, delete_sched,
}
use embedded_pg.Schedule.Show.{check_sched, check_sched_date}
use embedded_pg.Schedule.Ends.{
  re_align-Ends, read_rows-Ends, txt_read-Ends, txt_write-Ends, remove_on-Ends, rewrite_sorted-Ends,
}
use embedded_pg.Terminal.{Line, myflush, getch, ask_date, ask_subject}
use embedded_pg.Menu.{ask_entry}
use embedded_pg.Menu.Commands.{Stale, do_sched, sched_round, menu_sched_on, menu_sched}
use embedded_pg.Menu.Left.{
  Left, myflush-Left, getch-Left, ask_date-Left, ask_subject-Left, ask_count-Left,
  register_rows-Left, rewrite_rows-Left, ask_entry-less,
}

-- At most so many bytes of the input are left.
abbrev Holds : ℕ → Session → Type 0
Holds n s = length s.input ≤ n

-- A command that ends with a key.
key_Holds :
    (n : ℕ) (r : Str) (f : Str → Session)
    → length r ≤ n
    → ((r' : Str) → (f r').input ≡ getch r')
    → Gives (Holds n) (myflush r >>= λ r'. ok (f r'))
key_Holds n r f h k =
    Gives-then (λ x. length x ≤ n) (Holds n) (myflush r) _ (myflush-Left n r h)
      (λ r' g. rw (k r') (getch-Left n r' g))

module _ (n : ℕ) (tmp_sched : List Entry) (s : Session) (h : length s.input ≤ n) where
  register_sched-Holds : Gives (Holds n) (register_sched tmp_sched s)
  unfolding register_sched
  register_sched-Holds =
      Gives-then (Left n) (Holds n) (ask_date s.input) _ (ask_date-Left n s.input h) (λ x g.
        Gives-then (Left n) (Holds n) (ask_count x.1) _ (ask_count-Left n x.1 g) (λ y g1.
          elim (Bool-cases s.disk.writable) [
            | inl e ↦ rw e (
                Gives-then (Left n) (Holds n) (register_rows x.0 (rounds_of y.0) y.1) _
                  (register_rows-Left x.0 (rounds_of y.0) n y.1 g1)
                  (λ z g2.
                    Ends-Gives (Holds n) (rewrite_sorted tmp_sched _) _
                      (rewrite_sorted-Ends tmp_sched _) (λ text. g2)))
            | inr e ↦ rw e tt
          ]))

  write_change-Holds :
      (change : ℕ) (l : List Entry) (rows : List Line) (r : Str)
      → length r ≤ n
      → Gives (Holds n) (write_change change l s rows r)
  unfolding write_change
  write_change-Holds change l rows r g = elim (Bool-cases s.disk.writable) [
    | inl e ↦ rw e (
        Gives-then (Left n) (Holds n) (rewrite_rows change 0 l r) _
          (rewrite_rows-Left change 0 n l r g) (λ x g1. key_Holds n x.1 _ g1 (λ r'. refl)))
    | inr e ↦ rw e tt
  ]

  change_sched-Holds : (change : ℕ) → Gives (Holds n) (change_sched tmp_sched change s)
  unfolding change_sched
  change_sched-Holds change =
      Ends-Gives (Holds n) (txt_read tmp_sched s.disk) _ (txt_read-Ends tmp_sched s.disk) (λ x.
        Ends-Gives (Holds n) (re_align x.0 (count_of x.1)) _ (re_align-Ends x.0 (count_of x.1))
          (λ a.
            Gives-then (Left n) (Holds n) (ask_date s.input) _ (ask_date-Left n s.input h) (λ y g.
              elim (Bool-cases (is_empty_count x.1)) [
                | inl e ↦ rw e (key_Holds n y.1 _ g (λ r'. refl))
                | inr e ↦ rw e (
                    Gives-then (Left n) (Holds n) (ask_subject y.1) _ (ask_subject-Left n y.1 g)
                      (λ z g1. write_change-Holds _ _ _ z.1 g1))
              ])))

  finish_delete-Holds :
      (rows : List Line) (r : Str) (o : Removal)
      → length r ≤ n
      → Gives (Holds n) (finish_delete s rows r o)
  unfolding finish_delete
  finish_delete-Holds rows r refused g = g
  finish_delete-Holds rows r (ended a count) g =
      Ends-Gives (Holds n) (re_align a count) _ (re_align-Ends a count) (λ a'.
        Ends-Gives (Holds n) (txt_write a' count s.disk) _ (txt_write-Ends a' count s.disk)
          (λ disk. key_Holds n r _ g (λ r'. refl)))

  delete_on-Holds :
      (a : List Entry) (count : ℕ) (date r : Str)
      → length r ≤ n
      → Gives (Holds n) (delete_on s a count date r)
  unfolding delete_on
  delete_on-Holds a count date r g = elim (Bool-cases (count_date date (take count a) == 0)) [
    | inl e ↦ rw (e, delete_on) (key_Holds n r _ g (λ r'. refl))
    | inr e ↦
        rw (e, delete_on)
          (Gives-then (Left n) (Holds n) (ask_subject r) _ (ask_subject-Left n r g) (λ x g1.
            Ends-Gives (Holds n) (remove_on date x.0 count a) _ (remove_on-Ends date x.0 count a)
              (λ o. finish_delete-Holds _ x.1 o g1)))
  ]

  delete_sched-Holds : Gives (Holds n) (delete_sched s)
  unfolding delete_sched
  delete_sched-Holds =
      Ends-Gives (Holds n) (txt_read zeroed s.disk) _ (txt_read-Ends zeroed s.disk) (λ x.
        Ends-Gives (Holds n) (re_align x.0 (count_of x.1)) _ (re_align-Ends x.0 (count_of x.1))
          (λ a.
            Gives-then (Left n) (Holds n) (ask_date s.input) _ (ask_date-Left n s.input h)
              (λ y g. delete_on-Holds a (count_of x.1) y.0 y.1 g)))

  check_sched-Holds : Gives (Holds n) (check_sched tmp_sched s)
  unfolding check_sched
  check_sched-Holds = elim (Option-cases s.disk.text) [
    | inl e ↦ rw (e, check_sched) tt
    | inr (text, e) ↦
        rw (e, check_sched)
          (Ends-Gives (Holds n) (read_rows tmp_sched text) _ (read_rows-Ends tmp_sched text) (λ x.
            Ends-Gives (Holds n) (re_align x.0 x.1) _ (re_align-Ends x.0 x.1)
              (λ a. key_Holds n s.input _ h (λ r'. refl))))
  ]

  check_sched_date-Holds : Gives (Holds n) (check_sched_date tmp_sched s)
  unfolding check_sched_date
  check_sched_date-Holds =
      Ends-Gives (Holds n) (txt_read tmp_sched s.disk) _ (txt_read-Ends tmp_sched s.disk) (λ x.
        Ends-Gives (Holds n) (re_align x.0 (count_of x.1)) _ (re_align-Ends x.0 (count_of x.1))
          (λ a.
            Gives-then (Left n) (Holds n) (ask_date s.input) _ (ask_date-Left n s.input h)
              (λ y g. key_Holds n y.1 _ g (λ r'. refl))))

-- A round leaves no more than its command finds.
abbrev HoldsRound : ℕ → Bool × Session → Type 0
HoldsRound n x = length x.1.input ≤ n

module _ (stale : Stale) (n : ℕ) (s : Session) (h : length s.input ≤ n) where
  goes_on :
      (o : Outcome Session) → Gives (Holds n) o → Gives (HoldsRound n) (o >>= λ s'. ok (true, s'))
  goes_on o g = Gives-then (Holds n) (HoldsRound n) o _ g (λ s' k. k)

  do_sched-Holds : (sel : ℤ) → Gives (HoldsRound n) (do_sched stale sel s)
  unfolding do_sched
  do_sched-Holds (negsuc m) = h
  do_sched-Holds (pos zero) = h
  do_sched-Holds (pos (suc zero)) = goes_on _ (register_sched-Holds n stale.tmp_sched s h)
  do_sched-Holds (pos (suc (suc zero))) =
      goes_on _ (change_sched-Holds n stale.tmp_sched s h stale.change)
  do_sched-Holds (pos (suc (suc (suc zero)))) = goes_on _ (delete_sched-Holds n stale.tmp_sched s h)
  do_sched-Holds (pos (suc (suc (suc (suc zero))))) =
      goes_on _ (check_sched-Holds n stale.tmp_sched s h)
  do_sched-Holds (pos (suc (suc (suc (suc (suc zero)))))) =
      goes_on _ (check_sched_date-Holds n stale.tmp_sched s h)
  do_sched-Holds (pos (suc (suc (suc (suc (suc (suc zero))))))) = h
  do_sched-Holds (pos (suc (suc (suc (suc (suc (suc (suc m)))))))) = h

-- Less is left than there was.
abbrev pub Shrinks : Session → Bool × Session → Type 0
Shrinks s x = length x.1.input < length s.input

sched_round-Shrinks : (stale : Stale) (s : Session) → Gives (Shrinks s) (sched_round stale s)
unfolding sched_round
sched_round-Shrinks stale s =
    Gives-then (λ x. length x.1 < length s.input) (Shrinks s) (ask_entry 6 s.input) _
      (ask_entry-less 6 s.input)
      (λ x g.
        Gives-imp (HoldsRound (length x.1)) (Shrinks s)
          (do_sched stale x.0 (record s { input = x.1 }))
          (do_sched-Holds stale (length x.1) (record s { input = x.1 }) (omega arith) x.0)
          (λ y k. omega (arith, g, k)))

-- What a round is followed by, given what the menu does then.
abbrev pub or_leave : (Session → Outcome Session) → Bool × Session → Outcome Session
or_leave again (true, s') = again s'
or_leave again (false, s') = ok s'

or_leave-eq :
    (f g : Session → Outcome Session) (x : Bool × Session)
    → f x.1 ≡ g x.1
    → or_leave f x ≡ or_leave g x
or_leave-eq f g (true, s) h = h
or_leave-eq f g (false, s) h = refl

elim_or_leave :
    (again : Session → Outcome Session) (on : Bool) (s : Session)
    → (elim on [ true ↦ again s | false ↦ ok s ]) ≡ or_leave again (on, s)
elim_or_leave again true s = refl
elim_or_leave again false s = refl

menu_sched_on-round :
    (fuel : ℕ) (stale : Stale) (s : Session)
    → menu_sched_on (suc fuel) stale s
      ≡ (sched_round stale s >>= or_leave (menu_sched_on fuel stale))
unfolding menu_sched_on
menu_sched_on-round fuel stale s =
    then_ext (sched_round stale s) _ (or_leave (menu_sched_on fuel stale))
      (λ x. elim_or_leave (menu_sched_on fuel stale) x.0 x.1)

menu_sched_on-enough :
    (f g : ℕ) (stale : Stale) (s : Session)
    → length s.input < f
    → length s.input < g
    → menu_sched_on f stale s ≡ menu_sched_on g stale s
menu_sched_on-enough zero g stale s h k = absurd (omega arith)
menu_sched_on-enough (suc f) zero stale s h k = absurd (omega arith)
menu_sched_on-enough (suc f) (suc g) stale s h k =
    menu_sched_on-round f stale s
    ∙ then_ext_ok (Shrinks s) (sched_round stale s) _ _ (sched_round-Shrinks stale s) (λ x l.
      or_leave-eq (menu_sched_on f stale) (menu_sched_on g stale) x
        (menu_sched_on-enough f g stale x.1 (omega arith) (omega arith)))
    ∙ sym (menu_sched_on-round g stale s)

leave-Ends :
    (again : Session → Outcome Session) (x : Bool × Session)
    → Ends (again x.1)
    → Ends (or_leave again x)
leave-Ends again (true, s) h = h
leave-Ends again (false, s) h = tt

menu_sched_on-Ends :
    (fuel : ℕ) (stale : Stale) (s : Session)
    → length s.input < fuel
    → Ends (menu_sched_on fuel stale s)
menu_sched_on-Ends zero stale s h = absurd (omega arith)
menu_sched_on-Ends (suc fuel) stale s h = subst Ends (sym (menu_sched_on-round fuel stale s)) (
    Gives-Ends-then (Shrinks s) (sched_round stale s) _ (sched_round-Shrinks stale s) (λ x l.
      leave-Ends (menu_sched_on fuel stale) x (menu_sched_on-Ends fuel stale x.1 (omega arith))))

-- A round of `menu_sched` does not run out of fuel, in its questions and commands either, and if it
-- comes to its end it has taken a byte of the input at least. The menu runs a round and then, unless
-- that was the way out, itself again, and does not run out of fuel.
pub menu_sched-unrolls :
    (stale : Stale) (s : Session)
    → Gives (Shrinks s) (sched_round stale s)
      × (menu_sched stale s ≡ (sched_round stale s >>= or_leave (menu_sched stale)))
      × Ends (menu_sched stale s)
unfolding menu_sched
menu_sched-unrolls stale s = (
  sched_round-Shrinks stale s,
  menu_sched_on-round (length s.input) stale s
      ∙ then_ext_ok (Shrinks s) (sched_round stale s) _ _ (sched_round-Shrinks stale s) (λ x l.
        or_leave-eq (menu_sched_on (length s.input) stale) (menu_sched stale) x (
          menu_sched_on-enough (length s.input) (suc (length x.1.input)) stale x.1 (omega arith)
            (omega arith))),
  menu_sched_on-Ends (suc (length s.input)) stale s (omega arith),
)
