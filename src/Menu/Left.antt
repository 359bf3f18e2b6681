-- ===== src/Menu/Left.antt =====
-- The questions of the commands do not want for fuel, and leave no more of the input than there was.
use embedded_pg.Base.{
  ℕ, zero, suc, ◌+◌, ◌≤◌, ◌<◌, inl, inr, Option, none, some, List, [], ◌∷◌, length, length-drop,
  ltb, ◌==◌, arith, Bool-cases, Option-cases, if◌then◌else◌,
}
use embedded_pg.Base.Outcome.{Outcome, ok, fault, hang, stop, starved, ◌>>=◌, Gives, Gives-then}
use embedded_pg.Cstring.{Str}
use embedded_pg.Stdio.{scan_word, is_nil}
use embedded_pg.Stdio.Laws.{length-scan_word}
use embedded_pg.Schedule.Entry.{Entry, date_max, time_str_max, subject_name_max}
use embedded_pg.Schedule.Register.{scan_int, fits_int, ask_count_on, ask_count, register_rows}
use embedded_pg.Schedule.Change.{ask_change, rewrite_rows}
use embedded_pg.Terminal.{
  myflush, getch, scan_into, ask_exact_on, ask_exact, ask_date, ask_time, ask_subject,
}
use embedded_pg.Terminal.Ask.{myflush-cases}
use embedded_pg.Menu.{ask_entry_on, ask_entry, is_entry}
use embedded_pg.Menu.Choice.{scan_int-Takes, Takes-le, Takes-lt, on_none}

-- At most so many bytes are left.
abbrev pub Left {ℓ} : {A : Type ℓ} → ℕ → A × Str → Type 0
Left n x = length x.1 ≤ n

abbrev LeftSome : ℕ → Option (Str × Str) → Type 0
LeftSome n none = Unit
LeftSome n (some x) = length x.1 ≤ n

pub myflush-Left : (n : ℕ) (s : Str) → length s ≤ n → Gives (λ r. length r ≤ n) (myflush s)
myflush-Left n s h = elim (myflush-cases s) [ inl e ↦ rw e tt | inr (r, e, k) ↦ rw e (omega arith) ]

myflush-less : (s : Str) → Gives (λ r. length r < length s) (myflush s)
myflush-less s = elim (myflush-cases s) [ inl e ↦ rw e tt | inr (r, e, k) ↦ rw e k ]

pub getch-Left : (n : ℕ) (s : Str) → length s ≤ n → length (getch s) ≤ n
unfolding getch
getch-Left n s h = omega (arith, length-drop 1 s)

scan_into-Left : (room n : ℕ) (s : Str) → length s ≤ n → Gives (LeftSome n) (scan_into room s)
unfolding scan_into
scan_into-Left room n s h = elim (Bool-cases (is_nil (scan_word s).0)) [
  | inl e ↦ rw e tt
  | inr e ↦ elim (Bool-cases (ltb (length (scan_word s).0) room)) [
    | inl l ↦ rw e (rw l (omega (arith, length-scan_word s)))
    | inr l ↦ rw e (rw l tt)
  ]
]

-- What a scan is followed by: one part at the end of the input, another behind a word.
after_scan {ℓ} :
    {B : Type ℓ} (Q : B → Type 0) (n : ℕ) (o : Outcome (Option (Str × Str))) (last : Outcome B)
    (f : Str × Str → Outcome B)
    → Gives (LeftSome n) o
    → Gives Q last
    → ((x : Str × Str) → length x.1 ≤ n → Gives Q (f x))
    → Gives Q (o >>= λ got. elim got [ none ↦ last | some x ↦ f x ])
after_scan Q n (ok none) last f h k l = k
after_scan Q n (ok (some x)) last f h k l = l x h
after_scan Q n fault last f h k l = tt
after_scan Q n hang last f h k l = tt
after_scan Q n stop last f h k l = tt
after_scan Q n starved last f h k l = absurd h

ask_exact_on-Left :
    (fuel room k n : ℕ) (s : Str)
    → length s < fuel
    → length s ≤ n
    → Gives (Left n) (ask_exact_on fuel room k s)
unfolding ask_exact_on
ask_exact_on-Left zero room k n s e h = absurd (omega arith)
ask_exact_on-Left (suc fuel) room k n s e h =
    after_scan (Left n) (length s) (scan_into room s) hang _
      (scan_into-Left room (length s) s (omega arith)) tt
      (λ x g. elim (Bool-cases (length x.0 == k)) [
        | inl y ↦ rw y (omega arith)
        | inr y ↦ rw y (
            Gives-then (λ r. length r < length x.1) (Left n) (myflush x.1) _ (myflush-less x.1)
              (λ r l. ask_exact_on-Left fuel room k n r (omega arith) (omega arith)))
      ])

pub ask_date-Left : (n : ℕ) (s : Str) → length s ≤ n → Gives (Left n) (ask_date s)
unfolding ask_date ask_exact
ask_date-Left n s h = ask_exact_on-Left (suc (length s)) date_max 6 n s (omega arith) h

ask_time-Left : (n : ℕ) (s : Str) → length s ≤ n → Gives (Left n) (ask_time s)
unfolding ask_time ask_exact
ask_time-Left n s h = ask_exact_on-Left (suc (length s)) time_str_max 4 n s (omega arith) h

pub ask_subject-Left : (n : ℕ) (s : Str) → length s ≤ n → Gives (Left n) (ask_subject s)
unfolding ask_subject
ask_subject-Left n s h =
    after_scan (Left n) n (scan_into subject_name_max s) hang _
      (scan_into-Left subject_name_max n s h) tt (λ x g. g)

ask_change-Left : (n : ℕ) (e : Entry) (s : Str) → length s ≤ n → Gives (Left n) (ask_change e s)
unfolding ask_change
ask_change-Left n e s h =
    Gives-then (Left n) (Left n) (ask_subject s) _ (ask_subject-Left n s h) (λ x g.
      Gives-then (λ r. length r ≤ n) (Left n) (myflush x.1) _ (myflush-Left n x.1 g)
        (λ r g1. Gives-then (Left n) (Left n) (ask_time r) _ (ask_time-Left n r g1) (λ y g2. g2)))

ask_count_on-Left :
    (fuel n : ℕ) (s : Str) → length s < fuel → length s ≤ n → Gives (Left n) (ask_count_on fuel s)
unfolding ask_count_on
ask_count_on-Left zero n s e h = absurd (omega arith)
ask_count_on-Left (suc fuel) n s below h =
    let le : length (scan_int s).1 ≤ length s = Takes-le s (scan_int s) (scan_int-Takes s) in
    elim (Option-cases (scan_int s).0) [
      | inl e ↦ elim (Bool-cases (ltb (length (scan_int s).1) (length s))) [
        | inl f ↦
            rw (e, ask_count_on)
              (rw f (ask_count_on-Left fuel n (scan_int s).1 (ground arith) (omega arith)))
        | inr f ↦ rw (e, ask_count_on) (rw f tt)
      ]
      | inr (m, e) ↦ elim (Bool-cases (fits_int m)) [
        | inl f ↦ rw (e, ask_count_on) (rw f (omega arith))
        | inr f ↦ rw (e, ask_count_on) (rw f tt)
      ]
    ]

pub ask_count-Left : (n : ℕ) (s : Str) → length s ≤ n → Gives (Left n) (ask_count s)
unfolding ask_count
ask_count-Left n s h = ask_count_on-Left (suc (length s)) n s (omega arith) h

pub register_rows-Left :
    (date : Str) (rounds n : ℕ) (s : Str)
    → length s ≤ n
    → Gives (Left n) (register_rows date rounds s)
unfolding register_rows
register_rows-Left date zero n s h = h
register_rows-Left date (suc rounds) n s h =
    Gives-then (Left n) (Left n) (ask_change _ s) _ (ask_change-Left n _ s h) (λ x g.
      Gives-then (Left n) (Left n) (register_rows date rounds x.1) _
        (register_rows-Left date rounds n x.1 g) (λ y g1. g1))

pub rewrite_rows-Left :
    (change i n : ℕ) (l : List Entry) (s : Str)
    → length s ≤ n
    → Gives (Left n) (rewrite_rows change i l s)
unfolding rewrite_rows
rewrite_rows-Left change i n [] s h = h
rewrite_rows-Left change i n (e ∷ l) s h =
    Gives-then (Left n) (Left n) (if i == change then ask_change e s else ok (e, s)) _ asked (λ x g.
      Gives-then (Left n) (Left n) (rewrite_rows change (i + 1) l x.1) _
        (rewrite_rows-Left change (i + 1) n l x.1 g) (λ y g1. g1))
  where
    asked : Gives (Left n) (if i == change then ask_change e s else ok (e, s))
    asked = elim (Bool-cases (i == change)) [
      | inl f ↦ rw f (ask_change-Left n e s h)
      | inr f ↦ rw f h
    ]

-- The question of a menu takes a byte at least.
ask_entry_on-less :
    (fuel last n : ℕ) (s : Str)
    → length s < fuel
    → length s ≤ n
    → Gives (λ x. length x.1 < n) (ask_entry_on fuel last s)
unfolding ask_entry_on
ask_entry_on-less zero last n s below h = absurd (omega arith)
ask_entry_on-less (suc fuel) last n s below h = elim (Option-cases (scan_int s).0) [
  | inl e ↦
      let le : length (scan_int s).1 ≤ length s = Takes-le s (scan_int s) (scan_int-Takes s) in
      rw (on_none fuel last s e) (
        Gives-then (λ r. length r < length (scan_int s).1) (λ x. length x.1 < n)
          (myflush (scan_int s).1) _ (myflush-less (scan_int s).1)
          (λ r g. ask_entry_on-less fuel last n r (omega arith) (omega arith)))
  | inr (sel, e) ↦
      let lt : length (scan_int s).1 < length s =
        Takes-lt s (scan_int s) sel (scan_int-Takes s) e in
      elim (Bool-cases (fits_int sel)) [
        | inr f ↦ rw (e, ask_entry_on) (rw f tt)
        | inl f ↦ elim (Bool-cases (is_entry last sel)) [
          | inl g ↦ rw (e, ask_entry_on) (rw f (rw g (omega arith)))
          | inr g ↦
              rw (e, ask_entry_on)
                (rw f
                  (rw g (ask_entry_on-less fuel last n (scan_int s).1 (omega arith) (omega arith))))
        ]
      ]
]

pub ask_entry-less : (last : ℕ) (s : Str) → Gives (λ x. length x.1 < length s) (ask_entry last s)
unfolding ask_entry
ask_entry-less last s =
    ask_entry_on-less (suc (length s)) last (length s) s (omega arith) (omega arith)
