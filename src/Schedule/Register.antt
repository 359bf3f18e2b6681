-- ===== src/Schedule/Register.antt =====
-- `register_sched` of studysys/schedule.c. Its array is not initialised, so what it holds is an
-- argument. A file that cannot be opened for reading counts here as one that does not exist, which
-- opening it for appending creates.
pub mod Laws
pub mod Count
pub mod Scan
use embedded_pg.Base.{
  ℕ, zero, suc, ◌+◌, ◌-◌, ◌*◌, ◌^◌, ◌≤◌, Bool, true, false, ◌&&◌, Option, none, some, List, [], ◌∷◌,
  ◌++◌, length, drop, leb, ltb, ◌==◌, if◌then◌else◌,
}
use embedded_pg.Base.Int.{ℤ, pos, negsuc}
use embedded_pg.Base.Outcome.{Outcome, ok, fault, hang, stop, starved, ◌>>=◌}
use embedded_pg.Cstring.{Str}
use embedded_pg.Stdio.{skip_space}
use embedded_pg.Schedule.Entry.{Entry, blank}
use embedded_pg.Schedule.Align.{re_align}
use embedded_pg.Schedule.Change.{ask_change}
use embedded_pg.Schedule.File.{Disk, read_rows, print_row, print_rows}
use embedded_pg.Schedule.Session.{Session}
use embedded_pg.Terminal.{ask_date}

abbrev pub is_digit : ℕ → Bool
is_digit c = leb b'0' c && leb c b'9'

-- The digits at the start of a text, after those that make up `n`: the number and what follows.
unfoldable pub digits_from : ℕ → Str → ℕ × Str
digits_from n [] = (n, [])
digits_from n (c ∷ s) =
    let rest = digits_from (n * 10 + (c - b'0')) s in if is_digit c then rest else (n, c ∷ s)

-- The digits of a number, or none: then the text is left where a digit was expected.
unfoldable pub scan_digits : Str → Option ℕ × Str
unfolding digits_from
scan_digits [] = (none, [])
scan_digits (c ∷ s) =
    if is_digit c then (let (n, r) = digits_from 0 (c ∷ s) in (some n, r)) else (none, c ∷ s)

-- The number 0 less `n`.
abbrev pub negated : ℕ → ℤ
negated zero = pos 0
negated (suc n) = negsuc n

abbrev pub with_sign : (ℕ → ℤ) → Option ℕ × Str → Option ℤ × Str
with_sign f (none, r) = (none, r)
with_sign f (some n, r) = (some (f n), r)

-- A sign if there is one, and digits.
unfoldable pub scan_signed : Str → Option ℤ × Str
unfolding scan_digits
scan_signed [] = (none, [])
scan_signed (c ∷ r) =
    if c == b'-'
    then with_sign negated (scan_digits r)
    else if c == b'+'
    then with_sign pos (scan_digits r)
    else with_sign pos (scan_digits (c ∷ r))

-- `%d` of `scanf`, with the white space before the number. What it has read of a number that does
-- not come is gone.
unfoldable pub scan_int : Str → Option ℤ × Str
unfolding scan_signed
scan_int s = scan_signed (skip_space s)

-- An `int` of 32 bits cannot take other numbers.
abbrev pub fits_int : ℤ → Bool
fits_int (pos n) = ltb n (2 ^ 31)
fits_int (negsuc n) = ltb n (2 ^ 31)

-- `while (1) { res = scanf("%d", &num_sub); if (res == 1) break; }`, on fuel. A round that takes
-- nothing from the input is repeated for ever.
unfoldable pub ask_count_on : ℕ → Str → Outcome (ℤ × Str)
ask_count_on zero s = starved
ask_count_on (suc fuel) s =
    let again = ask_count_on fuel (scan_int s).1 in
    elim (scan_int s).0 [
      | some n ↦ if fits_int n then ok (n, (scan_int s).1) else fault
      | none ↦ if ltb (length (scan_int s).1) (length s) then again else hang
    ]

unfoldable pub ask_count : Str → Outcome (ℤ × Str)
unfolding ask_count_on
ask_count s = ask_count_on (suc (length s)) s

-- The `for` that asks for a name and a time and appends a row, so many times.
unfoldable pub register_rows : Str → ℕ → Str → Outcome (Str × Str)
register_rows date zero r = ok ([], r)
register_rows date (suc n) r = do
  (e, r1) ← ask_change (record blank { date = date }) r
  (text, r2) ← register_rows date n r1
  ok (print_row e ++ text, r2)

-- The rounds of `for (i = 0; i < num_sub; i++)`.
abbrev pub rounds_of : ℤ → ℕ
rounds_of (pos n) = n
rounds_of (negsuc n) = 0

abbrev pub text_of : Option Str → Str
text_of none = []
text_of (some text) = text

-- The file is read, sorted and written over from its start: what is behind the text stays.
unfoldable pub rewrite_sorted : List Entry → Str → Outcome Str
rewrite_sorted tmp_sched text = do
  (a, count) ← read_rows tmp_sched text
  a' ← re_align a count
  new ← print_rows count a'
  ok (new ++ drop (length new) text)

unfoldable pub register_sched : List Entry → Session → Outcome Session
register_sched tmp_sched s = do
  (date, r) ← ask_date s.input
  (num_sub, r1) ← ask_count r
  elim s.disk.writable [
    | false ↦ stop
    | true ↦ do
      (rows, r2) ← register_rows date (rounds_of num_sub) r1
      text ← rewrite_sorted tmp_sched (text_of s.disk.text ++ rows)
      ok (record s { disk = record s.disk { text = some text }; input = r2 })
  ]
