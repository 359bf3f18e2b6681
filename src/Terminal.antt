-- ===== src/Terminal.antt =====
-- The terminal of the study system: what the user types, and what the commands answer. The lines
-- that only ask, rule or clear the screen are not kept.
pub mod Ask
use embedded_pg.Base.{
  ℕ, zero, suc, Bool, true, false, Option, none, some, List, [], ◌∷◌, ◌++◌, length, drop, ltb, ◌==◌,
  if◌then◌else◌,
}
use embedded_pg.Base.Outcome.{Outcome, ok, fault, hang, starved, ◌>>=◌}
use embedded_pg.Cstring.{Str}
use embedded_pg.Schedule.Entry.{Entry, date_max, subject_name_max, time_str_max}
use embedded_pg.Stdio.{scan_word, is_nil}

pub data Message : Type 0 where
  file_error no_entry_on_date wrong_subject deleted not_deleted not_registered : Message

-- A row with its date, a row under another of its date, a message.
pub data Line : Type 0 where
  full_row : Entry → Line
  short_row : Entry → Line
  message : Message → Line

-- `myflush`: past the next newline. At the end of the input its loop never ends.
unfoldable pub myflush : Str → Outcome Str
myflush [] = hang
myflush (c ∷ s) = if c == b'\n' then ok s else myflush s

-- `getch` takes one byte, or the end of the input.
unfoldable pub getch : Str → Str
getch s = drop 1 s

-- `scanf("%s", buf)` into an array of `room` bytes: `none` at the end of the input.
unfoldable pub scan_into : ℕ → Str → Outcome (Option (Str × Str))
scan_into room s =
    let (w, r) = scan_word s in
    if is_nil w then ok none else if ltb (length w) room then ok (some (w, r)) else fault

-- The loops that ask again until a word has exactly `n` bytes, on fuel.
unfoldable pub ask_exact_on : ℕ → ℕ → ℕ → Str → Outcome (Str × Str)
ask_exact_on zero room n s = starved
ask_exact_on (suc fuel) room n s = do
  got ← scan_into room s
  elim got [
    | none ↦ hang
    | some (w, r) ↦ elim (length w == n) [
      | true ↦ ok (w, r)
      | false ↦ do r' ← myflush r; ask_exact_on fuel room n r'
    ]
  ]

-- Each round takes a byte at least.
unfoldable pub ask_exact : ℕ → ℕ → Str → Outcome (Str × Str)
unfolding ask_exact_on
ask_exact room n s = ask_exact_on (suc (length s)) room n s

-- a date of six bytes, a time of four
unfoldable pub ask_date : Str → Outcome (Str × Str)
ask_date = ask_exact date_max 6

unfoldable pub ask_time : Str → Outcome (Str × Str)
ask_time = ask_exact time_str_max 4

-- `while (1) { res = scanf("%s", name_sub); if (res == 1) break; myflush(); }`
unfoldable pub ask_subject : Str → Outcome (Str × Str)
ask_subject s = do
  got ← scan_into subject_name_max s
  elim got [ none ↦ hang | some (w, r) ↦ ok (w, r) ]
