-- ===== src/Bright.antt =====
-- studysys/bright_control.c: the file light_bright_info.txt, which says how bright the light is to be
-- for each subject, and the commands that show, look up and change it.
pub mod Rows
pub mod Find
pub mod Ends
pub mod Change
pub mod Light
use embedded_pg.Base.{
  ℕ, zero, suc, ◌+◌, ◌-◌, Bool, true, false, Option, none, some, List, [], ◌∷◌, ◌++◌, length, drop,
  get_elem?, replicate, ◌==◌, if◌then◌else◌,
}
use embedded_pg.Base.Int.{ℤ, pos, negsuc}
use embedded_pg.Base.Outcome.{Outcome, ok, fault, stop, starved, ◌>>=◌}
use embedded_pg.Cstring.{Str, same}
use embedded_pg.Schedule.File.{Disk}
use embedded_pg.Schedule.Register.{scan_int, fits_int}
use embedded_pg.Stdio.Decimal.{print_int_3}
use embedded_pg.Stdio.Lines.{file_lines}
use embedded_pg.Terminal.{scan_into, myflush, getch}

pub record Subject : Type 0 where
  pub name : Str
  pub bright : ℤ

-- The number of a subject whose name is scanned: `none` if it is missing.
unfoldable pub scan_bright : Str → Str → Outcome (Option (Subject × Str))
scan_bright name r = elim (scan_int r).0 [
  | none ↦ ok none
  | some b ↦ elim (fits_int b) [
    | true ↦ ok (some (record { name = name; bright = b }, (scan_int r).1))
    | false ↦ fault
  ]
]

-- `scanf` and `sscanf` of "%s%d" into a subject: `none` if one of the two is missing.
unfoldable pub scan_subject : Str → Outcome (Option (Subject × Str))
scan_subject s = do
  got ← scan_into 20 s
  elim got [ none ↦ ok none | some (name, r) ↦ scan_bright name r ]

-- The `while` of `get_subject_bright`, on fuel: each round takes a byte at least.
unfoldable pub find_bright : ℕ → Str → Str → Outcome ℤ
find_bright zero subject_name text = starved
find_bright (suc fuel) subject_name text = do
  got ← scan_subject text
  elim got [
    | none ↦ ok (negsuc 0)
    | some (subject, rest) ↦ elim (same subject_name subject.name) [
      | true ↦ ok subject.bright
      | false ↦ find_bright fuel subject_name rest
    ]
  ]

unfoldable pub get_subject_bright : Str → Disk → Outcome ℤ
get_subject_bright subject_name disk = elim disk.text [
  | none ↦ ok (negsuc 0)
  | some text ↦ find_bright (suc (length text)) subject_name text
]

-- "Korean", "Math", "English", "Science", "History"
abbrev pub subject_names : List Str
subject_names =
    (b'K' ∷ b'o' ∷ b'r' ∷ b'e' ∷ b'a' ∷ b'n' ∷ [])
    ∷ (b'M' ∷ b'a' ∷ b't' ∷ b'h' ∷ [])
    ∷ (b'E' ∷ b'n' ∷ b'g' ∷ b'l' ∷ b'i' ∷ b's' ∷ b'h' ∷ [])
    ∷ (b'S' ∷ b'c' ∷ b'i' ∷ b'e' ∷ b'n' ∷ b'c' ∷ b'e' ∷ [])
    ∷ (b'H' ∷ b'i' ∷ b's' ∷ b't' ∷ b'o' ∷ b'r' ∷ b'y' ∷ [])
    ∷ []

-- `%-20s`, for any width
unfoldable pub pad_right : ℕ → Str → Str
pad_right n s = s ++ replicate (n - length s) b' '

-- `fprintf(fp, "%-20s %03d\n", …)`
unfoldable pub print_subject : Str → ℤ → Str
print_subject name bright = pad_right 20 name ++ b' ' ∷ (print_int_3 bright ++ b'\n' ∷ [])

-- What is behind the file's position.
unfoldable pub join : List Str → Str
join [] = []
join (l ∷ ls) = l ++ join ls

abbrev pub is_index : ℕ → ℤ → Bool
is_index i (pos n) = i == n
is_index i (negsuc n) = false

-- What the two variables hold that are not initialised: the names from the sixth to the tenth on,
-- and the new brightness, if no number is typed.
pub record Unset : Type 0 where
  pub names : List Str
  pub new_bright : ℤ

-- `scanf("%d", &n)`: the variable after it, and the rest of the input.
unfoldable pub scan_number : ℤ → Str → Outcome (ℤ × Str)
scan_number n s = elim (scan_int s).0 [
  | none ↦ ok (n, (scan_int s).1)
  | some m ↦ elim (fits_int m) [ true ↦ ok (m, (scan_int s).1) | false ↦ fault ]
]

-- The new row goes over what stands there; the numbers from the eleventh on name no subject.
unfoldable pub write_row : Unset → ℕ → Str → ℤ → Str → Outcome (Str × Str)
write_row unset i there new_bright r = elim (get_elem? (subject_names ++ unset.names) i) [
  | none ↦ fault
  | some name ↦ let new = print_subject name new_bright in ok (new ++ drop (length new) there, r)
]

-- From the line that is to be changed: the text from it on and the rest of the input.
unfoldable pub change_line : Unset → ℕ → Str → Str → Str → Outcome (Str × Str)
change_line unset i buf behind input = do
  got ← scan_subject buf
  elim got [
    | none ↦ stop
    | some (subject, rest) ↦ do
      (new_bright, r) ← scan_number unset.new_bright input
      write_row unset i (buf ++ behind) new_bright r
  ]

-- The `while` from the line with the number `i` on: `none` if there is no such line.
unfoldable pub change_lines : Unset → ℤ → ℕ → List Str → Str → Outcome (Option (Str × Str))
change_lines unset subject_no i [] input = ok none
change_lines unset subject_no i (buf ∷ bufs) input = elim (is_index i subject_no) [
  | true ↦ do (text, r) ← change_line unset i buf (join bufs) input; ok (some (text, r))
  | false ↦ do
    got ← change_lines unset subject_no (i + 1) bufs input
    elim got [ none ↦ ok none | some (text, r) ↦ ok (some (buf ++ text, r)) ]
]

-- What is returned, the file and the rest of the input.
pub record Changed : Type 0 where
  pub ret : ℤ
  pub disk : Disk
  pub input : Str

-- The file is opened for reading and writing.
unfoldable pub change_subject_bright : Unset → ℤ → Disk → Str → Outcome Changed
change_subject_bright unset subject_no disk input =
    let refused : Changed = record { ret = negsuc 0; disk = disk; input = input } in
    elim disk.writable [
      | false ↦ ok refused
      | true ↦ elim disk.text [
        | none ↦ ok refused
        | some text ↦ do
          got ← change_lines unset subject_no 0 (file_lines text) input
          elim got [
            | none ↦ ok refused
            | some (new, r) ↦ do
              r' ← myflush r
              ok (record { ret = pos 0; disk = record disk { text = some new }; input = getch r' })
          ]
      ]
    ]

-- The rows that are shown, with their numbers; a line that is no row ends the program.
unfoldable pub show_subjects : ℕ → List Str → Outcome (List (ℕ × Subject))
show_subjects i [] = ok []
show_subjects i (buf ∷ bufs) = do
  got ← scan_subject buf
  elim got [
    | none ↦ stop
    | some (subject, rest) ↦ do rows ← show_subjects (i + 1) bufs; ok ((i + 1, subject) ∷ rows)
  ]

-- `num - 1`; the least `int` has no predecessor.
unfoldable pub one_less : ℤ → Outcome ℤ
one_less (pos zero) = ok (negsuc 0)
one_less (pos (suc n)) = ok (pos n)
one_less (negsuc n) = elim (fits_int (negsuc (suc n))) [
  | true ↦ ok (negsuc (suc n))
  | false ↦ fault
]

-- The rows, and what `change_subject_bright` leaves; `num` is what that variable holds at first.
unfoldable pub select_subject_to_change_bright :
    Unset → ℤ → Disk → Str → Outcome (List (ℕ × Subject) × Changed)
select_subject_to_change_bright unset num disk input = elim disk.text [
  | none ↦ ok ([], record { ret = negsuc 0; disk = disk; input = input })
  | some text ↦ do
    rows ← show_subjects 0 (file_lines text)
    (num', r) ← scan_number num input
    subject_no ← one_less num'
    changed ← change_subject_bright unset subject_no disk r
    ok (rows, record changed { ret = pos 0 })
]
