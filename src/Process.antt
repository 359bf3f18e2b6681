-- ===== src/Process.antt =====
-- The search of /proc for a process by its name, which studysys/bright_control.c and
-- ultrasonic_wave/ultrasonic_wave.c have alike. What the directory and its files hold is an argument.
-- Names in a directory are short enough for the paths that they are put into.
pub mod Found
use embedded_pg.Base.{
  ℕ, zero, suc, ◌-◌, Bool, true, false, ◌&&◌, ◌||◌, Option, none, some, List, [], ◌∷◌, ◌++◌, length,
  ltb, leb, ◌==◌, if◌then◌else◌,
}
use embedded_pg.Base.Int.{ℤ, pos, negsuc}
use embedded_pg.Base.Outcome.{Outcome, ok, fault, ◌>>=◌}
use embedded_pg.Cstring.{Str, same}
use embedded_pg.Stdio.{scan_word, is_nil}
use embedded_pg.Stdio.Lines.{file_lines}
use embedded_pg.Schedule.Register.{is_digit, digits_from, fits_int, scan_int}

-- A file or directory of /proc: its name, and the texts of its files `status` and `cmdline`, if
-- they can be opened.
pub record ProcEntry : Type 0 where
  pub d_name : Str
  pub status : Option Str
  pub cmdline : Option Str

-- The `for` over the name.
unfoldable pub is_pid_dir : Str → Bool
is_pid_dir [] = true
is_pid_dir (c ∷ s) = let rest = is_pid_dir s in if is_digit c then rest else false

-- `atoi`, where the number can be had as an `int`; a text without a number gives 0.
unfoldable pub atoi : Str → Outcome ℤ
atoi s = elim (scan_int s).0 [
  | none ↦ ok (pos 0)
  | some n ↦ elim (fits_int n) [ true ↦ ok n | false ↦ fault ]
]

-- A word that fits in an array of half of BUF_SIZE.
abbrev pub fits_tmp : Str → Bool
fits_tmp w = ltb (length w) 512

-- `sscanf(buf, "%s\t%s", tmp1, tmp2)`: an array stays as it is where no word is left for it.
unfoldable pub scan_status : Str → Str × Str → Outcome (Str × Str)
scan_status buf (tmp1, tmp2) =
    let (w1, r1) = scan_word buf in
    let (w2, r2) = scan_word r1 in
    if is_nil w1
    then ok (tmp1, tmp2)
    else if fits_tmp w1 && fits_tmp w2
    then ok (w1, if is_nil w2 then tmp2 else w2)
    else fault

-- "Name:"
abbrev pub name_label : Str
name_label = b'N' ∷ b'a' ∷ b'm' ∷ b'e' ∷ b':' ∷ []

-- The inner `while`: whether the process has the name, and the arrays after it.
unfoldable pub has_name : Str → List Str → Str × Str → Outcome (Bool × Str × Str)
has_name proc_name [] (tmp1, tmp2) = ok (false, tmp1, tmp2)
has_name proc_name (buf ∷ bufs) tmp = do
  (tmp1, tmp2) ← scan_status buf tmp
  elim (same tmp1 name_label) [
    | true ↦ ok (same tmp2 proc_name, tmp1, tmp2)
    | false ↦ has_name proc_name bufs (tmp1, tmp2)
  ]

-- The outer `while`, with -1 where nothing is found or a file cannot be opened.
unfoldable pub search_entries : Str → List ProcEntry → Str × Str → Outcome ℤ
search_entries proc_name [] tmp = ok (negsuc 0)
search_entries proc_name (e ∷ es) tmp = elim (is_pid_dir e.d_name) [
  | false ↦ search_entries proc_name es tmp
  | true ↦ elim e.status [
    | none ↦ ok (negsuc 0)
    | some text ↦ do
      (hit, tmp1, tmp2) ← has_name proc_name (file_lines text) tmp
      elim hit [ true ↦ atoi e.d_name | false ↦ search_entries proc_name es (tmp1, tmp2) ]
  ]
]

-- The directory is none where it cannot be opened. What the two arrays hold at first is an argument.
unfoldable pub get_process_id : Str → Option (List ProcEntry) → Str × Str → Outcome ℤ
get_process_id proc_name none tmp = ok (negsuc 0)
get_process_id proc_name (some es) tmp = search_entries proc_name es tmp
