-- ===== src/Bright/Light.antt =====
-- studysys/bright_control.c: the commands that ask the other processes, the light and the ultrasonic
-- sensor, and the menu. What the operating system gives is an argument.
pub mod Minutes
pub mod Endless
use embedded_pg.Base.{
  ℕ, zero, suc, ◌+◌, Bool, true, false, ◌&&◌, ◌||◌, Option, none, some, List, [], ◌∷◌, ◌++◌, length,
  take, ltb, ◌==◌, if◌then◌else◌,
}
use embedded_pg.Base.Arrays.{set_elem}
use embedded_pg.Base.Int.{ℤ, pos, negsuc}
use embedded_pg.Base.Outcome.{Outcome, ok, fault, stop, starved, ◌>>=◌}
use embedded_pg.Comm.{c_string}
use embedded_pg.Cstring.{Str, same}
use embedded_pg.Process.{ProcEntry, is_pid_dir, atoi, get_process_id}
use embedded_pg.Schedule.File.{Disk}
use embedded_pg.Terminal.{scan_into, myflush, getch}
use embedded_pg.Bright.{Unset, Changed, scan_number, select_subject_to_change_bright}

-- The directory of processes, what the two arrays of `get_process_id` hold at first, and whether the
-- pipe to the light is there, can be made and can be opened.
pub record Host : Type 0 where
  pub proc : Option (List ProcEntry)
  pub tmp : Str × Str
  pub fifo_there : Bool
  pub fifo_made : Bool
  pub fifo_opens : Bool

-- "esp_lightWifiBu", the name of the light's process as far as the kernel keeps it
abbrev pub light_process : Str
light_process =
    b'e' ∷ b's' ∷ b'p' ∷ b'_' ∷ b'l' ∷ b'i' ∷ b'g' ∷ b'h' ∷ b't' ∷ b'W' ∷ b'i' ∷ b'f' ∷ b'i' ∷ b'B'
    ∷ b'u' ∷ []

-- What is typed, or what the array holds if nothing is.
unfoldable pub scan_buf : Str → Str → Outcome (Str × Str)
scan_buf buf input = do
  got ← scan_into 20 input
  elim got [
    | some (w, r) ↦ ok (w, r)
    | none ↦ elim (c_string buf) [ none ↦ fault | some w ↦ ok (w, input) ]
  ]

-- The process that gets the signal, and what is written into its pipe.
pub record Told : Type 0 where
  pub pid : ℕ
  pub text : Str

-- From the search of the light's process on.
unfoldable pub tell_light : Host → Str → ℤ → Str → Outcome (Told × Str)
tell_light host buf (negsuc n) input = stop
tell_light host buf (pos light_pid) input = do
  (text, r) ← scan_buf buf input
  elim host.fifo_opens [
    | false ↦ stop
    | true ↦ do r' ← myflush r; ok (record { pid = light_pid; text = text }, getch r')
  ]

-- `buf` is what the array holds at first.
unfoldable pub set_current_light_bright : Host → Str → Str → Outcome (Told × Str)
set_current_light_bright host buf input =
    if host.fifo_there || host.fifo_made
    then (do
      light_pid ← get_process_id light_process host.proc host.tmp
      tell_light host buf light_pid input)
    else stop

-- "ultrasonic"
abbrev pub ultrasonic_process : Str
ultrasonic_process = b'u' ∷ b'l' ∷ b't' ∷ b'r' ∷ b'a' ∷ b's' ∷ b'o' ∷ b'n' ∷ b'i' ∷ b'c' ∷ []

-- What the pipe of the sensor gives.
pub data Answer : Type 0 where
  no_open no_read : Answer
  bytes : Str → Answer

-- At most 20 bytes are read into an array of 20; the NUL behind them needs one more.
unfoldable pub read_minutes : Answer → Outcome ℤ
read_minutes no_open = stop
read_minutes no_read = ok (negsuc 0)
read_minutes (bytes s) = elim (ltb (length (take 20 s)) 20) [
  | false ↦ fault
  | true ↦ elim (c_string (take 20 s ++ 0 ∷ [])) [ none ↦ fault | some t ↦ atoi t ]
]

unfoldable pub get_total_min : Host → Answer → Outcome ℤ
get_total_min host answer = do
  pid ← get_process_id ultrasonic_process host.proc host.tmp
  elim pid [ negsuc n ↦ ok (negsuc 0) | pos n ↦ read_minutes answer ]

-- LIGHT_PROC_NAME
abbrev pub light_proc_name : Str
light_proc_name =
    b'e' ∷ b's' ∷ b'p' ∷ b'_' ∷ b'l' ∷ b'i' ∷ b'g' ∷ b'h' ∷ b't' ∷ b'W' ∷ b'i' ∷ b'f' ∷ b'i' ∷ b'B'
    ∷ b'u' ∷ b'l' ∷ b'b' ∷ b'L' ∷ b'a' ∷ b'n' ∷ b'C' ∷ b't' ∷ b'r' ∷ b'l' ∷ b'.' ∷ b'p' ∷ b'y' ∷ []

-- The `while` over the bytes of `cmdline`: whether it says that this is the light. `plain` is
-- whether the bytes of `ch` that are not read into are 0.
unfoldable pub scan_args : Bool → ℕ → ℕ → Str → Str → Outcome (Bool × ℕ × Str)
scan_args plain i arg_count buf [] = ok (false, i, buf)
scan_args plain i arg_count buf (ch ∷ chs) = do
  buf' ← set_elem buf i ch
  elim ((ch == 0) && plain) [
    | false ↦ scan_args plain (i + 1) arg_count buf' chs
    | true ↦ elim (arg_count == 1) [
      | false ↦ scan_args plain 0 (arg_count + 1) buf' chs
      | true ↦ elim (c_string buf') [
        | none ↦ fault
        | some arg ↦ ok (same arg light_proc_name, i + 1, buf')
      ]
    ]
  ]

-- The `while` over the entries; the name of each is as long as `i` is when its bytes are read.
unfoldable pub search_light : Bool → Str → List ProcEntry → Outcome ℤ
search_light plain buf [] = ok (negsuc 0)
search_light plain buf (e ∷ es) = elim (is_pid_dir e.d_name) [
  | false ↦ search_light plain buf es
  | true ↦ do
    pid ← atoi e.d_name
    elim e.cmdline [
      | none ↦ ok (negsuc 0)
      | some text ↦ do
        (hit, i, buf') ← scan_args plain (length e.d_name) 0 buf text
        elim hit [ true ↦ ok pid | false ↦ search_light plain buf' es ]
    ]
]

-- What the array holds at first is an argument.
unfoldable pub get_light_proc_pid : Bool → Str → Option (List ProcEntry) → Outcome ℤ
get_light_proc_pid plain buf none = ok (negsuc 0)
get_light_proc_pid plain buf (some es) = search_light plain buf es

-- The file, the input, and what the light has been told, the latest first.
pub record Console : Type 0 where
  pub disk : Disk
  pub input : Str
  pub told : List Told

-- What the `switch` does: what is returned, or nothing if the menu goes on.
unfoldable pub do_bright : Unset → ℤ → Host → Str → ℤ → Console → Outcome (Option ℤ × Console)
do_bright unset held host buf (pos (suc zero)) c = do
  (rows, changed) ← select_subject_to_change_bright unset held c.disk c.input
  let c' = record c { disk = changed.disk; input = changed.input }
  ok (elim changed.ret [ pos n ↦ none | negsuc n ↦ some (negsuc 0) ], c')
do_bright unset held host buf (pos (suc (suc zero))) c = do
  (told, r) ← set_current_light_bright host buf c.input
  ok (none, record c { input = r; told = told ∷ c.told })
do_bright unset held host buf (pos (suc (suc (suc zero)))) c = ok (some (pos 0), c)
do_bright unset held host buf num c = ok (none, c)

-- The `while` of the menu, on fuel; `num` keeps its value if no number comes. The arrays and
-- variables that the commands do not set hold the same each time.
unfoldable pub select_bright_menu : ℕ → Unset → ℤ → Host → Str → ℤ → Console → Outcome (ℤ × Console)
select_bright_menu zero unset held host buf num c = starved
select_bright_menu (suc fuel) unset held host buf num c = do
  (num', r) ← scan_number num c.input
  (ret, c') ← do_bright unset held host buf num' (record c { input = r })
  elim ret [ some n ↦ ok (n, c') | none ↦ select_bright_menu fuel unset held host buf num' c' ]
