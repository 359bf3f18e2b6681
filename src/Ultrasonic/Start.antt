-- ===== src/Ultrasonic/Start.antt =====
-- The start of `main` of ultrasonic_wave/ultrasonic_wave.c, up to its loop.
use embedded_pg.Base.{ℕ, Bool, ◌||◌, ◌&&◌, Option, none, some, List, [], ◌∷◌, if◌then◌else◌}
use embedded_pg.Base.Int.{ℤ}
use embedded_pg.Base.Outcome.{Outcome, ok, stop, ◌>>=◌}
use embedded_pg.Cstring.{Str}
use embedded_pg.Process.{ProcEntry, get_process_id}
use embedded_pg.Ultrasonic.{Watch, initial}

-- Whether a pipe is there, and whether it can be made.
pub record Fifo : Type 0 where
  pub there : Bool
  pub made : Bool

-- What the start finds: the pipes, the directory of processes with the two arrays of the search,
-- whether wiringPi can be set up, what stands behind the array of marks, and the clock.
pub record Found : Type 0 where
  pub required_time : Fifo
  pub light : Fifo
  pub proc : Option (List ProcEntry)
  pub tmp : Str × Str
  pub wiring : Bool
  pub behind : List ℕ
  pub now : ℕ

abbrev pub ready : Fifo → Bool
ready f = f.there || f.made

-- "esp_lightWifiBu"
abbrev pub light_name : Str
light_name =
    b'e' ∷ b's' ∷ b'p' ∷ b'_' ∷ b'l' ∷ b'i' ∷ b'g' ∷ b'h' ∷ b't' ∷ b'W' ∷ b'i' ∷ b'f' ∷ b'i' ∷ b'B'
    ∷ b'u' ∷ []

-- The search of this program is, line by line, the one of the study system.
abbrev pub find_process : Str → Option (List ProcEntry) → Str × Str → Outcome ℤ
find_process = get_process_id

-- The process that the light has, -1 for none, and the state in which the loop begins; `none` if the
-- program ends with 1.
unfoldable pub start : Found → Outcome (Option (ℤ × Watch))
start f =
    if ready f.required_time && ready f.light
    then (do
      light_pid ← find_process light_name f.proc f.tmp
      ok (if f.wiring then some (light_pid, initial f.behind f.now) else none))
    else stop
