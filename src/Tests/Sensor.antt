-- ===== src/Tests/Sensor.antt =====
-- The sensor: eleven echoes from near, a signal, and the processes that are looked for.
use embedded_pg.Base.{
  ℕ, ◌+◌, ◌-◌, ◌≡◌, refl, ◌∙◌, true, none, some, inl, [], ◌∷◌, ◌++◌, length, replicate, arith,
}
use embedded_pg.Base.Arrays.{set_elem}
use embedded_pg.Base.Int.{pos}
use embedded_pg.Base.Outcome.{ok, fault}
use embedded_pg.Cstring.{Str, strcmp}
use embedded_pg.Stdio.{is_space, skip_space}
use embedded_pg.Stdio.Laws.{IsField}
use embedded_pg.Stdio.Decimal.{print_int}
use embedded_pg.Process.{ProcEntry, is_pid_dir, atoi, get_process_id}
use embedded_pg.Process.Found.{status_text, IsOther, no_process, other_name, get_process_id-found}
use embedded_pg.Schedule.Register.{scan_int}
use embedded_pg.Ultrasonic.{
  light_on, start_child, report, Watch, initial, Round, measured, signalled, Reach, here, next,
  measure, sigusr1_handler,
}
use embedded_pg.Ultrasonic.Window.{measures, measures-overrun}
use embedded_pg.Ultrasonic.Decision.{near, measures-decide}
use embedded_pg.Ultrasonic.Order.{IsOrderly, Reach-IsOrderly}
use embedded_pg.Ultrasonic.Clock.{
  last_mark, studied, AreRight, WhileStudying, Reach-AreRight, signal-overcounts,
}
use embedded_pg.Bright.Light.{Host, ultrasonic_process, bytes, get_total_min}
use embedded_pg.Bright.Light.Minutes.{sigusr1_handler-get_total_min}

-- An echo from 50 centimetres, a second after the one before.
abbrev close : Round
close = record { travel_time = 2900; elapsed = 1; opens = true; forks = true }

measures-overrun_example : measures (replicate 11 close) (initial [] 0) ≡ fault
measures-overrun_example = measures-overrun (replicate 11 close) 0 (omega arith)

measures-decide_example :
    (w' : Watch) × (measures (replicate 10 close ++ close ∷ []) (initial (7 ∷ []) 0) ≡ ok w')
    × (w'.cnt ≡ 0)
    × (length w'.studying_arr ≡ 11)
    × (w'.is_studying ≡ 1)
    × (w'.actions ≡ start_child 11 ∷ light_on ∷ [])
unfolding near
measures-decide_example =
    measures-decide (replicate 10 close) close (initial (7 ∷ []) 0) (replicate 10 0) 7 [] refl refl
      refl refl (inl refl) refl refl (omega arith)

-- Ten echoes fill the window, the next one decides, and a signal comes a minute later.
abbrev window : ℕ → Watch
window n = record (initial (7 ∷ []) 0) {
  studying_arr = replicate n 1 ++ (replicate (10 - n) 0 ++ 7 ∷ []);
  cnt = n;
  now = n;
}

abbrev told : Watch
told = record (initial (7 ∷ []) 0) {
  studying_arr = replicate 11 1;
  is_studying = 1;
  total_sec = 60;
  tv_start = 71;
  now = 71;
  actions = report 71 1 ∷ start_child 11 ∷ light_on ∷ [];
}

abbrev Run : Watch → Type 0
Run = Reach WhileStudying (initial (7 ∷ []) 0)

ten_echoes : Run (window 10)
unfolding measure set_elem
ten_echoes =
    next (measured close)
      (next (measured close)
        (next (measured close)
          (next (measured close)
            (next (measured close)
              (next (measured close)
                (next (measured close)
                  (next (measured close)
                    (next (measured close) (next (measured close) (here) tt refl) tt refl) tt refl)
                  tt refl)
                tt refl)
              tt refl)
            tt refl)
          tt refl)
        tt refl)
      tt refl

told-Reach : Run told
unfolding measure sigusr1_handler set_elem
told-Reach = next (signalled 60 true) (next (measured close) ten_echoes tt refl) refl refl

Reach-IsOrderly_example : IsOrderly 1 (report 71 1 ∷ start_child 11 ∷ light_on ∷ [])
Reach-IsOrderly_example = Reach-IsOrderly WhileStudying (7 ∷ []) 0 told told-Reach

Reach-AreRight_example : AreRight (report 71 1 ∷ start_child 11 ∷ light_on ∷ [])
Reach-AreRight_example = Reach-AreRight (7 ∷ []) 0 told told-Reach

-- One echo.
abbrev one_mark : Watch
one_mark = record (initial [] 0) { studying_arr = 1 ∷ replicate 9 0; cnt = 1; now = 1 }

one_echo : Reach WhileStudying (initial [] 0) one_mark
unfolding measure set_elem
one_echo = next (measured close) here tt refl

signal-overcounts_example :
    (w' : Watch) × (sigusr1_handler 59 true one_mark ≡ ok w')
    × (w'.total_sec ≡ studied w'.now w'.actions + 60)
unfolding last_mark
signal-overcounts_example = signal-overcounts [] 0 one_mark 59 one_echo refl (omega arith)

-- "self", "1" and "42", with the processes "init" and "ultrasonic"
abbrev self : ProcEntry
self = record { d_name = b's' ∷ b'e' ∷ b'l' ∷ b'f' ∷ []; status = none; cmdline = none }

abbrev init_name : Str
init_name = b'i' ∷ b'n' ∷ b'i' ∷ b't' ∷ []

abbrev init : ProcEntry
init = record {
  d_name = b'1' ∷ [];
  status = some (status_text init_name (b'x' ∷ []));
  cmdline = none;
}

abbrev sensor : ProcEntry
sensor = record {
  d_name = b'4' ∷ b'2' ∷ [];
  status = some (status_text ultrasonic_process []);
  cmdline = none;
}

init-IsField : IsField 500 init_name
unfolding is_space
init-IsField = record {
  some_byte = omega arith;
  fits = omega arith;
  no_space = (refl, (refl, (refl, (refl, tt))));
}

ultrasonic-IsField : IsField 500 ultrasonic_process
unfolding is_space
ultrasonic-IsField = record {
  some_byte = omega arith;
  fits = omega arith;
  no_space = (refl, (refl, (refl, (refl, (refl, (refl, (refl, (refl, (refl, (refl, tt))))))))));
}

self-IsOther : IsOther ultrasonic_process self
unfolding is_pid_dir
self-IsOther = no_process refl

init-IsOther : IsOther ultrasonic_process init
unfolding is_pid_dir strcmp
init-IsOther = other_name init_name (b'x' ∷ []) refl init-IsField refl refl

get_process_id-found_example :
    get_process_id ultrasonic_process (some (self ∷ init ∷ sensor ∷ [])) ([], [])
    ≡ atoi (b'4' ∷ b'2' ∷ [])
unfolding is_pid_dir
get_process_id-found_example =
    get_process_id-found ultrasonic_process (self ∷ init ∷ []) sensor [] ([], []) []
      (self-IsOther, (init-IsOther, tt)) refl ultrasonic-IsField refl

abbrev host : Host
host = record {
  proc = some (sensor ∷ []);
  tmp = ([], []);
  fifo_there = true;
  fifo_made = true;
  fifo_opens = true;
}

atoi-42 : atoi (b'4' ∷ b'2' ∷ []) ≡ ok (pos 42)
unfolding atoi scan_int skip_space
atoi-42 = refl

sensor-found : get_process_id ultrasonic_process (some (sensor ∷ [])) ([], []) ≡ ok (pos 42)
unfolding is_pid_dir
sensor-found =
    get_process_id-found ultrasonic_process [] sensor [] ([], []) [] tt refl ultrasonic-IsField refl
    ∙ atoi-42

-- Two minutes after the study began.
abbrev sitting : Watch
sitting = record (initial [] 0) { is_studying = 1; tv_start = 100; now = 150 }

sigusr1_handler-get_total_min_example :
    (w' : Watch) × (m : ℕ) × (sigusr1_handler 70 true sitting ≡ ok w')
    × (m ≡ 2)
    × (w'.actions ≡ report w'.now m ∷ [])
    × (get_total_min host (bytes (print_int (pos m))) ≡ ok (pos m))
sigusr1_handler-get_total_min_example =
    sigusr1_handler-get_total_min host 42 70 sitting sensor-found (omega arith)
