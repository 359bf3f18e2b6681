-- ===== src/Ultrasonic.antt =====
-- ultrasonic_wave/ultrasonic_wave.c: the window of measurements that decides whether somebody is
-- studying, and the count of the seconds. What the sensor, the clock and the calls of the operating
-- system give is an argument of each event. A signal is taken between two measurements, and the
-- clock does not go back.
pub mod Start
pub mod Window
pub mod Decision
pub mod Moves
pub mod Order
pub mod Clock
use embedded_pg.Base.{
  ℕ, zero, suc, ◌+◌, ◌-◌, ◌/◌, ◌^◌, ◌≡◌, Bool, true, false, List, [], ◌∷◌, ◌++◌, replicate, ltb,
  leb, ◌==◌, if◌then◌else◌,
}
use embedded_pg.Base.Arrays.{set_elem}
use embedded_pg.Base.Outcome.{Outcome, ok, fault, stop, ◌>>=◌}

-- STUDYING_NUM
abbrev pub studying_num : ℕ
studying_num = 10

-- What the process does to others: the light is told to go on or off, the study system is started
-- and ended, minutes are told to whoever asks. The numbers are the seconds of the clock.
pub data Action : Type 0 where
  light_on light_off : Action
  start_child kill_child : ℕ → Action
  report : ℕ → ℕ → Action

-- The variables of `main`, the global ones, the clock, and the actions, the latest first. The array
-- is followed by what stands behind it, as far as that can be written without harm.
pub record Watch : Type 0 where
  pub studying_arr : List ℕ
  pub cnt : ℕ
  pub is_studying : ℕ
  pub total_sec : ℕ
  pub tv_start : ℕ
  pub now : ℕ
  pub actions : List Action

-- As the loop begins; `tv_start` is not set before somebody studies.
abbrev pub initial : List ℕ → ℕ → Watch
initial behind now = record {
  studying_arr = replicate studying_num 0 ++ behind;
  cnt = 0;
  is_studying = 0;
  total_sec = 0;
  tv_start = 0;
  now = now;
  actions = [];
}

-- One round: how long the echo took, the seconds that have gone by since the event before, and
-- whether the pipe to the light can be opened and a process started.
pub record Round : Type 0 where
  pub travel_time : ℕ
  pub elapsed : ℕ
  pub opens : Bool
  pub forks : Bool

abbrev pub acts : Watch → Action → Watch
acts w a = record w { actions = a ∷ w.actions }

-- A pipe that cannot be opened ends the program. Whether the signal was delivered makes no
-- difference.
unfoldable pub send_sigusr1_and_fifo : Bool → Action → Watch → Outcome Watch
send_sigusr1_and_fifo opens a w = if opens then ok (acts w a) else stop

-- `total_sec += (tv_end.tv_sec - tv_start.tv_sec);` in an `int` of 32 bits
unfoldable pub add_seconds : Watch → Outcome Watch
add_seconds w =
    let total = w.total_sec + (w.now - w.tv_start) in
    if ltb total (2 ^ 31) then ok (record w { total_sec = total }) else fault

-- The sum over the first elements.
unfoldable pub sum_first : ℕ → List ℕ → Outcome ℕ
sum_first zero a = ok 0
sum_first (suc n) [] = fault
sum_first (suc n) (x ∷ a) = do s ← sum_first n a; ok (x + s)

-- Enough of the window is near.
unfoldable pub begin_study : Round → Watch → Outcome Watch
unfolding send_sigusr1_and_fifo
begin_study e w = elim (w.is_studying == 0) [
  | false ↦ ok (record w { is_studying = 1 })
  | true ↦ do
    w1 ← send_sigusr1_and_fifo e.opens light_on w
    elim e.forks [
      | true ↦ ok (record (acts w1 (start_child w1.now)) { is_studying = 1; tv_start = w1.now })
      | false ↦ stop
    ]
]

-- Not enough of it is.
unfoldable pub end_study : Round → Watch → Outcome Watch
unfolding send_sigusr1_and_fifo add_seconds
end_study e w = elim (w.is_studying == 1) [
  | false ↦ ok (record w { is_studying = 0 })
  | true ↦ do
    w1 ← send_sigusr1_and_fifo e.opens light_off w
    w2 ← add_seconds (acts w1 (kill_child w1.now))
    ok (record w2 { is_studying = 0 })
]

-- The window is full.
unfoldable pub decide : Round → Watch → Outcome Watch
unfolding sum_first begin_study end_study
decide e w = do
  cnt ← sum_first studying_num w.studying_arr
  w' ← (if leb (studying_num / 2) cnt then begin_study e w else end_study e w)
  ok (record w' { cnt = 0 })

-- `distance < 80.0`, with `distance = travelTime / 58`
abbrev pub mark : ℕ → ℕ
mark travel_time = if ltb (travel_time / 58) 80 then 1 else 0

-- The clock goes on.
abbrev pub tick : ℕ → Watch → Watch
tick d w = record w { now = w.now + d }

-- A round of the `while`.
unfoldable pub measure : Round → Watch → Outcome Watch
unfolding decide
measure e w = do
  studying_arr ← set_elem w.studying_arr w.cnt (mark e.travel_time)
  let w1 = tick e.elapsed (record w { studying_arr = studying_arr })
  elim (leb studying_num w.cnt) [ true ↦ decide e w1 | false ↦ ok (record w1 { cnt = w.cnt + 1 }) ]

-- The handler, with the seconds that have gone by and whether the pipe can be opened.
unfoldable pub sigusr1_handler : ℕ → Bool → Watch → Outcome Watch
unfolding add_seconds
sigusr1_handler elapsed opens w = elim opens [
  | false ↦ stop
  | true ↦ do
    w1 ← add_seconds (tick elapsed w)
    ok (acts (record w1 { tv_start = w1.now }) (report w1.now (w1.total_sec / 60)))
]

-- What can happen next.
pub data Event : Type 0 where
  measured : Round → Event
  signalled : ℕ → Bool → Event

abbrev pub step : Event → Watch → Outcome Watch
step (measured e) w = measure e w
step (signalled elapsed opens) w = sigusr1_handler elapsed opens w

-- The states that a run can come to, if only such events happen as are allowed in their state.
pub data Reach (allowed : Event → Watch → Type 0) (start : Watch) : Watch → Type 0 where
  here : Reach allowed start start
  next :
      {w w' : Watch} (e : Event)
      → Reach allowed start w
      → allowed e w
      → step e w ≡ ok w'
      → Reach allowed start w'
