-- ===== src/Ultrasonic/Moves.antt =====
-- What an event can change of the state, window aside.
use embedded_pg.Base.{
  ℕ, ◌+◌, ◌-◌, ◌/◌, ◌^◌, ◌≡◌, ◌⊎◌, refl, sym, inl, inr, Bool, true, false, List, ◌∷◌, ltb, leb,
  ◌==◌, if◌then◌else◌, arith, Bool-cases, ◌≤◌,
}
use embedded_pg.Base.Arrays.{set_elem}
use embedded_pg.Base.Outcome.{ok, IfOk, IfOk-then, IfOk-any, IfOk-imp}
use embedded_pg.Ultrasonic.{
  light_on, light_off, start_child, kill_child, report, Watch, Round, begin_study, end_study,
  decide, measure, mark, tick, studying_num, sum_first, send_sigusr1_and_fifo, add_seconds,
  sigusr1_handler,
}

-- The variable is used as a truth value.
abbrev pub IsFlag : Watch → Type 0
IsFlag w = (w.is_studying ≡ 0) ⊎ (w.is_studying ≡ 1)

-- Nothing but the clock, the window and its count.
pub record Kept (w w' : Watch) : Type 0 where
  pub is_studying_same : w'.is_studying ≡ w.is_studying
  pub total_sec_same : w'.total_sec ≡ w.total_sec
  pub tv_start_same : w'.tv_start ≡ w.tv_start
  pub actions_same : w'.actions ≡ w.actions

-- Somebody sits down.
pub record SatDown (w w' : Watch) : Type 0 where
  pub was_away : w.is_studying ≡ 0
  pub is_here : w'.is_studying ≡ 1
  pub total_sec_same : w'.total_sec ≡ w.total_sec
  pub starts_now : w'.tv_start ≡ w'.now
  pub actions_on : w'.actions ≡ start_child w'.now ∷ light_on ∷ w.actions

-- Somebody stands up.
pub record StoodUp (w w' : Watch) : Type 0 where
  pub was_here : w.is_studying ≡ 1
  pub is_away : w'.is_studying ≡ 0
  pub total_sec_more : w'.total_sec ≡ w.total_sec + (w'.now - w.tv_start)
  pub tv_start_same : w'.tv_start ≡ w.tv_start
  pub actions_off : w'.actions ≡ kill_child w'.now ∷ light_off ∷ w.actions

-- The minutes are told.
pub record Told (w w' : Watch) : Type 0 where
  pub is_studying_same : w'.is_studying ≡ w.is_studying
  pub total_sec_more : w'.total_sec ≡ w.total_sec + (w'.now - w.tv_start)
  pub starts_now : w'.tv_start ≡ w'.now
  pub actions_told : w'.actions ≡ report w'.now (w'.total_sec / 60) ∷ w.actions

pub data Moved (w w' : Watch) : Type 0 where
  kept : w.now ≤ w'.now → Kept w w' → Moved w w'
  sat_down : w.now ≤ w'.now → SatDown w w' → Moved w w'
  stood_up : w.now ≤ w'.now → StoodUp w w' → Moved w w'

begin_study-Moved : (e : Round) (w : Watch) → IsFlag w → IfOk (Moved w) (begin_study e w)
unfolding begin_study send_sigusr1_and_fifo
begin_study-Moved e w (inl i) =
    let idle : (w.is_studying == 0) ≡ true = ground arith in
    elim (Bool-cases e.opens) [
      | inr o ↦ rw (idle, begin_study) (rw o tt)
      | inl o ↦ elim (Bool-cases e.forks) [
        | inr f ↦ rw (idle, begin_study) (rw o (rw f tt))
        | inl f ↦
            rw (idle, begin_study)
              (rw o (
                rw f (
                  sat_down (omega arith) (record {
                    was_away = i;
                    is_here = refl;
                    total_sec_same = refl;
                    starts_now = refl;
                    actions_on = refl;
                  }))))
      ]
    ]
begin_study-Moved e w (inr i) =
    let busy : (w.is_studying == 0) ≡ false = ground arith in
    rw (busy, begin_study)
      (kept (omega arith) (record {
        is_studying_same = sym i;
        total_sec_same = refl;
        tv_start_same = refl;
        actions_same = refl;
      }))

end_study-Moved : (e : Round) (w : Watch) → IsFlag w → IfOk (Moved w) (end_study e w)
unfolding end_study send_sigusr1_and_fifo add_seconds
end_study-Moved e w (inl i) =
    let idle : (w.is_studying == 1) ≡ false = ground arith in
    rw (idle, end_study)
      (kept (omega arith) (record {
        is_studying_same = sym i;
        total_sec_same = refl;
        tv_start_same = refl;
        actions_same = refl;
      }))
end_study-Moved e w (inr i) =
    let busy : (w.is_studying == 1) ≡ true = ground arith in
    elim (Bool-cases e.opens) [
      | inr o ↦ rw (busy, end_study) (rw o tt)
      | inl o ↦ elim (Bool-cases (ltb (w.total_sec + (w.now - w.tv_start)) (2 ^ 31))) [
        | inr f ↦ rw (busy, end_study) (rw o (rw f tt))
        | inl f ↦
            rw (busy, end_study)
              (rw o (
                rw f (
                  stood_up (omega arith) (record {
                    was_here = i;
                    is_away = refl;
                    total_sec_more = refl;
                    tv_start_same = refl;
                    actions_off = refl;
                  }))))
      ]
    ]

-- The window and its count are of no account.
Moved-cnt : (w w' : Watch) → Moved w w' → Moved w (record w' { cnt = 0 })
Moved-cnt w w' (kept h k) = kept h (record {
  is_studying_same = k.is_studying_same;
  total_sec_same = k.total_sec_same;
  tv_start_same = k.tv_start_same;
  actions_same = k.actions_same;
})
Moved-cnt w w' (sat_down h k) = sat_down h (record {
  was_away = k.was_away;
  is_here = k.is_here;
  total_sec_same = k.total_sec_same;
  starts_now = k.starts_now;
  actions_on = k.actions_on;
})
Moved-cnt w w' (stood_up h k) = stood_up h (record {
  was_here = k.was_here;
  is_away = k.is_away;
  total_sec_more = k.total_sec_more;
  tv_start_same = k.tv_start_same;
  actions_off = k.actions_off;
})

-- So is the clock before, if it has gone on since.
Moved-tick :
    (d : ℕ) (a : List ℕ) (w w' : Watch)
    → Moved (record (tick d w) { studying_arr = a }) w'
    → Moved w w'
Moved-tick d a w w' (kept h k) = kept (omega arith) (record {
  is_studying_same = k.is_studying_same;
  total_sec_same = k.total_sec_same;
  tv_start_same = k.tv_start_same;
  actions_same = k.actions_same;
})
Moved-tick d a w w' (sat_down h k) = sat_down (omega arith) (record {
  was_away = k.was_away;
  is_here = k.is_here;
  total_sec_same = k.total_sec_same;
  starts_now = k.starts_now;
  actions_on = k.actions_on;
})
Moved-tick d a w w' (stood_up h k) = stood_up (omega arith) (record {
  was_here = k.was_here;
  is_away = k.is_away;
  total_sec_more = k.total_sec_more;
  tv_start_same = k.tv_start_same;
  actions_off = k.actions_off;
})

decide-Moved : (e : Round) (w : Watch) → IsFlag w → IfOk (Moved w) (decide e w)
unfolding decide
decide-Moved e w flag =
    IfOk-then (λ _. Unit {0}) (Moved w) (sum_first studying_num w.studying_arr) _
      (IfOk-any (sum_first studying_num w.studying_arr))
      (λ n _.
        IfOk-then (Moved w) (Moved w) (if leb 5 n then begin_study e w else end_study e w) _
          (either n) (λ w' m. Moved-cnt w w' m))
  where
    either : (n : ℕ) → IfOk (Moved w) (if leb 5 n then begin_study e w else end_study e w)
    either n = elim (Bool-cases (leb 5 n)) [
      | inl m ↦ rw m (begin_study-Moved e w flag)
      | inr m ↦ rw m (end_study-Moved e w flag)
    ]

-- A measurement that comes to its end.
pub measure-Moved : (e : Round) (w : Watch) → IsFlag w → IfOk (Moved w) (measure e w)
unfolding measure
measure-Moved e w flag =
    IfOk-then (λ _. Unit {0}) (Moved w) (set_elem w.studying_arr w.cnt (mark e.travel_time)) _
      (IfOk-any (set_elem w.studying_arr w.cnt (mark e.travel_time))) (λ a _. written a)
  where
    w1 : List ℕ → Watch
    w1 a = record (tick e.elapsed w) { studying_arr = a }

    written :
        (a : List ℕ)
        → IfOk (Moved w) (elim (leb studying_num w.cnt) [
          | true ↦ decide e (w1 a)
          | false ↦ ok (record (w1 a) { cnt = w.cnt + 1 })
        ])
    written a = elim (Bool-cases (leb studying_num w.cnt)) [
      | inl f ↦ rw f (
          IfOk-imp (Moved (w1 a)) (Moved w) (decide e (w1 a)) (decide-Moved e (w1 a) flag)
            (λ w' m. Moved-tick e.elapsed a w w' m))
      | inr f ↦ rw f (
          kept (omega arith) (record {
            is_studying_same = refl;
            total_sec_same = refl;
            tv_start_same = refl;
            actions_same = refl;
          }))
    ]

-- A signal that the handler has served.
pub sigusr1_handler-Told :
    (d : ℕ) (opens : Bool) (w : Watch)
    → IfOk (λ w'. (w'.now ≡ w.now + d) × Told w w') (sigusr1_handler d opens w)
unfolding sigusr1_handler add_seconds
sigusr1_handler-Told d false w = tt
sigusr1_handler-Told d true w =
    elim (Bool-cases (ltb (w.total_sec + (w.now + d - w.tv_start)) (2 ^ 31))) [
      | inr f ↦ rw f tt
      | inl f ↦ rw f (
        refl,
        record {
          is_studying_same = refl;
          total_sec_more = refl;
          starts_now = refl;
          actions_told = refl;
        },
      )
    ]
