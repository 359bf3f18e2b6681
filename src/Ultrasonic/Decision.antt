-- ===== src/Ultrasonic/Decision.antt =====
-- What eleven measurements decide.
use embedded_pg.Base.{
  ℕ, zero, suc, ◌+◌, ◌-◌, ◌<◌, ◌≡◌, refl, sym, ap, ◌∙◌, ◌^◌, ◌⊎◌, inl, inr, Bool, true, false, List,
  [], ◌∷◌, ◌++◌, length, length-append, ltb, leb, ◌==◌, if◌then◌else◌, arith, Bool-cases,
}
use embedded_pg.Base.Outcome.{ok, ◌>>=◌, then_assoc, then_ext}
use embedded_pg.Ultrasonic.{
  light_on, light_off, start_child, kill_child, Action, begin_study, end_study, add_seconds,
  send_sigusr1_and_fifo, studying_num, Watch, Round, mark, tick, decide, measure, sum_first,
}
use embedded_pg.Ultrasonic.Window.{
  measures, marks, seconds, measure-decide, with_marks, measures-fill,
}

-- How many of the echoes came from nearer than 80 centimetres, at 58 microseconds to the centimetre.
unfoldable pub near : List Round → ℕ
near [] = 0
near (e ∷ es) = (if ltb e.travel_time 4640 then 1 else 0) + near es

mark-near : (t : ℕ) → mark t ≡ (if ltb t 4640 then 1 else 0)
mark-near t = ground arith

sum_first-marks :
    (es : List Round) (post : List ℕ) → sum_first (length es) (marks es ++ post) ≡ ok (near es)
unfolding sum_first near
sum_first-marks [] post = refl
sum_first-marks (e ∷ es) post =
    rw (sum_first-marks es post) (ap (λ m. ok (m + near es)) (mark-near e.travel_time))

-- What is done when somebody sits down or stands up.
abbrev pub announced : ℕ → Bool → ℕ → List Action → List Action
announced zero true t l = start_child t ∷ light_on ∷ l
announced (suc n) false t l = kill_child t ∷ light_off ∷ l
announced zero false t l = l
announced (suc n) true t l = l

-- Half of the window is near.
abbrev pub most : ℕ → Bool
most n = leb 5 n

module _ (e : Round) (w : Watch) where
  begin_study-idle :
      w.is_studying ≡ 0
      → e.opens ≡ true
      → e.forks ≡ true
      → begin_study e w
        ≡ ok (record w {
          is_studying = 1;
          tv_start = w.now;
          actions = start_child w.now ∷ light_on ∷ w.actions;
        })
  unfolding begin_study send_sigusr1_and_fifo
  begin_study-idle i o f =
      let idle : (w.is_studying == 0) ≡ true = ground arith in
      rw (idle, begin_study) (rw o (rw f refl))

  begin_study-busy : w.is_studying ≡ 1 → begin_study e w ≡ ok (record w { is_studying = 1 })
  unfolding begin_study
  begin_study-busy i =
      let busy : (w.is_studying == 0) ≡ false = ground arith in rw (busy, begin_study) refl

  end_study-busy :
      w.is_studying ≡ 1
      → e.opens ≡ true
      → w.total_sec + (w.now - w.tv_start) < 2 ^ 31
      → end_study e w
        ≡ ok (record w {
          is_studying = 0;
          total_sec = w.total_sec + (w.now - w.tv_start);
          actions = kill_child w.now ∷ light_off ∷ w.actions;
        })
  unfolding end_study send_sigusr1_and_fifo add_seconds
  end_study-busy i o f =
      let busy : (w.is_studying == 1) ≡ true = ground arith in
      let fits : ltb (w.total_sec + (w.now - w.tv_start)) (2 ^ 31) ≡ true = ground arith in
      rw (busy, end_study) (rw o (rw fits refl))

  end_study-idle : w.is_studying ≡ 0 → end_study e w ≡ ok (record w { is_studying = 0 })
  unfolding end_study
  end_study-idle i =
      let idle : (w.is_studying == 1) ≡ false = ground arith in rw (idle, end_study) refl

  module _ (n : ℕ) (s : sum_first studying_num w.studying_arr ≡ ok n) where
    decide-most :
        (w' : Watch)
        → most n ≡ true
        → begin_study e w ≡ ok w'
        → decide e w ≡ ok (record w' { cnt = 0 })
    unfolding decide
    decide-most w' m b = rw s (rw m (rw b refl))

    decide-few :
        (w' : Watch)
        → most n ≡ false
        → end_study e w ≡ ok w'
        → decide e w ≡ ok (record w' { cnt = 0 })
    unfolding decide
    decide-few w' m b = rw s (rw m (rw b refl))

decide-eq :
    (e : Round) (w : Watch) (n : ℕ)
    → sum_first studying_num w.studying_arr ≡ ok n
    → (w.is_studying ≡ 0) ⊎ (w.is_studying ≡ 1)
    → e.opens ≡ true
    → e.forks ≡ true
    → w.total_sec + (w.now - w.tv_start) < 2 ^ 31
    → (w' : Watch) × (decide e w ≡ ok w')
      × (w'.cnt ≡ 0)
      × (w'.studying_arr ≡ w.studying_arr)
      × (w'.is_studying ≡ (if most n then 1 else 0))
      × (w'.actions ≡ announced w.is_studying (most n) w.now w.actions)
decide-eq e w n s (inl i) opens forks fits = elim (Bool-cases (most n)) [
  | inl m ↦ (
    _,
    decide-most e w n s _ m (begin_study-idle e w i opens forks),
    refl,
    refl,
    rw m refl,
    rw (i, m) refl,
  )
  | inr m ↦
      (_, decide-few e w n s _ m (end_study-idle e w i), refl, refl, rw m refl, rw (i, m) refl)
]
decide-eq e w n s (inr i) opens forks fits = elim (Bool-cases (most n)) [
  | inl m ↦
      (_, decide-most e w n s _ m (begin_study-busy e w i), refl, refl, rw m refl, rw (i, m) refl)
  | inr m ↦ (
    _,
    decide-few e w n s _ m (end_study-busy e w i opens fits),
    refl,
    refl,
    rw m refl,
    rw (i, m) refl,
  )
]

measures-append :
    (es fs : List Round) (w : Watch)
    → measures (es ++ fs) w ≡ (measures es w >>= λ x. measures fs x)
unfolding measures
measures-append [] fs w = refl
measures-append (e ∷ es) fs w =
    then_ext (measure e w) (λ x. measures (es ++ fs) x) (λ x. measures es x >>= λ y. measures fs y)
      (λ x. measures-append es fs x)
    ∙ sym (then_assoc (measure e w) (λ x. measures es x) (λ y. measures fs y))

length-marks : (es : List Round) → length (marks es) ≡ length es
length-marks [] = refl
length-marks (e ∷ es) = ap suc (length-marks es)

same_length :
    (es : List Round) (y x : ℕ) (post gone : List ℕ)
    → length es ≡ length gone
    → length (marks es ++ y ∷ post) ≡ length (gone ++ x ∷ post)
same_length es y x post gone h =
    omega
      (arith, length-append (marks es) (y ∷ post), length-append gone (x ∷ post), length-marks es)

one_measure : (e : Round) (w w' : Watch) → measure e w ≡ ok w' → measures (e ∷ []) w ≡ ok w'
unfolding measures
one_measure e w w' h = rw h refl

-- Where a slot behind the array can be written without harm: with the window empty, `is_studying` 0 or
-- 1, the pipe and the process to be had at the last measurement, and the seconds counted so far together with those from `tv_start` to the last
-- measurement below 2^31, eleven measurements come to their end with the window empty again, and the
-- program takes it that somebody studies if at least five of the first ten echoes came from nearer
-- than 80 centimetres. It starts the study system and switches the light on if it did not take it
-- so before, ends it and switches the light off if it no longer does, and otherwise does nothing.
pub measures-decide :
    (es : List Round) (e : Round) (w : Watch) (gone : List ℕ) (x : ℕ) (post : List ℕ)
    → w.studying_arr ≡ gone ++ x ∷ post
    → length gone ≡ studying_num
    → length es ≡ studying_num
    → w.cnt ≡ 0
    → (w.is_studying ≡ 0) ⊎ (w.is_studying ≡ 1)
    → e.opens ≡ true
    → e.forks ≡ true
    → w.total_sec + (w.now + seconds es + e.elapsed - w.tv_start) < 2 ^ 31
    → (w' : Watch) × (measures (es ++ e ∷ []) w ≡ ok w')
      × (w'.cnt ≡ 0)
      × (length w'.studying_arr ≡ length w.studying_arr)
      × (w'.is_studying ≡ (if leb 5 (near es) then 1 else 0))
      × (w'.actions
          ≡ announced w.is_studying (leb 5 (near es)) (w.now + seconds es + e.elapsed) w.actions)
measures-decide es e w gone x post arr n m cnt either opens forks fits =
    let t : ℕ = w.now + seconds es in
    let k : ℕ = length {A = ℕ} [] + length es in
    let w1 : Watch = with_marks w (marks es ++ x ∷ post) k t in
    let filled : measures es w ≡ ok w1 =
      measures-fill es w [] gone (x ∷ post) arr cnt (omega arith) (omega arith) in
    let after_marks : k ≡ length (marks es) = omega (arith, length-marks es) in
    let w2 : Watch = record (tick e.elapsed w1) {
      studying_arr = marks es ++ mark e.travel_time ∷ post;
    } in
    let last : measure e w1 ≡ decide e w2 =
      measure-decide e w1 (marks es) x post refl after_marks (omega (arith, length-marks es)) in
    let sum : sum_first studying_num w2.studying_arr ≡ ok (near es) =
      ap (λ c. sum_first c w2.studying_arr) (sym m)
      ∙ sum_first-marks es (mark e.travel_time ∷ post) in
    let (w3, d, c, a, i, acts) = decide-eq e w2 (near es) sum either opens forks fits in
    (
      w3,
      measures-append es (e ∷ []) w ∙ rw filled (one_measure e w1 w3 (last ∙ d)),
      c,
      ap length a
          ∙ same_length es (mark e.travel_time) x post gone (m ∙ sym n)
          ∙ ap length (sym arr),
      i,
      acts,
    )
