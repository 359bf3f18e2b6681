-- ===== src/Ultrasonic/Clock.antt =====
-- How much of the time that the process counts has been studied.
use embedded_pg.Base.{
  ℕ, ◌+◌, ◌-◌, ◌/◌, ◌^◌, ◌≤◌, ◌<◌, ◌≡◌, refl, sym, ap, ◌∙◌, subst, inl, inr, true, List, [], ◌∷◌,
  ltb, arith,
}
use embedded_pg.Base.Outcome.{ok, IfOk-ok}
use embedded_pg.Ultrasonic.{
  Action, light_on, light_off, start_child, kill_child, report, Watch, initial, Event, measured,
  signalled, measure, sigusr1_handler, step, Reach, here, next, add_seconds,
}
use embedded_pg.Ultrasonic.Moves.{
  IsFlag, Kept, SatDown, StoodUp, Told, Moved, kept, sat_down, stood_up, measure-Moved,
  sigusr1_handler-Told,
}

-- The seconds up to the time `t` in which the study system was running, by the actions, the latest
-- first.
unfoldable pub studied : ℕ → List Action → ℕ
studied t [] = 0
studied t (start_child s ∷ l) = t - s + studied s l
studied t (kill_child s ∷ l) = studied s l
studied t (light_on ∷ l) = studied t l
studied t (light_off ∷ l) = studied t l
studied t (report s m ∷ l) = studied t l

-- Each report told the whole minutes that had been studied.
unfoldable pub AreRight : List Action → Type 0
AreRight [] = Unit
AreRight (report t m ∷ l) = (m ≡ studied t l / 60) × AreRight l
AreRight (start_child s ∷ l) = AreRight l
AreRight (kill_child s ∷ l) = AreRight l
AreRight (light_on ∷ l) = AreRight l
AreRight (light_off ∷ l) = AreRight l

-- When the last study began or minutes were last told, whichever was later; 0 if neither has been.
unfoldable pub last_mark : List Action → ℕ
last_mark [] = 0
last_mark (start_child s ∷ l) = s
last_mark (report s m ∷ l) = s
last_mark (kill_child s ∷ l) = last_mark l
last_mark (light_on ∷ l) = last_mark l
last_mark (light_off ∷ l) = last_mark l

-- Signals come only while somebody studies.
abbrev pub WhileStudying : Event → Watch → Type 0
WhileStudying (measured r) w = Unit
WhileStudying (signalled d opens) w = w.is_studying ≡ 1

-- The count is what has been studied, less what the present study will add.
pub record IsExact (w : Watch) : Type 0 where
  pub flag : IsFlag w
  pub started : w.tv_start ≤ w.now
  pub marked : w.tv_start ≡ last_mark w.actions
  pub while_away : w.is_studying ≡ 0 → (t : ℕ) → studied t w.actions ≡ w.total_sec
  pub while_here :
      w.is_studying ≡ 1
      → (d : ℕ) → studied (w.now + d) w.actions ≡ w.total_sec + (w.now - w.tv_start) + d
  pub told_right : AreRight w.actions

module _ (w w' : Watch) (x : IsExact w) where
  Kept-IsExact : w.now ≤ w'.now → Kept w w' → IsExact w'
  Kept-IsExact n k = record {
    flag = elim x.flag [
      | inl i ↦ inl (k.is_studying_same ∙ i)
      | inr i ↦ inr (k.is_studying_same ∙ i)
    ];
    started = omega (arith, x.started, k.tv_start_same);
    marked = k.tv_start_same ∙ x.marked ∙ sym (ap last_mark k.actions_same);
    while_away = λ i t.
        ap (studied t) k.actions_same
        ∙ x.while_away (sym k.is_studying_same ∙ i) t
        ∙ sym k.total_sec_same;
    while_here = λ i d.
        ap (studied (w'.now + d)) k.actions_same
        ∙ ap (λ t. studied t w.actions) (omega arith)
        ∙ x.while_here (sym k.is_studying_same ∙ i) (w'.now - w.now + d)
        ∙ omega (arith, x.started, k.tv_start_same, k.total_sec_same);
    told_right = subst AreRight (sym k.actions_same) x.told_right;
  }

  SatDown-IsExact : w.now ≤ w'.now → SatDown w w' → IsExact w'
  unfolding studied AreRight last_mark
  SatDown-IsExact n k = record {
    flag = inr k.is_here;
    started = omega (arith, k.starts_now);
    marked = k.starts_now ∙ sym (ap last_mark k.actions_on);
    while_away = λ i t. absurd (omega (arith, i, k.is_here));
    while_here = λ i d.
        ap (studied (w'.now + d)) k.actions_on
        ∙ omega (arith, x.while_away k.was_away w'.now, k.total_sec_same, k.starts_now);
    told_right = subst AreRight (sym k.actions_on) x.told_right;
  }

  StoodUp-IsExact : w.now ≤ w'.now → StoodUp w w' → IsExact w'
  unfolding studied AreRight last_mark
  StoodUp-IsExact n k = record {
    flag = inl k.is_away;
    started = omega (arith, k.tv_start_same, x.started);
    marked = k.tv_start_same ∙ x.marked ∙ sym (ap last_mark k.actions_off);
    while_away = λ i t.
        ap (studied t) k.actions_off
        ∙ ap (λ s. studied s w.actions) (omega arith)
        ∙ x.while_here k.was_here (w'.now - w.now)
        ∙ omega (arith, x.started, k.total_sec_more);
    while_here = λ i d. absurd (omega (arith, i, k.is_away));
    told_right = subst AreRight (sym k.actions_off) x.told_right;
  }

  Told-IsExact : (d : ℕ) → w.is_studying ≡ 1 → w'.now ≡ w.now + d → Told w w' → IsExact w'
  unfolding studied AreRight last_mark
  Told-IsExact d on n k = record {
    flag = inr (k.is_studying_same ∙ on);
    started = omega (arith, k.starts_now);
    marked = k.starts_now ∙ sym (ap last_mark k.actions_told);
    while_away = λ i t. absurd (omega (arith, i, k.is_studying_same));
    while_here = λ i d'.
        ap (studied (w'.now + d')) k.actions_told
        ∙ ap (λ s. studied s w.actions) (omega arith)
        ∙ x.while_here on (d + d')
        ∙ omega (arith, x.started, k.total_sec_more, k.starts_now);
    told_right = subst AreRight (sym k.actions_told) (ap (λ s. s / 60) total, x.told_right);
  }
    where
      total : w'.total_sec ≡ studied w'.now w.actions
      total =
          k.total_sec_more
          ∙ sym (ap (λ s. studied s w.actions) n ∙ x.while_here on d ∙ omega (arith, x.started, n))

  Moved-IsExact : Moved w w' → IsExact w'
  Moved-IsExact (kept n k) = Kept-IsExact n k
  Moved-IsExact (sat_down n k) = SatDown-IsExact n k
  Moved-IsExact (stood_up n k) = StoodUp-IsExact n k

step-IsExact :
    (e : Event) (w w' : Watch) → IsExact w → WhileStudying e w → step e w ≡ ok w' → IsExact w'
step-IsExact (measured r) w w' x a h =
    Moved-IsExact w w' x (IfOk-ok (Moved w) (measure r w) w' (measure-Moved r w x.flag) h)
step-IsExact (signalled d opens) w w' x a h =
    let told =
      IfOk-ok (λ y. (y.now ≡ w.now + d) × Told w y) (sigusr1_handler d opens w) w'
        (sigusr1_handler-Told d opens w) h in
    Told-IsExact w w' x d a told.0 told.1

initial-IsExact : (behind : List ℕ) (now : ℕ) → IsExact (initial behind now)
unfolding studied AreRight last_mark
initial-IsExact behind now = record {
  flag = inl refl;
  started = omega arith;
  marked = refl;
  while_away = λ i t. refl;
  while_here = λ i d. cc;
  told_right = tt;
}

pub Reach-IsExact :
    (behind : List ℕ) (now : ℕ) (w : Watch) → Reach WhileStudying (initial behind now) w → IsExact w
Reach-IsExact behind now w here = initial-IsExact behind now
Reach-IsExact behind now w (next e r a h) = step-IsExact e _ w (Reach-IsExact behind now _ r) a h

-- If signals come only while somebody studies, each report tells the whole minutes in which the
-- study system was running until then.
pub Reach-AreRight :
    (behind : List ℕ) (now : ℕ) (w : Watch)
    → Reach WhileStudying (initial behind now) w
    → AreRight w.actions
Reach-AreRight behind now w r = (Reach-IsExact behind now w r).told_right

-- If all signals before came only while somebody studied and the count stays below 2^31, a signal
-- that comes while nobody studies, with a pipe that can be opened, makes the count too large: by the time since the last study began
-- or minutes were last told, whichever was later, or by all the time of the clock if neither was.
pub signal-overcounts :
    (behind : List ℕ) (now : ℕ) (w : Watch) (d : ℕ)
    → Reach WhileStudying (initial behind now) w
    → w.is_studying ≡ 0
    → w.total_sec + (w.now + d - w.tv_start) < 2 ^ 31
    → (w' : Watch) × (sigusr1_handler d true w ≡ ok w')
      × (w'.total_sec ≡ studied w'.now w'.actions + (w.now + d - last_mark w.actions))
unfolding sigusr1_handler add_seconds studied
signal-overcounts behind now w d r away fits =
    let x = Reach-IsExact behind now w r in
    let below : ltb (w.total_sec + (w.now + d - w.tv_start)) (2 ^ 31) ≡ true = ground arith in
    let total : ℕ = w.total_sec + (w.now + d - w.tv_start) in
    let told : Watch = record w {
      now = w.now + d;
      total_sec = total;
      tv_start = w.now + d;
      actions = report (w.now + d) (total / 60) ∷ w.actions;
    } in
    (told, rw below refl, omega (arith, x.while_away away (w.now + d)))
