-- ===== src/Ultrasonic/Order.antt =====
-- In which order the light and the study system are switched.
use embedded_pg.Base.{ℕ, ◌+◌, ◌/◌, ◌≡◌, refl, sym, ◌∙◌, subst, inl, inr, List, [], ◌∷◌}
use embedded_pg.Base.Outcome.{ok, IfOk-ok}
use embedded_pg.Ultrasonic.{
  Action, light_on, light_off, start_child, kill_child, report, Watch, initial, Event, measured,
  signalled, measure, sigusr1_handler, step, Reach, here, next,
}
use embedded_pg.Ultrasonic.Moves.{
  IsFlag, Kept, SatDown, StoodUp, Told, Moved, kept, sat_down, stood_up, measure-Moved,
  sigusr1_handler-Told,
}

-- The latest action first: the light goes on and the study system starts only while both are off,
-- and they end only while both are on; minutes may be told at any time. The number is 1 while on.
unfoldable pub IsOrderly : ℕ → List Action → Type 0
IsOrderly s [] = s ≡ 0
IsOrderly s (report t m ∷ l) = IsOrderly s l
IsOrderly s (start_child t ∷ light_on ∷ l) = (s ≡ 1) × IsOrderly 0 l
IsOrderly s (kill_child t ∷ light_off ∷ l) = (s ≡ 0) × IsOrderly 1 l
IsOrderly s _ = ⊥

IsOrderly-eq : (s s' : ℕ) (l l' : List Action) → s' ≡ s → l' ≡ l → IsOrderly s l → IsOrderly s' l'
IsOrderly-eq s s' l l' p q h = subst (λ x. IsOrderly x l') (sym p) (subst (IsOrderly s) (sym q) h)

abbrev InOrder : Watch → Type 0
InOrder w = IsFlag w × IsOrderly w.is_studying w.actions

module _ (w w' : Watch) (h : InOrder w) where
  Kept-InOrder : Kept w w' → InOrder w'
  Kept-InOrder k = (
    elim h.0 [ inl i ↦ inl (k.is_studying_same ∙ i) | inr i ↦ inr (k.is_studying_same ∙ i) ],
    IsOrderly-eq w.is_studying w'.is_studying w.actions w'.actions k.is_studying_same k.actions_same
        h.1,
  )

  SatDown-InOrder : SatDown w w' → InOrder w'
  unfolding IsOrderly
  SatDown-InOrder k = (
    inr k.is_here,
    IsOrderly-eq 1 w'.is_studying (start_child w'.now ∷ light_on ∷ w.actions) w'.actions k.is_here
        k.actions_on
        (refl, IsOrderly-eq w.is_studying 0 w.actions w.actions (sym k.was_away) refl h.1),
  )

  StoodUp-InOrder : StoodUp w w' → InOrder w'
  unfolding IsOrderly
  StoodUp-InOrder k = (
    inl k.is_away,
    IsOrderly-eq 0 w'.is_studying (kill_child w'.now ∷ light_off ∷ w.actions) w'.actions k.is_away
        k.actions_off
        (refl, IsOrderly-eq w.is_studying 1 w.actions w.actions (sym k.was_here) refl h.1),
  )

  Told-InOrder : Told w w' → InOrder w'
  unfolding IsOrderly
  Told-InOrder k = (
    elim h.0 [ inl i ↦ inl (k.is_studying_same ∙ i) | inr i ↦ inr (k.is_studying_same ∙ i) ],
    IsOrderly-eq w.is_studying w'.is_studying (report w'.now (w'.total_sec / 60) ∷ w.actions)
        w'.actions k.is_studying_same k.actions_told h.1,
  )

  Moved-InOrder : Moved w w' → InOrder w'
  Moved-InOrder (kept n k) = Kept-InOrder k
  Moved-InOrder (sat_down n k) = SatDown-InOrder k
  Moved-InOrder (stood_up n k) = StoodUp-InOrder k

step-InOrder : (e : Event) (w w' : Watch) → InOrder w → step e w ≡ ok w' → InOrder w'
step-InOrder (measured r) w w' h e =
    Moved-InOrder w w' h (IfOk-ok (Moved w) (measure r w) w' (measure-Moved r w h.0) e)
step-InOrder (signalled d opens) w w' h e =
    Told-InOrder w w' h
      (IfOk-ok (λ x. (x.now ≡ w.now + d) × Told w x) (sigusr1_handler d opens w) w'
        (sigusr1_handler-Told d opens w) e).1

Reach-InOrder :
    (allowed : Event → Watch → Type 0) (behind : List ℕ) (now : ℕ) (w : Watch)
    → Reach allowed (initial behind now) w
    → InOrder w
unfolding IsOrderly
Reach-InOrder allowed behind now w here = (inl refl, refl)
Reach-InOrder allowed behind now w (next e r a h) =
    step-InOrder e _ w (Reach-InOrder allowed behind now _ r) h

-- Whatever is measured and whenever signals come, the light and the study system are switched in
-- turns: on and started, then off and ended, and `is_studying` is 1 exactly while they are on.
pub Reach-IsOrderly :
    (allowed : Event → Watch → Type 0) (behind : List ℕ) (now : ℕ) (w : Watch)
    → Reach allowed (initial behind now) w
    → IsOrderly w.is_studying w.actions
Reach-IsOrderly allowed behind now w r = (Reach-InOrder allowed behind now w r).1
