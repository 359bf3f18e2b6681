-- ===== src/Ultrasonic/Window.antt =====
-- The window: eleven measurements are written into an array of ten.
use embedded_pg.Base.{
  ℕ, ◌+◌, ◌≤◌, ◌<◌, ◌≡◌, refl, sym, ap, ◌∙◌, true, false, List, [], ◌∷◌, ◌++◌, map, append-nil,
  append_assoc, length, length-append, replicate, leb, arith,
}
use embedded_pg.Base.Arrays.{set_elem, set_elem-append, set_elem-outside}
use embedded_pg.Base.Outcome.{Outcome, ok, fault, ◌>>=◌}
use embedded_pg.Ultrasonic.{studying_num, Watch, initial, Round, mark, tick, decide, measure}

-- The rounds of the `while`, one after another.
unfoldable pub measures : List Round → Watch → Outcome Watch
measures [] w = ok w
measures (e ∷ es) w = do w' ← measure e w; measures es w'

-- Some rounds go by, and the window is not full yet.
abbrev pub marks : List Round → List ℕ
marks = map (λ e. mark e.travel_time)

abbrev pub seconds : List Round → ℕ
seconds [] = 0
seconds (e ∷ es) = e.elapsed + seconds es

module _ (e : Round) (w : Watch) (pre : List ℕ) (x : ℕ) (post : List ℕ)
    (arr : w.studying_arr ≡ pre ++ x ∷ post) (cnt : w.cnt ≡ length pre) where
  pub written :
      set_elem w.studying_arr w.cnt (mark e.travel_time) ≡ ok (pre ++ mark e.travel_time ∷ post)
  written = rw (arr) (rw (cnt) (set_elem-append pre x (mark e.travel_time) post))

  measure-fill :
      length pre < studying_num
      → measure e w
        ≡ ok (record (tick e.elapsed w) {
          studying_arr = pre ++ mark e.travel_time ∷ post;
          cnt = w.cnt + 1;
        })
  unfolding measure
  measure-fill h =
      let not_full : leb studying_num w.cnt ≡ false = ground arith in rw written (rw not_full refl)

  pub measure-decide :
      studying_num ≤ length pre
      → measure e w
        ≡ decide e (record (tick e.elapsed w) { studying_arr = pre ++ mark e.travel_time ∷ post })
  unfolding measure
  measure-decide h =
      let full : leb studying_num w.cnt ≡ true = ground arith in rw written (rw full refl)

measure-outside : (e : Round) (w : Watch) → w.cnt ≡ length w.studying_arr → measure e w ≡ fault
unfolding measure
measure-outside e w h =
    let out : set_elem w.studying_arr w.cnt (mark e.travel_time) ≡ fault =
      ap (λ i. set_elem w.studying_arr i (mark e.travel_time)) h
      ∙ set_elem-outside w.studying_arr (mark e.travel_time) in
    rw out refl

cnt-append : (pre : List ℕ) (m c : ℕ) → c ≡ length pre → c + 1 ≡ length (pre ++ m ∷ [])
cnt-append pre m c h = omega (arith, length-append pre (m ∷ []))

-- A state with other marks, and at another time.
abbrev pub with_marks : Watch → List ℕ → ℕ → ℕ → Watch
with_marks w a c t = record w { studying_arr = a; cnt = c; now = t }

with_marks-eq :
    (w : Watch) {a a' : List ℕ} {c c' t t' : ℕ}
    → a ≡ a'
    → c ≡ c'
    → t ≡ t'
    → ok (with_marks w a c t) ≡ ok (with_marks w a' c' t')
with_marks-eq w p q r = λ i. ok (with_marks w (p i) (q i) (r i))

-- Rounds that do not fill the window write their marks and do nothing else.
pub measures-fill :
    (es : List Round) (w : Watch) (pre gone post : List ℕ)
    → w.studying_arr ≡ pre ++ (gone ++ post)
    → w.cnt ≡ length pre
    → length gone ≡ length es
    → length pre + length es ≤ studying_num
    → measures es w
      ≡ ok (with_marks w (pre ++ (marks es ++ post)) (length pre + length es) (w.now + seconds es))
unfolding measures
measures-fill [] w pre [] post arr cnt h k = with_marks-eq w arr (omega arith) (omega arith)
measures-fill [] w pre (x ∷ gone) post arr cnt h k = absurd (omega arith)
measures-fill (e ∷ es) w pre [] post arr cnt h k = absurd (omega arith)
measures-fill (e ∷ es) w pre (x ∷ gone) post arr cnt h k =
    let w1 : Watch = record (tick e.elapsed w) {
      studying_arr = pre ++ mark e.travel_time ∷ (gone ++ post);
      cnt = w.cnt + 1;
    } in
    let first : measure e w ≡ ok w1 = measure-fill e w pre x (gone ++ post) arr cnt (omega arith) in
    let rest =
      measures-fill es w1 (pre ++ mark e.travel_time ∷ []) gone post
        (sym (append_assoc pre (mark e.travel_time ∷ []) (gone ++ post)))
        (cnt-append pre (mark e.travel_time) w.cnt cnt) (omega arith)
        (omega (arith, length-append pre (mark e.travel_time ∷ []))) in
    rw first (
      rest
      ∙ with_marks-eq w (append_assoc pre (mark e.travel_time ∷ []) (marks es ++ post))
          (omega (arith, length-append pre (mark e.travel_time ∷ []))) (omega arith))

-- Where the array has no slot behind it, one more round than it has slots writes outside it.
measures-outside :
    (es : List Round) (w : Watch) (pre gone : List ℕ)
    → w.studying_arr ≡ pre ++ gone
    → w.cnt ≡ length pre
    → length (pre ++ gone) ≡ studying_num
    → length gone < length es
    → measures es w ≡ fault
unfolding measures
measures-outside [] w pre gone arr cnt n h = absurd (omega arith)
measures-outside (e ∷ es) w pre [] arr cnt n h =
    let at_end : w.cnt ≡ length w.studying_arr =
      cnt ∙ ap length (sym (append-nil pre)) ∙ ap length (sym arr) in
    rw (measure-outside e w at_end) refl
measures-outside (e ∷ es) w pre (x ∷ gone) arr cnt n h =
    let w1 : Watch = record (tick e.elapsed w) {
      studying_arr = pre ++ mark e.travel_time ∷ gone;
      cnt = w.cnt + 1;
    } in
    let first : measure e w ≡ ok w1 =
      measure-fill e w pre x gone arr cnt (omega (arith, length-append pre (x ∷ gone))) in
    rw first (
      measures-outside es w1 (pre ++ mark e.travel_time ∷ []) gone
        (sym (append_assoc pre (mark e.travel_time ∷ []) gone))
        (cnt-append pre (mark e.travel_time) w.cnt cnt)
        (omega (
          arith,
          length-append (pre ++ mark e.travel_time ∷ []) gone,
          length-append pre (mark e.travel_time ∷ []),
          length-append pre (x ∷ gone),
        ))
        (omega arith))

-- Where no slot behind the array can be written, eleven measurements always write outside it.
pub measures-overrun :
    (es : List Round) (now : ℕ) → studying_num < length es → measures es (initial [] now) ≡ fault
measures-overrun es now h =
    measures-outside es (initial [] now) [] (replicate studying_num 0) (append-nil _) refl refl h
