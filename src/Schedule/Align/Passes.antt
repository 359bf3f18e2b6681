-- ===== src/Schedule/Align/Passes.antt =====
-- Each loop of `re_align` is an exchange sort: the first by date, the second, on an array that is
-- ascending by date, by date and time.
use embedded_pg.Base.{
  ℕ, zero, suc, ◌≡◌, refl, sym, ap, ◌∙◌, Bool, true, false, List, [], ◌∷◌, ◌++◌, arith, length, All,
  All-imp, ◌⊎◌, if◌then◌else◌, Bool-cases, inl, inr,
}
use embedded_pg.Base.Outcome.{ok}
use embedded_pg.Base.Exchange.{
  settle, pass, rounds, IsSorted, Le, length-pass, pass_least, pass-All,
}
use embedded_pg.Cstring.{Str, same, after}
use embedded_pg.Cstring.Order.{strcmp_self, same→eq, ≼_refl, ≼_total, ≼_trans, ≼_antisymm}
use embedded_pg.Schedule.Entry.{Entry}
use embedded_pg.Schedule.Align.{
  date_after, time_after, date_pass, date_loop, time_pass, time_loop, swap_if,
}

-- After in the order by date and, on one day, by time.
abbrev pub later : Entry → Entry → Bool
later x y = if same x.date y.date then time_after x y else date_after x y

pub date_pass-eq :
    (x : Entry) (ys zs : List Entry)
    → date_pass (length ys) x (ys ++ zs)
      ≡ ok ((pass date_after x ys).0, (pass date_after x ys).1 ++ zs)
unfolding date_pass pass
date_pass-eq x [] zs = refl
date_pass-eq x (y ∷ ys) zs = rw (date_pass-eq (settle date_after x y).0 ys zs)

pub date_loop-eq :
    (k : ℕ) (l zs : List Entry)
    → length l ≡ k
    → date_loop k (l ++ zs) ≡ ok (rounds date_after k l ++ zs)
unfolding date_loop rounds
date_loop-eq zero [] zs e = refl
date_loop-eq zero (x ∷ l) zs e = ground arith
date_loop-eq (suc k) [] zs e = ground arith
date_loop-eq (suc k) (x ∷ l) zs e =
    let e' : length l ≡ k = omega arith in
    rw (ap (λ j. date_pass j x (l ++ zs)) (sym e') ∙ date_pass-eq x l zs)
      (rw (date_loop-eq k (pass date_after x l).1 zs (length-pass date_after x l ∙ e')))

-- The laws of the two orders.
pub date_after-total : (a b : Entry) → date_after a b ≡ true → date_after b a ≡ false
date_after-total a b h = ≼_total a.date b.date h

pub date_after_trans : (a b c : Entry) → Le date_after a b → Le date_after b c → Le date_after a c
date_after_trans a b c h k = ≼_trans a.date b.date c.date h k

pub date_after_self : (a : Entry) → Le date_after a a
date_after_self a = ≼_refl a.date

same_comm : (s t : Str) → same s t ≡ same t s
same_comm s t = ground (arith, same→eq s t, same→eq t s, strcmp_self s, strcmp_self t)

pub later-total : (a b : Entry) → later a b ≡ true → Le later b a
later-total a b h =
    ground (arith, same_comm a.date b.date, ≼_total a.date b.date, ≼_total a.time b.time)

pub later_self : (a : Entry) → Le later a a
later_self a = ground (arith, ≼_refl a.date, ≼_refl a.time)

-- A string before another that is not after a third is before the third.
before_trans :
    (s t u : Str) → same s t ≡ false → after s t ≡ false → after t u ≡ false → same s u ≡ false
before_trans s t u n h k = elim (Bool-cases (same s u)) [
  | inl e ↦
      let st = ≼_antisymm s t h (rw (same→eq s u e) k) in absurd (ground (arith, strcmp_self s, st))
  | inr e ↦ e
]

trans-before :
    (s t u : Str) → after s t ≡ false → same t u ≡ false → after t u ≡ false → same s u ≡ false
trans-before s t u h n k = elim (Bool-cases (same s u)) [
  | inl e ↦
      let tu = ≼_antisymm t u k (rw (← same→eq s u e) h) in
      absurd (ground (arith, strcmp_self t, tu))
  | inr e ↦ e
]

-- What it is not to come later: on an earlier day, or on the same day and not at a later time.
abbrev NotLater : Entry → Entry → Type 0
NotLater a b =
    ((a.date ≡ b.date) × (after a.time b.time ≡ false))
    ⊎ ((same a.date b.date ≡ false) × (after a.date b.date ≡ false))

Le→NotLater : (a b : Entry) → Le later a b → NotLater a b
Le→NotLater a b h = elim (Bool-cases (same a.date b.date)) [
  | inl e ↦ inl (same→eq a.date b.date e, rw e at h)
  | inr e ↦ inr (e, rw e at h)
]

NotLater→Le : (a b : Entry) → NotLater a b → Le later a b
NotLater→Le a b (inl (e, h)) = ground (arith, strcmp_self a.date)
NotLater→Le a b (inr (e, h)) = rw e h

pub later_trans : (a b c : Entry) → Le later a b → Le later b c → Le later a c
later_trans a b c h k = NotLater→Le a c (join (Le→NotLater a b h) (Le→NotLater b c k))
  where
    join : NotLater a b → NotLater b c → NotLater a c
    join (inl (e, p)) (inl (f, q)) = inl (e ∙ f, ≼_trans a.time b.time c.time p q)
    join (inl (e, p)) (inr (f, q)) = inr (rw e f, rw e q)
    join (inr (e, p)) (inl (f, q)) = inr (rw (← f) e, rw (← f) p)
    join (inr (e, p)) (inr (f, q)) =
        inr (before_trans a.date b.date c.date e p q, ≼_trans a.date b.date c.date p q)

-- On an array ascending by date the passes by date and time keep the dates where they are.
record Kept (x : Entry) (out : Entry × List Entry) : Type 0 where
  first : out.0.date ≡ x.date
  rest : All (Le date_after x) out.1
  sorted : IsSorted date_after out.1

Le-of_date : (x y e : Entry) → x.date ≡ y.date → Le date_after x e → Le date_after y e
Le-of_date x y e p h = rw (← p) h

All-Le-of_date :
    (x y : Entry) (l : List Entry)
    → x.date ≡ y.date
    → All (Le date_after x) l
    → All (Le date_after y) l
All-Le-of_date x y l p = All-imp (Le date_after x) (Le date_after y) l (λ e. Le-of_date x y e p)

Le-later-of_before :
    (x y e : Entry)
    → same x.date y.date ≡ false
    → Le date_after x y
    → Le date_after y e
    → Le later x e
Le-later-of_before x y e n h k =
    NotLater→Le x e
      (inr (before_trans x.date y.date e.date n h k, ≼_trans x.date y.date e.date h k))

-- Where the next day begins, the pass by date and time would swap nothing.
pass-day_end :
    (x y : Entry) (ys : List Entry)
    → same x.date y.date ≡ false
    → Le date_after x y
    → All (Le date_after y) ys
    → pass later x (y ∷ ys) ≡ (x, y ∷ ys)
pass-day_end x y ys n h hs = pass_least later x (y ∷ ys) (
  Le-later-of_before x y y n h (date_after_self y),
  All-imp (Le date_after y) (Le later x) ys (λ e. Le-later-of_before x y e n h) hs,
)

settle-date :
    (x y : Entry)
    → x.date ≡ y.date
    → ((settle later x y).0.date ≡ x.date) × ((settle later x y).1.date ≡ x.date)
settle-date x y e = elim (Bool-cases (later x y)) [
  | inl s ↦ rw s (sym e, refl)
  | inr s ↦ rw s (refl, sym e)
]

pass-Kept :
    (x : Entry) (ys : List Entry)
    → All (Le date_after x) ys
    → IsSorted date_after ys
    → Kept x (pass later x ys)
unfolding pass
pass-Kept x [] h s = record { first = refl; rest = tt; sorted = tt }
pass-Kept x (y ∷ ys) h s = elim (Bool-cases (same x.date y.date)) [
  | inl e ↦
      let xy = same→eq x.date y.date e in
      let (lo, hi) = settle later x y in
      let (lo_date, hi_date) = settle-date x y xy in
      let k = pass-Kept lo ys (All-Le-of_date x lo ys (sym lo_date) h.1) s.1 in
      record {
        first = k.first ∙ lo_date;
        rest =
            (rw hi_date (≼_refl x.date), All-Le-of_date lo x (pass later lo ys).1 lo_date k.rest);
        sorted =
            (All-Le-of_date lo hi (pass later lo ys).1 (lo_date ∙ sym hi_date) k.rest, k.sorted);
      }
  | inr n ↦ rw (pass-day_end x y ys n h.0 s.0) (record { first = refl; rest = h; sorted = s })
]

-- `z` is the element behind the list: its date is none of the list's.
abbrev pub Ends : Entry → Entry → Type 0
Ends z e = same e.date z.date ≡ false

time_pass-end :
    (x y : Entry) (l : List Entry)
    → same x.date y.date ≡ false
    → time_pass x (y ∷ l) ≡ ok (x, y ∷ l)
unfolding time_pass
time_pass-end x y l n = rw (n, time_pass)

time_pass-step :
    (x y : Entry) (l r : List Entry) (m : Entry)
    → same x.date y.date ≡ true
    → time_pass (settle later x y).0 l ≡ ok (m, r)
    → time_pass x (y ∷ l) ≡ ok (m, (settle later x y).1 ∷ r)
unfolding time_pass
time_pass-step x y l r m e h =
    let s : swap_if (time_after x y) x y ≡ settle later x y = rw e in
    rw (e, time_pass) (rw s (rw h))

pub time_pass-eq :
    (x : Entry) (ys : List Entry) (z : Entry) (zs : List Entry)
    → All (Le date_after x) ys
    → IsSorted date_after ys
    → All (Ends z) (x ∷ ys)
    → time_pass x (ys ++ z ∷ zs) ≡ ok ((pass later x ys).0, (pass later x ys).1 ++ z ∷ zs)
unfolding pass
time_pass-eq x [] z zs h s d = time_pass-end x z zs d.0
time_pass-eq x (y ∷ ys) z zs h s d = elim (Bool-cases (same x.date y.date)) [
  | inl e ↦
      let xy = same→eq x.date y.date e in
      let (lo, hi) = settle later x y in
      let lo_date = (settle-date x y xy).0 in
      time_pass-step x y (ys ++ z ∷ zs) ((pass later lo ys).1 ++ z ∷ zs) (pass later lo ys).0 e (
        time_pass-eq lo ys z zs (All-Le-of_date x lo ys (sym lo_date) h.1) s.1
          (rw lo_date d.0, d.1.1))
  | inr n ↦
      time_pass-end x y (ys ++ z ∷ zs) n
      ∙ ap (λ (p : Entry × List Entry). ok (p.0, p.1 ++ z ∷ zs))
          (sym (pass-day_end x y ys n h.0 s.0))
]

pub time_loop-eq :
    (k : ℕ) (l : List Entry) (z : Entry) (zs : List Entry)
    → length l ≡ k
    → IsSorted date_after l
    → All (Ends z) l
    → time_loop k (l ++ z ∷ zs) ≡ ok (rounds later k l ++ z ∷ zs)
unfolding time_loop rounds
time_loop-eq zero [] z zs e s d = refl
time_loop-eq zero (x ∷ l) z zs e s d = ground arith
time_loop-eq (suc k) [] z zs e s d = ground arith
time_loop-eq (suc k) (x ∷ l) z zs e s d =
    let kept = pass-Kept x l s.0 s.1 in
    let rest = pass later x l in
    rw (time_pass-eq x l z zs s.0 s.1 d) (
      rw (
        time_loop-eq k rest.1 z zs (omega (arith, length-pass later x l)) kept.sorted
          (pass-All later (Ends z) x l d.0 d.1).1))
