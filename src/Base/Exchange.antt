-- ===== src/Base/Exchange.antt =====
-- The exchange sort: a round compares the first element with every later one in turn and swaps the
-- two where the test says so, and the rounds go on behind it.
use mathlib.Core.List.{Perm}
use mathlib.Core.List.Perm
use Prim.Native.Nat.{ℕ, zero, suc, ◌≤◌}
use mathlib.Core.Path.{◌≡◌, refl, ap}
use mathlib.Core.Bool.{Bool, true, false}
use mathlib.Core.Logic.{inl, inr}
use mathlib.Core.List.{List, [], ◌∷◌, ◌++◌}
use native.Mathlib.Omega.{arith}
use embedded_pg.Base.Tests.{if◌then◌else◌, Bool-cases}
use embedded_pg.Base.Lists.{length, All, All-remove}

module _ {ℓ} {A : Type ℓ} (gt : A → A → Bool) where
  -- the pair as a swap under `gt a b` leaves it
  abbrev pub settle : A → A → A × A
  settle a b = if gt a b then (b, a) else (a, b)

  unfoldable pub pass : A → List A → A × List A
  pass x [] = (x, [])
  pass x (y ∷ ys) = let (m, r) = pass (settle x y).0 ys in (m, (settle x y).1 ∷ r)

  unfoldable pub rounds : ℕ → List A → List A
  rounds zero l = l
  rounds (suc k) [] = []
  rounds (suc k) (x ∷ ys) = let (m, r) = pass x ys in m ∷ rounds k r

  abbrev pub Le : A → A → Type 0
  Le a b = gt a b ≡ false

  abbrev pub IsSorted : List A → Type ℓ
  IsSorted [] = Unit
  IsSorted (x ∷ xs) = All (Le x) xs × IsSorted xs

  pub length-pass : (x : A) (ys : List A) → length (pass x ys).1 ≡ length ys
  unfolding pass
  length-pass x [] = refl
  length-pass x (y ∷ ys) = ap suc (length-pass (settle x y).0 ys)

  pub length-rounds : (k : ℕ) (l : List A) → length (rounds k l) ≡ length l
  unfolding rounds
  length-rounds zero l = refl
  length-rounds (suc k) [] = refl
  length-rounds (suc k) (x ∷ ys) = omega (arith, length-rounds k (pass x ys).1, length-pass x ys)

  settle-perm : (x y : A) (ys : List A) → Perm ((settle x y).1 ∷ (settle x y).0 ∷ ys) (x ∷ y ∷ ys)
  settle-perm x y ys = elim (Bool-cases (gt x y)) [
    | inl e ↦ rw e (Perm.refl (x ∷ y ∷ ys))
    | inr e ↦ rw e (Perm.swap x y ys)
  ]

  pub pass-perm : (x : A) (ys : List A) → Perm ((pass x ys).0 ∷ (pass x ys).1) (x ∷ ys)
  unfolding pass
  pass-perm x [] = Perm.refl (x ∷ [])
  pass-perm x (y ∷ ys) =
      let (lo, hi) = settle x y in
      Perm.trans (Perm.swap hi (pass lo ys).0 (pass lo ys).1)
        (Perm.trans (Perm.cons hi (pass-perm lo ys)) (settle-perm x y ys))

  pub rounds-perm : (k : ℕ) (l : List A) → Perm (rounds k l) l
  unfolding rounds
  rounds-perm zero l = Perm.refl l
  rounds-perm (suc k) [] = Perm.refl []
  rounds-perm (suc k) (x ∷ ys) =
      Perm.trans (Perm.cons (pass x ys).0 (rounds-perm k (pass x ys).1)) (pass-perm x ys)

  pub pass-All {κ} :
      (P : A → Type κ) (x : A) (ys : List A)
      → P x
      → All P ys
      → P (pass x ys).0 × All P (pass x ys).1
  unfolding pass
  pass-All P x [] h hs = (h, tt)
  pass-All P x (y ∷ ys) h hs = elim (Bool-cases (gt x y)) [
    | inl e ↦ rw e (let r = pass-All P y ys hs.0 hs.1 in (r.0, (h, r.1)))
    | inr e ↦ rw e (let r = pass-All P x ys h hs.1 in (r.0, (hs.0, r.1)))
  ]

  pub rounds-All {κ} : (P : A → Type κ) (k : ℕ) (l : List A) → All P l → All P (rounds k l)
  unfolding rounds
  rounds-All P zero l h = h
  rounds-All P (suc k) [] h = h
  rounds-All P (suc k) (x ∷ ys) h =
      let p = pass-All P x ys h.0 h.1 in (p.0, rounds-All P k (pass x ys).1 p.1)

  -- A first element that is after none of the others stays, and so do they.
  pub pass_least : (x : A) (ys : List A) → All (Le x) ys → pass x ys ≡ (x, ys)
  unfolding pass
  pass_least x [] h = refl
  pass_least x (y ∷ ys) h = rw h.0 (rw (pass_least x ys h.1))

  -- A sorted list stays as it is.
  pub rounds_of_IsSorted : (k : ℕ) (l : List A) → IsSorted l → rounds k l ≡ l
  unfolding rounds
  rounds_of_IsSorted zero l s = refl
  rounds_of_IsSorted (suc k) [] s = refl
  rounds_of_IsSorted (suc k) (x ∷ ys) s =
      rw (pass_least x ys s.0) (ap (◌∷◌ x) (rounds_of_IsSorted k ys s.1))

  pub IsSorted-remove :
      (l : List A) (e : A) (r : List A) → IsSorted (l ++ e ∷ r) → IsSorted (l ++ r)
  IsSorted-remove [] e r s = s.1
  IsSorted-remove (x ∷ l) e r s = (All-remove (Le x) l e r s.0, IsSorted-remove l e r s.1)

  module _ (total : (a b : A) → gt a b ≡ true → Le b a)
      (trans : (a b c : A) → Le a b → Le b c → Le a c) (self : (a : A) → Le a a) where
    settle-le : (x y : A) → Le (settle x y).0 x × Le (settle x y).0 (settle x y).1
    settle-le x y = elim (Bool-cases (gt x y)) [
      | inl e ↦ rw e (total x y e, total x y e)
      | inr e ↦ rw e (self x, e)
    ]

    pub pass-IsLeast :
        (x : A) (ys : List A) → Le (pass x ys).0 x × All (Le (pass x ys).0) (pass x ys).1
    unfolding pass
    pass-IsLeast x [] = (self x, tt)
    pass-IsLeast x (y ∷ ys) =
        let (lo, hi) = settle x y in
        let (p, q) = pass-IsLeast lo ys in
        let (below_x, below_hi) = settle-le x y in
        (trans _ lo x p below_x, (trans _ lo hi p below_hi, q))

    -- With a round for each element the list ends up sorted.
    pub rounds-IsSorted : (k : ℕ) (l : List A) → length l ≤ k → IsSorted (rounds k l)
    unfolding rounds
    rounds-IsSorted zero [] h = tt
    rounds-IsSorted zero (x ∷ ys) h = absurd (omega arith)
    rounds-IsSorted (suc k) [] h = tt
    rounds-IsSorted (suc k) (x ∷ ys) h = (
      rounds-All (Le (pass x ys).0) k (pass x ys).1 (pass-IsLeast x ys).1,
      rounds-IsSorted k (pass x ys).1 (omega (arith, length-pass x ys)),
    )
