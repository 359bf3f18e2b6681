-- ===== src/Base/Lists.antt =====
-- Lists measured and cut by native numbers, and predicates on all their elements.
use Prim.Native.Nat.{ℕ, zero, suc, ◌+◌, ◌-◌, ◌<◌}
use mathlib.Core.Path.{◌≡◌, refl, ap, ◌∙◌, subst}
use mathlib.Core.List.{List, [], ◌∷◌, ◌++◌}
use mathlib.Core.Option.{Option, none, some}
use native.Mathlib.Omega.{arith}

module _ {ℓ} {A : Type ℓ} where
  abbrev pub length : List A → ℕ
  length [] = 0
  length (x ∷ xs) = suc (length xs)

  abbrev pub take : ℕ → List A → List A
  take zero xs = []
  take (suc n) [] = []
  take (suc n) (x ∷ xs) = x ∷ take n xs

  abbrev pub drop : ℕ → List A → List A
  drop zero xs = xs
  drop (suc n) [] = []
  drop (suc n) (x ∷ xs) = drop n xs

  abbrev pub get_elem? : List A → ℕ → Option A
  get_elem? [] i = none
  get_elem? (x ∷ xs) zero = some x
  get_elem? (x ∷ xs) (suc i) = get_elem? xs i

  abbrev pub replicate : ℕ → A → List A
  replicate zero a = []
  replicate (suc n) a = a ∷ replicate n a

  pub length-append : (xs ys : List A) → length (xs ++ ys) ≡ length xs + length ys
  length-append [] ys = omega arith
  length-append (x ∷ xs) ys = omega (arith, length-append xs ys)

  pub take-append-drop : (n : ℕ) (xs : List A) → take n xs ++ drop n xs ≡ xs
  take-append-drop zero xs = refl
  take-append-drop (suc n) [] = refl
  take-append-drop (suc n) (x ∷ xs) = ap (◌∷◌ x) (take-append-drop n xs)

  pub length-drop : (n : ℕ) (xs : List A) → length (drop n xs) ≡ length xs - n
  length-drop zero xs = omega arith
  length-drop (suc n) [] = omega arith
  length-drop (suc n) (x ∷ xs) = omega (arith, length-drop n xs)

  -- A run of a list's own length is cut off whole.
  pub take-append_left : (xs ys : List A) → take (length xs) (xs ++ ys) ≡ xs
  take-append_left [] ys = refl
  take-append_left (x ∷ xs) ys = ap (◌∷◌ x) (take-append_left xs ys)

  pub drop-append_left : (xs ys : List A) → drop (length xs) (xs ++ ys) ≡ ys
  drop-append_left [] ys = refl
  drop-append_left (x ∷ xs) ys = drop-append_left xs ys

-- Every element satisfies `P`: a tuple, which the tactics read and build.
abbrev pub All {ℓ κ} : {A : Type ℓ} → (A → Type κ) → List A → Type κ
All P [] = Unit
All P (x ∷ xs) = P x × All P xs

module _ {ℓ κ} {A : Type ℓ} (P : A → Type κ) where
  pub All-append : (xs ys : List A) → All P xs → All P ys → All P (xs ++ ys)
  All-append [] ys hx hy = hy
  All-append (x ∷ xs) ys hx hy = (hx.0, All-append xs ys hx.1 hy)

  pub All-imp {μ} : (Q : A → Type μ) (xs : List A) → ((x : A) → P x → Q x) → All P xs → All Q xs
  All-imp Q [] f h = tt
  All-imp Q (x ∷ xs) f h = (f x h.0, All-imp Q xs f h.1)

  pub All-left : (xs ys : List A) → All P (xs ++ ys) → All P xs
  All-left [] ys h = tt
  All-left (x ∷ xs) ys h = (h.0, All-left xs ys h.1)

  pub All-right : (xs ys : List A) → All P (xs ++ ys) → All P ys
  All-right [] ys h = h
  All-right (x ∷ xs) ys h = All-right xs ys h.1

  pub All-middle : (xs : List A) (y : A) (ys : List A) → All P (xs ++ y ∷ ys) → P y
  All-middle [] y ys h = h.0
  All-middle (x ∷ xs) y ys h = All-middle xs y ys h.1

  pub All-remove : (xs : List A) (y : A) (ys : List A) → All P (xs ++ y ∷ ys) → All P (xs ++ ys)
  All-remove [] y ys h = h.1
  All-remove (x ∷ xs) y ys h = (h.0, All-remove xs y ys h.1)

pub drop-replicate {ℓ} :
    {A : Type ℓ} (m k : ℕ) (x : A) → k < m → drop k (replicate m x) ≡ x ∷ replicate (m - suc k) x
drop-replicate zero k x h = absurd (omega arith)
drop-replicate (suc m) zero x h = ap (λ j. x ∷ replicate j x) (omega arith)
drop-replicate (suc m) (suc k) x h =
    drop-replicate m k x (omega arith) ∙ ap (λ j. x ∷ replicate j x) (omega arith)

pub length-replicate {ℓ} : {A : Type ℓ} (n : ℕ) (a : A) → length (replicate n a) ≡ n
length-replicate zero a = refl
length-replicate (suc n) a = ap suc (length-replicate n a)

pub get_elem?-append {ℓ} :
    {A : Type ℓ} (l m : List A) (k : ℕ) (x : A)
    → get_elem? l k ≡ some x
    → get_elem? (l ++ m) k ≡ some x
get_elem?-append [] m k x e = cc
get_elem?-append (y ∷ l) m zero x e = e
get_elem?-append (y ∷ l) m (suc k) x e = get_elem?-append l m k x e

some_inj {ℓ} : {A : Type ℓ} (x y : A) → some x ≡ some y → x ≡ y
some_inj x y e = cc

pub get_elem?-All {ℓ κ} :
    {A : Type ℓ} (P : A → Type κ) (l : List A) (k : ℕ) (x : A)
    → All P l
    → get_elem? l k ≡ some x
    → P x
get_elem?-All P [] k x h e = absurd (none≢some e)
  where
    none≢some : (none ≡ some x) → ⊥
    none≢some q = cc
get_elem?-All P (y ∷ l) zero x h e = subst P (some_inj y x e) h.0
get_elem?-All P (y ∷ l) (suc k) x h e = get_elem?-All P l k x h.1 e
