-- ===== src/Base/Arrays.antt =====
-- Assignments to elements of arrays.
use Prim.Native.Nat.{ℕ, zero, suc, ◌<◌}
use mathlib.Core.Path.{◌≡◌, refl, ap}
use mathlib.Core.Bool.{false}
use mathlib.Core.Option.{some}
use mathlib.Core.List.{List, [], ◌∷◌, ◌++◌}
use native.Mathlib.Omega.{arith}
use embedded_pg.Base.Lists.{length, get_elem?}
use embedded_pg.Base.Tests.{◌==◌}
use embedded_pg.Base.Outcome.{Outcome, ok, fault, ◌>>=◌}

module _ {ℓ} {A : Type ℓ} where
  -- `a[i] = v`: the array after it. An index outside the array is a fault.
  unfoldable pub set_elem : List A → ℕ → A → Outcome (List A)
  set_elem [] i v = fault
  set_elem (x ∷ l) zero v = ok (v ∷ l)
  set_elem (x ∷ l) (suc i) v = do l' ← set_elem l i v; ok (x ∷ l')

  -- The element behind those of `pre` is set.
  pub set_elem-append :
      (pre : List A) (x v : A) (post : List A)
      → set_elem (pre ++ x ∷ post) (length pre) v ≡ ok (pre ++ v ∷ post)
  unfolding set_elem
  set_elem-append [] x v post = refl
  set_elem-append (y ∷ pre) x v post = rw (set_elem-append pre x v post) refl

  pub set_elem-outside : (l : List A) (v : A) → set_elem l (length l) v ≡ fault
  unfolding set_elem
  set_elem-outside [] v = refl
  set_elem-outside (x ∷ l) v = rw (set_elem-outside l v) refl

  behind_first :
      (x y : A) (l : List A) (j : ℕ) → (j == 0) ≡ false → get_elem? (y ∷ l) j ≡ get_elem? (x ∷ l) j
  behind_first x y l zero n = ground arith
  behind_first x y l (suc j) n = refl

  behind_other :
      (x : A) (l l' : List A) (i : ℕ)
      → ((j : ℕ) → (j == i) ≡ false → get_elem? l' j ≡ get_elem? l j)
      → (j : ℕ) → (j == suc i) ≡ false
      → get_elem? (x ∷ l') j ≡ get_elem? (x ∷ l) j
  behind_other x l l' i o zero n = refl
  behind_other x l l' i o (suc j) n = o j (ground arith)

  -- What is put into a slot is found there, and the other slots stay.
  pub set_elem-stored :
      (l : List A) (i : ℕ) (v : A)
      → i < length l
      → (l' : List A) × (set_elem l i v ≡ ok l')
        × (length l' ≡ length l)
        × (get_elem? l' i ≡ some v)
        × ((j : ℕ) → (j == i) ≡ false → get_elem? l' j ≡ get_elem? l j)
  unfolding set_elem
  set_elem-stored [] i v h = absurd (omega arith)
  set_elem-stored (x ∷ l) zero v h = (v ∷ l, refl, refl, refl, behind_first x v l)
  set_elem-stored (x ∷ l) (suc i) v h =
      let (l', e, n, g, o) = set_elem-stored l i v (omega arith) in
      (x ∷ l', rw e refl, ap suc n, g, behind_other x l l' i o)
