-- ===== src/Cstring.antt =====
-- NUL-terminated C strings as lists of their bytes before the NUL, and `strcmp`.
pub mod Order
use embedded_pg.Base.{ℕ, Bool, true, false, List, [], ◌∷◌, compare, Ordering}

abbrev pub Str : Type 0
Str = List ℕ

-- The sign of `strcmp(s, t)`: `lt` is negative, `eq` zero, `gt` positive.
unfoldable pub strcmp : Str → Str → Ordering
strcmp [] [] = Ordering.eq
strcmp [] (d ∷ t) = Ordering.lt
strcmp (c ∷ s) [] = Ordering.gt
strcmp (c ∷ s) (d ∷ t) = elim (compare c d) [
  | Ordering.lt ↦ Ordering.lt
  | Ordering.gt ↦ Ordering.gt
  | Ordering.eq ↦ strcmp s t
]

abbrev pub is_eq : Ordering → Bool
is_eq Ordering.eq = true
is_eq _ = false

abbrev pub is_gt : Ordering → Bool
is_gt Ordering.gt = true
is_gt _ = false

-- `strcmp(s, t) == 0`
abbrev pub same : Str → Str → Bool
same s t = is_eq (strcmp s t)

-- `strcmp(s, t) > 0`
abbrev pub after : Str → Str → Bool
after s t = is_gt (strcmp s t)
