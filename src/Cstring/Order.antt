-- ===== src/Cstring/Order.antt =====
-- `strcmp` decides equality, and its sign is a total order.
use embedded_pg.Base.{◌≡◌, refl, true, false, [], ◌∷◌, Ordering, arith}
use embedded_pg.Cstring.{Str, strcmp, same, after}

pub strcmp_self : (s : Str) → strcmp s s ≡ Ordering.eq
unfolding strcmp
strcmp_self [] = refl
strcmp_self (c ∷ s) = ground (arith, strcmp_self s)

pub same→eq : (s t : Str) → same s t ≡ true → s ≡ t
unfolding strcmp
same→eq [] [] h = refl
same→eq [] (d ∷ t) h = ground arith
same→eq (c ∷ s) [] h = ground arith
same→eq (c ∷ s) (d ∷ t) h = ground (arith, same→eq s t)

-- Not after, in strcmp's order.
abbrev pub ◌≼◌ : Str → Str → Type 0
◌≼◌ s t = after s t ≡ false

pub ≼_refl : (s : Str) → ◌≼◌ s s
≼_refl s = ground (arith, strcmp_self s)

pub ≼_total : (s t : Str) → after s t ≡ true → after t s ≡ false
unfolding strcmp
≼_total [] [] h = ground arith
≼_total [] (d ∷ t) h = ground arith
≼_total (c ∷ s) [] h = ground arith
≼_total (c ∷ s) (d ∷ t) h = ground (arith, ≼_total s t)

pub ≼_trans : (s t u : Str) → ◌≼◌ s t → ◌≼◌ t u → ◌≼◌ s u
unfolding strcmp
≼_trans [] [] [] h k = refl
≼_trans [] [] (e ∷ u) h k = ground arith
≼_trans [] (d ∷ t) [] h k = ground arith
≼_trans [] (d ∷ t) (e ∷ u) h k = ground arith
≼_trans (c ∷ s) [] u h k = ground arith
≼_trans (c ∷ s) (d ∷ t) [] h k = ground arith
≼_trans (c ∷ s) (d ∷ t) (e ∷ u) h k = ground (arith, ≼_trans s t u)

pub ≼_antisymm : (s t : Str) → ◌≼◌ s t → ◌≼◌ t s → s ≡ t
unfolding strcmp
≼_antisymm [] [] h k = refl
≼_antisymm [] (d ∷ t) h k = ground arith
≼_antisymm (c ∷ s) [] h k = ground arith
≼_antisymm (c ∷ s) (d ∷ t) h k = ground (arith, ≼_antisymm s t)
