-- ===== src/Base/Int.antt =====
-- Signed numbers, as C returns them for errors.
use Prim.Native.Nat.{ℕ}

-- `negsuc n` is -(n + 1).
pub data ℤ : Type 0 where
  pos : ℕ → ℤ
  negsuc : ℕ → ℤ
