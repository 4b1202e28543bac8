-- ===== src/Base/Integers.antt =====
-- Signed numbers over the native ones.
use Prim.Native.Nat.{ℕ}

-- `pos n` is `n`, and `negsuc n` is `-(n + 1)`.
pub data ℤ : Type 0 where
  pos : ℕ → ℤ
  negsuc : ℕ → ℤ
