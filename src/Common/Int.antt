-- ===== src/Common/Int.antt =====
-- Integers over the native numbers; an int32 is the integer it stands for.
use Prim.Native.Nat.{ℕ}

pub data ℤ : Type 0 where
  pos : ℕ → ℤ
  negsuc : ℕ → ℤ
