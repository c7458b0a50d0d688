-- ===== src/Prelude/Signed.antt =====
-- Signed numbers: process ids and exit codes are `i32` in the source.
use Prim.Native.Nat.{ℕ}

-- `negsuc n` is -(n + 1).
pub data ℤ : Type 0 where
  pos : ℕ → ℤ
  negsuc : ℕ → ℤ
