-- ===== src/Prelude/Int.antt =====
-- The C type `int`, for arguments that may be negative and for error codes.
use Prim.Native.Nat.{ℕ}

pub data ℤ : Type 0 where
  pos : ℕ → ℤ
  -- `negsuc n` is - (n + 1)
  negsuc : ℕ → ℤ
