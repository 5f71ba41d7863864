-- ===== src/Base/Int.antt =====
-- Python's integers, as far as the code compares them with 0.
use Prim.Native.Nat.{ℕ, zero, suc}
use mathlib.Core.Bool.{Bool, true, false}

-- `negsuc n` is -(n + 1).
pub data ℤ : Type 0 where
  pos : ℕ → ℤ
  negsuc : ℕ → ℤ

-- n <= 0
abbrev pub le_zero : ℤ → Bool
le_zero (pos zero) = true
le_zero (pos (suc _)) = false
le_zero (negsuc _) = true

-- n < 0
abbrev pub lt_zero : ℤ → Bool
lt_zero (pos _) = false
lt_zero (negsuc _) = true
