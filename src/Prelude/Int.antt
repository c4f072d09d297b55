-- ===== src/Prelude/Int.antt =====
-- Signed settings: the two places where the program reads a number that may be negative.
use Prim.Native.Nat.{ℕ}
use mathlib.Core.Bool.{Bool, true, false}
use network_monitoring.Prelude.Tests.{ltb}

-- `negsuc n` is -(n + 1).
pub data ℤ : Type 0 where
  pos : ℕ → ℤ
  negsuc : ℕ → ℤ

-- `z < 0`
abbrev pub is_negative : ℤ → Bool
is_negative (pos n) = false
is_negative (negsuc n) = true

-- `z < n`, for a natural n
abbrev pub below : ℤ → ℕ → Bool
below (pos m) n = ltb m n
below (negsuc m) n = true
