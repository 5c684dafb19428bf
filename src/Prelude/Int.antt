-- ===== src/Prelude/Int.antt =====
-- Go's signed `int`, as far as the program uses it: comparisons with 0 and with a length.
use Prim.Native.Nat.{ℕ}
use mathlib.Core.Bool.{Bool, true, false}
use a2a_gateway_mcp.Prelude.Tests.{leb, nat_eq}

-- `negsuc n` is -(n + 1).
pub data ℤ : Type 0 where
  pos : ℕ → ℤ
  negsuc : ℕ → ℤ

-- v <= 0
abbrev pub is_le_zero : ℤ → Bool
is_le_zero (pos n) = nat_eq n 0
is_le_zero (negsuc n) = true

-- v == 0
abbrev pub is_zero : ℤ → Bool
is_zero (pos n) = nat_eq n 0
is_zero (negsuc n) = false

-- v < 0
abbrev pub is_negative : ℤ → Bool
is_negative (pos n) = false
is_negative (negsuc n) = true

-- n >= v, for a count n
abbrev pub reaches : ℕ → ℤ → Bool
reaches n (pos v) = leb v n
reaches n (negsuc v) = true
