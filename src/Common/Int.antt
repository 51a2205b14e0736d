-- ===== src/Common/Int.antt =====
-- Go's signed `int`, as far as the code compares it with constants. `negsuc n` is -(n + 1).
use Prim.Native.Nat.{ℕ}
use mathlib.Core.Bool.{Bool, false}
use hisnos_secure_workstatio.Common.Tests.{leb, ◌==◌ as nat_beq}

pub data ℤ : Type 0 where
  pos : ℕ → ℤ
  negsuc : ℕ → ℤ

-- `x >= k` for a constant k that is not negative.
abbrev pub at_least : ℤ → ℕ → Bool
at_least (pos n) k = leb k n
at_least (negsuc n) k = false

-- `x == k` for such a constant.
abbrev pub is_int : ℤ → ℕ → Bool
is_int (pos n) k = nat_beq n k
is_int (negsuc n) k = false
