-- ===== src/Prelude/Integers.antt =====
-- Python's integers.
use Prim.Native.Nat.{ℕ}
use mathlib.Core.Bool.{Bool, false}
use label_309_py.Prelude.Tests.{◌==◌}

-- `negative n` is -(n + 1).
pub data Integer : Type 0 where
  natural negative : ℕ → Integer

unfoldable pub integer_eq : Integer → Integer → Bool
integer_eq (natural m) (natural n) = m == n
integer_eq (negative m) (negative n) = m == n
integer_eq (natural m) (negative n) = false
integer_eq (negative m) (natural n) = false
