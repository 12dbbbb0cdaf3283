-- ===== src/Prelude/Int.antt =====
-- Python integers, over the native numbers.
use Prim.Native.Nat.{ℕ}
use mathlib.Core.Bool.{Bool, false}
use mosec.Prelude.Tests.{leb}

pub data ℤ : Type 0 where
  pos : ℕ → ℤ
  negsuc : ℕ → ℤ

-- `threshold <= number`
abbrev pub at_least : ℕ → ℤ → Bool
at_least threshold (pos n) = leb threshold n
at_least threshold (negsuc n) = false

-- What `range(number)` counts.
abbrev pub to_nat : ℤ → ℕ
to_nat (pos n) = n
to_nat (negsuc n) = 0
