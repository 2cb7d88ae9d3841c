-- ===== src/Common/Int.antt =====
-- C's `int`, and its conversions from and to `uint64`: both keep the low 32 bits' meaning.
use Prim.Native.Nat.{ℕ, ◌-◌, ◌%◌, ◌^◌}
use mathlib.Core.Bool.{Bool, true, false}
use prime_pool_deprecated.Common.Tests.{ltb, if◌then◌else◌}

-- `negsuc n` is -(n + 1).
pub data ℤ : Type 0 where
  pos : ℕ → ℤ
  negsuc : ℕ → ℤ

abbrev pub is_negative : ℤ → Bool
is_negative (pos n) = false
is_negative (negsuc n) = true

-- The `int` that a `uint64` is converted to: its low 32 bits, read in two's complement.
abbrev pub int_of_u64 : ℕ → ℤ
int_of_u64 n =
    let low = n % 2 ^ 32 in if ltb low (2 ^ 31) then pos low else negsuc (2 ^ 32 - low - 1)

-- The `uint64` that an `int` is converted to in an expression with one.
abbrev pub u64_of_int : ℤ → ℕ
u64_of_int (pos n) = n
u64_of_int (negsuc n) = 2 ^ 64 - n - 1
