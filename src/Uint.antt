-- ===== src/Uint.antt =====
-- `base_uint` of src/hash/uint1024.h as a number below (2 ^ 32) ^ width: the byte streams of
-- `GetBytes` and `SetBytes`.
pub mod Words
mod Tests
use native.Mathlib.Nat.{pow-suc}
use prime_pool_deprecated.Common.{
  ℕ, zero, suc, ◌+◌, ◌*◌, ◌/◌, ◌%◌, ◌^◌, ◌<◌, ◌≡◌, refl, ap, List, [], ◌∷◌, ◌++◌, Option, none,
  some, arith, length,
}
use mathlib.Core.Option
use prime_pool_deprecated.Bytes.{u8, u32}

abbrev pub IsUint : ℕ → ℕ → Type 0
IsUint width n = n < (2 ^ 32) ^ width

-- `GetBytes`: the words from the lowest on, each with its most significant byte first.
unfoldable pub get_bytes : ℕ → ℕ → List ℕ
get_bytes zero n = []
get_bytes (suc width) n =
    u8 (n % 2 ^ 32 / 2 ^ 24)
    ∷ u8 (n % 2 ^ 32 / 2 ^ 16)
    ∷ u8 (n % 2 ^ 32 / 2 ^ 8)
    ∷ u8 (n % 2 ^ 32)
    ∷ get_bytes width (n / 2 ^ 32)

-- `SetBytes`: reads 4 * width bytes; `none` where the source reads past the end of the vector.
pub set_bytes : ℕ → List ℕ → Option ℕ
set_bytes zero bytes = some 0
set_bytes (suc width) (a ∷ b ∷ c ∷ d ∷ bytes) =
    Option.map (λ n. u32 (a * 2 ^ 24 + b * 2 ^ 16 + c * 2 ^ 8 + d) + 2 ^ 32 * n)
      (set_bytes width bytes)
set_bytes (suc width) bytes = none

pub length-get_bytes : (width n : ℕ) → length (get_bytes width n) ≡ 4 * width
unfolding get_bytes
length-get_bytes zero n = refl
length-get_bytes (suc width) n = omega (arith, length-get_bytes width (n / 2 ^ 32))

-- A wide integer of a given number of words that GetBytes wrote is read back by SetBytes,
-- whatever follows.
pub set_bytes-get_bytes :
    (width n : ℕ) (rest : List ℕ)
    → IsUint width n
    → set_bytes width (get_bytes width n ++ rest) ≡ some n
unfolding set_bytes get_bytes
set_bytes-get_bytes zero n rest h = ground (arith, pow_zero)
  where
    pow_zero : (2 ^ 32) ^ 0 ≡ 1
    pow_zero = refl
set_bytes-get_bytes (suc width) n rest h =
    ground (arith, pow-suc (2 ^ 32) width, set_bytes-get_bytes width (n / 2 ^ 32) rest)
