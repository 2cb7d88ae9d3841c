-- ===== src/Uint/Words/Bitwise.antt =====
-- The bitwise operators of `base_uint` (src/hash/uint1024.h), word by word, and those with a `uint64`.
pub mod Value
use Prim.Native.Nat.{bit_and, bit_or, bit_xor}
use prime_pool_deprecated.Common.{ℕ, ◌+◌, ◌*◌, ◌/◌, ◌^◌, [], ◌∷◌, get_or}
use prime_pool_deprecated.Bytes.{u32}
use prime_pool_deprecated.Uint.Words.{Words}

-- `operator^=`, `operator&=` and `operator|=`
pub exclusive_or : Words → Words → Words
exclusive_or (v ∷ vs) (w ∷ ws) = bit_xor v w ∷ exclusive_or vs ws
exclusive_or vs ws = vs

pub both_of : Words → Words → Words
both_of (v ∷ vs) (w ∷ ws) = bit_and v w ∷ both_of vs ws
both_of vs ws = vs

pub either_of : Words → Words → Words
either_of (v ∷ vs) (w ∷ ws) = bit_or v w ∷ either_of vs ws
either_of vs ws = vs

-- `operator^=` and `operator|=` of a `uint64`
pub exclusive_or_u64 : Words → ℕ → Words
exclusive_or_u64 (v ∷ w ∷ ws) b = bit_xor v (u32 b) ∷ bit_xor w (u32 (b / 2 ^ 32)) ∷ ws
exclusive_or_u64 ws b = ws

pub either_of_u64 : Words → ℕ → Words
either_of_u64 (v ∷ w ∷ ws) b = bit_or v (u32 b) ∷ bit_or w (u32 (b / 2 ^ 32)) ∷ ws
either_of_u64 ws b = ws

-- `Get64`
pub get64 : Words → ℕ → ℕ
get64 ws n = bit_or (get_or ws (2 * n) 0) (get_or ws (2 * n + 1) 0 * 2 ^ 32)
