-- ===== src/Uint/Words/Bitwise/Value.antt =====
-- The bitwise operators of `base_uint` (src/hash/uint1024.h) on the numbers that the words stand for.
use Prim.Native.Nat.{bit_and, bit_or, bit_xor, min, max, differ}
use prime_pool_deprecated.Common.{
  ℕ, zero, suc, ◌+◌, ◌*◌, ◌/◌, ◌%◌, ◌≤◌, ◌<◌, ◌≡◌, refl, sym, [], ◌∷◌, arith, length,
}
use prime_pool_deprecated.Common.Bits.{bit_and_step, bit_or_step, bit_xor_step, op-concat, op_bound}
use prime_pool_deprecated.Uint.Words.{Words}
use prime_pool_deprecated.Uint.Words.Value.{IsWords, Fits, value}
use prime_pool_deprecated.Uint.Words.Bitwise.{exclusive_or, both_of, either_of}

differ_bit : (a b : ℕ) → differ (a % 2) (b % 2) ≤ 1
differ_bit a b = bits (a % 2) (b % 2) (omega arith) (omega arith)
  where
    bits : (x y : ℕ) → x < 2 → y < 2 → differ x y ≤ 1
    bits zero y h h' = omega arith
    bits (suc x) zero h h' = omega arith
    bits (suc zero) (suc y) h h' = omega arith
    bits (suc (suc x)) (suc y) h h' = absurd (omega arith)

-- A loop that combines the words of two operands, for an operation on digits.
module _ (op f : ℕ → ℕ → ℕ) (step : (a b : ℕ) → op a b ≡ op (a / 2) (b / 2) * 2 + f (a % 2) (b % 2))
    (digit : (a b : ℕ) → f (a % 2) (b % 2) ≤ 1) (none_set : op 0 0 ≡ 0)
    (loop : Words → Words → Words) (at_end : loop [] [] ≡ [])
    (round : (v w : ℕ) (vs ws : Words) → loop (v ∷ vs) (w ∷ ws) ≡ op v w ∷ loop vs ws) where
  loop-value :
      (vs ws : Words)
      → IsWords vs
      → IsWords ws
      → length vs ≡ length ws
      → (value (loop vs ws) ≡ op (value vs) (value ws)) × Fits (length vs) (loop vs ws)
  unfolding value
  loop-value [] [] hv hw e = rw at_end (sym none_set, (tt, refl))
  loop-value (v ∷ vs) [] hv hw e = absurd (omega arith)
  loop-value [] (w ∷ ws) hv hw e = absurd (omega arith)
  loop-value (v ∷ vs) (w ∷ ws) (v32, hv) (w32, hw) e =
      let (same, (wide, many)) = loop-value vs ws hv hw (omega arith) in
      rw (round v w vs ws) (
        rw same (sym (op-concat op f step digit none_set 32 v w (value vs) (value ws) v32 w32)),
        ((op_bound op f step digit none_set 32 v w v32 w32, wide), omega (arith, many)),
      )

-- For two operands of 32-bit words of the same width, the operators ^=, &= and |= give words of
-- that width that stand for the exclusive or, the conjunction and the disjunction of the
-- numbers.
pub bitwise_lem :
    (vs ws : Words)
    → IsWords vs
    → IsWords ws
    → length vs ≡ length ws
    → ((value (exclusive_or vs ws) ≡ bit_xor (value vs) (value ws))
        × Fits (length vs) (exclusive_or vs ws))
      × ((value (both_of vs ws) ≡ bit_and (value vs) (value ws)) × Fits (length vs) (both_of vs ws))
      × ((value (either_of vs ws) ≡ bit_or (value vs) (value ws))
          × Fits (length vs) (either_of vs ws))
unfolding exclusive_or both_of either_of
bitwise_lem vs ws hv hw e = (
  loop-value bit_xor differ bit_xor_step differ_bit refl exclusive_or refl (λ v w vs ws. refl) vs ws
      hv hw e,
  loop-value bit_and min bit_and_step (λ a b. omega arith) refl both_of refl (λ v w vs ws. refl) vs
      ws hv hw e,
  loop-value bit_or max bit_or_step (λ a b. omega arith) refl either_of refl (λ v w vs ws. refl) vs
      ws hv hw e,
)
