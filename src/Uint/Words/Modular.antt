-- ===== src/Uint/Words/Modular.antt =====
-- The words of `base_uint` (src/hash/uint1024.h) refine the numbers modulo 2 ^ (32 * width), in which
-- the other components count.
use prime_pool_deprecated.Common.{
  ℕ, ◌+◌, ◌-◌, ◌*◌, ◌/◌, ◌%◌, ◌^◌, ◌<◌, ◌≤◌, ◌≡◌, refl, sym, ap, ◌∙◌, true, false, [], ◌∷◌, arith,
  ltb, leb, ◌==◌, length,
}
use prime_pool_deprecated.Uint.{get_bytes}
use prime_pool_deprecated.Uint.Words.{
  Words, of_u64, add, increment, decrement, negate, subtract, add_u64, subtract_u64, less,
  less_equal, greater, greater_equal, equal, word_bytes,
}
use prime_pool_deprecated.Uint.Words.Value.{
  IsWords, Fits, value, modulus, value-add, value-subtract, value-increment, value-decrement,
  value-negate, value-of_u64,
}
use prime_pool_deprecated.Uint.Words.Shift.{shift_left, shift_right}
use prime_pool_deprecated.Uint.Words.Shift.Left.{value-shift_left}
use prime_pool_deprecated.Uint.Words.Shift.Right.{value-shift_right}
use prime_pool_deprecated.Uint.Words.Compare.{loop-below, equal-value}

-- Words of the width that stand for the number.
abbrev pub Is : ℕ → ℕ → Words → Type 0
Is width n ws = (value ws ≡ n) × Fits width ws

-- For two operands of 32-bit words of the same width, the loops with a carry, and those of the
-- increment and the decrement, give words of that width that stand for the sum, the difference,
-- the negation, the successor and the predecessor modulo 2 ^ 32 to the width.
pub arithmetic_lem :
    (vs ws : Words)
    → IsWords vs
    → IsWords ws
    → length vs ≡ length ws
    → Is (length vs) ((value vs + value ws) % modulus (length vs)) (add vs ws)
      × Is
          (length vs)
          ((value vs + (modulus (length vs) - value ws)) % modulus (length vs))
          (subtract vs ws)
      × Is (length vs) ((modulus (length vs) - value vs) % modulus (length vs)) (negate vs)
      × Is (length vs) ((value vs + 1) % modulus (length vs)) (increment vs)
      × Is (length vs) ((value vs + modulus (length vs) - 1) % modulus (length vs)) (decrement vs)
arithmetic_lem vs ws hv hw e = (
  value-add vs ws hv hw e,
  value-subtract vs ws hv hw e,
  value-negate vs hv,
  value-increment vs hv,
  value-decrement vs hv,
)

-- For two operands of 32-bit words of the same width, the five comparisons of words, from the
-- highest or the lowest word on, are those of the numbers that the words stand for.
pub compare_lem :
    (vs ws : Words)
    → IsWords vs
    → IsWords ws
    → length vs ≡ length ws
    → (less vs ws ≡ ltb (value vs) (value ws))
      × (less_equal vs ws ≡ leb (value vs) (value ws))
      × (greater vs ws ≡ ltb (value ws) (value vs))
      × (greater_equal vs ws ≡ leb (value ws) (value vs))
      × (equal vs ws ≡ (value vs == value ws))
unfolding less less_equal greater greater_equal
compare_lem vs ws hv hw e =
    let strict = loop-below false vs ws hv hw e in
    let loose = loop-below true vs ws hv hw e in
    (strict.0, loose.0, strict.1, loose.1, equal-value vs ws hv hw e)

-- The same for an operand of 64 bits.
pub add_u64_lem :
    (vs : Words) (b : ℕ)
    → IsWords vs
    → 2 ≤ length vs
    → b < 2 ^ 64
    → Is (length vs) ((value vs + b) % modulus (length vs)) (add_u64 vs b)
      × Is
          (length vs)
          ((value vs + (modulus (length vs) - b)) % modulus (length vs))
          (subtract_u64 vs b)
unfolding add_u64 subtract_u64
add_u64_lem vs b hv h fits =
    let (same, (wide, many)) = value-of_u64 (length vs) b h fits in
    let sum = value-add vs (of_u64 (length vs) b) hv wide (sym many) in
    let rest = value-subtract vs (of_u64 (length vs) b) hv wide (sym many) in
    (
      (sum.0 ∙ ap (λ n. (value vs + n) % modulus (length vs)) same, sum.1),
      (
        rest.0 ∙ ap (λ n. (value vs + (modulus (length vs) - n)) % modulus (length vs)) same,
        rest.1,
      ),
    )

-- On 32-bit words, the loops of the two shifts give words of the same width that stand for the
-- number times 2 to the shift modulo 2 ^ 32 to the width, and for its quotient by 2 to the
-- shift.
pub shift_lem :
    (n : ℕ) (ws : Words)
    → IsWords ws
    → Is (length ws) ((value ws * 2 ^ n) % modulus (length ws)) (shift_left n ws)
      × Is (length ws) (value ws / 2 ^ n) (shift_right n ws)
shift_lem n ws hw = (value-shift_left n ws hw, value-shift_right n ws hw)

-- The bytes that GetBytes writes for 32-bit words are those of the number that the words stand
-- for.
pub word_bytes-get_bytes :
    (ws : Words) → IsWords ws → word_bytes ws ≡ get_bytes (length ws) (value ws)
unfolding word_bytes get_bytes value
word_bytes-get_bytes [] h = refl
word_bytes-get_bytes (w ∷ ws) (h, hs) = rw (low, high, word_bytes-get_bytes ws hs) refl
  where
    low : (w + 2 ^ 32 * value ws) % 2 ^ 32 ≡ w
    low = omega arith

    high : (w + 2 ^ 32 * value ws) / 2 ^ 32 ≡ value ws
    high = omega arith

-- The number of a share: a hash of 1024 bits and the nonce.
prime_of_words :
    (hash : Words) (nonce : ℕ)
    → IsWords hash
    → length hash ≡ 32
    → nonce < 2 ^ 64
    → value (add_u64 hash nonce) ≡ (value hash + nonce) % 2 ^ 1024
unfolding modulus
prime_of_words hash nonce h e fits =
    (add_u64_lem hash nonce h (omega (arith, e)) fits).0.0
    ∙ ap (λ width. (value hash + nonce) % (2 ^ 32) ^ width) e
