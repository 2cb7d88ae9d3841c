-- ===== src/Common/Bits.antt =====
-- The binary operations digit by digit: `lo | (hi << k)` is a sum when `lo` fits in `k` bits, and an
-- operation on two numbers is that on their parts below and above `k` bits.
use Prim.Native.Nat.{
  ℕ, zero, suc, ◌+◌, ◌-◌, ◌*◌, ◌/◌, ◌%◌, ◌^◌, ◌≤◌, ◌<◌, max, min, differ, bit_and, bit_or, bit_xor,
  digits, bitwise, bit_and-bitwise, bit_or-bitwise, bit_xor-bitwise,
}
use mathlib.Core.Path.{◌≡◌, refl, ap, ◌∙◌}
use native.Mathlib.Nat.{pow-suc}
use native.Mathlib.Omega.{arith}

-- What `z` gives once the first number has run out agrees with the digits that follow.
module _ (z : ℕ → ℕ) (f : ℕ → ℕ → ℕ) (rest : (b : ℕ) → z b ≡ z (b / 2) * 2 + f 0 (b % 2)) where
  one_more : (n a b : ℕ) → a ≤ n → digits z f (suc n) a b ≡ digits z f n a b
  one_more n zero b h = none_left n
    where
      none_left : (n : ℕ) → digits z f (suc n) zero b ≡ digits z f n zero b
      none_left zero = refl
      none_left (suc n) = refl
  one_more zero (suc a) b h = absurd (omega arith)
  one_more (suc n) (suc a) b h = omega (arith, one_more n (suc a / 2) (b / 2) (omega arith))

  many_more : (k n a b : ℕ) → a ≤ n → digits z f (n + k) a b ≡ digits z f n a b
  many_more zero n a b h = ap (λ (m : ℕ). digits z f m a b) (omega arith)
  many_more (suc k) n a b h =
      let last : n + suc k ≡ suc (n + k) = omega arith in
      rw last (one_more (n + k) a b (omega arith) ∙ many_more k n a b h)

  bitwise_step : (a b : ℕ) → bitwise z f a b ≡ bitwise z f (a / 2) (b / 2) * 2 + f (a % 2) (b % 2)
  bitwise_step zero b = rest b
  bitwise_step (suc a) b =
      let half = suc a / 2 in
      let fuel : digits z f a half (b / 2) ≡ digits z f half half (b / 2) =
        ap (λ (m : ℕ). digits z f m half (b / 2)) (omega arith)
        ∙ many_more (a - half) half half (b / 2) (omega arith) in
      omega (arith, fuel)

pub bit_and_step : (a b : ℕ) → bit_and a b ≡ bit_and (a / 2) (b / 2) * 2 + min (a % 2) (b % 2)
bit_and_step a b = omega (
  arith,
  bit_and-bitwise a b,
  bit_and-bitwise (a / 2) (b / 2),
  bitwise_step (λ b. zero) min (λ b. omega arith) a b,
)

pub bit_or_step : (a b : ℕ) → bit_or a b ≡ bit_or (a / 2) (b / 2) * 2 + max (a % 2) (b % 2)
bit_or_step a b = omega (
  arith,
  bit_or-bitwise a b,
  bit_or-bitwise (a / 2) (b / 2),
  bitwise_step (λ b. b) max (λ b. omega arith) a b,
)

pub bit_xor_step : (a b : ℕ) → bit_xor a b ≡ bit_xor (a / 2) (b / 2) * 2 + differ (a % 2) (b % 2)
bit_xor_step a b = omega (
  arith,
  bit_xor-bitwise a b,
  bit_xor-bitwise (a / 2) (b / 2),
  bitwise_step (λ b. b) differ (λ b. omega arith) a b,
)

pub zero-bit_or : (b : ℕ) → bit_or 0 b ≡ b
zero-bit_or b = bit_or-bitwise 0 b

pub bit_or_disjoint : (k lo hi : ℕ) → lo < 2 ^ k → bit_or lo (hi * 2 ^ k) ≡ lo + hi * 2 ^ k
bit_or_disjoint zero zero hi h = omega (arith, zero-bit_or (hi * 2 ^ 0))
bit_or_disjoint zero (suc lo) hi h = absurd (omega arith)
bit_or_disjoint (suc k) lo hi h = ground (
  arith,
  bit_or_step lo (hi * 2 ^ suc k),
  ap (λ (t : ℕ). hi * t) (pow-suc 2 k),
  pow-suc 2 k,
  bit_or_disjoint k (lo / 2) hi,
)

-- An operation on digits, by the step that the three have in common.
module _ (op f : ℕ → ℕ → ℕ) (step : (a b : ℕ) → op a b ≡ op (a / 2) (b / 2) * 2 + f (a % 2) (b % 2))
    (digit : (a b : ℕ) → f (a % 2) (b % 2) ≤ 1) (none_set : op 0 0 ≡ 0) where
  pub op-concat :
      (k a b x y : ℕ)
      → a < 2 ^ k
      → b < 2 ^ k
      → op (a + 2 ^ k * x) (b + 2 ^ k * y) ≡ op a b + 2 ^ k * op x y
  op-concat zero a b x y h h' =
      let za : a ≡ 0 = omega arith in
      let zb : b ≡ 0 = omega arith in
      let plain_x : 0 + 1 * x ≡ x = omega arith in
      let plain_y : 0 + 1 * y ≡ y = omega arith in
      rw (za, zb, plain_x, plain_y, none_set) (omega arith)
  op-concat (suc k) a b x y h h' =
      let twice_x : 2 ^ suc k * x ≡ 2 * (2 ^ k * x) = rw (pow-suc 2 k) (grind arith) in
      let twice_y : 2 ^ suc k * y ≡ 2 * (2 ^ k * y) = rw (pow-suc 2 k) (grind arith) in
      let twice : 2 ^ suc k * op x y ≡ 2 * (2 ^ k * op x y) = rw (pow-suc 2 k) (grind arith) in
      let half_x : (a + 2 * (2 ^ k * x)) / 2 ≡ a / 2 + 2 ^ k * x = omega arith in
      let half_y : (b + 2 * (2 ^ k * y)) / 2 ≡ b / 2 + 2 ^ k * y = omega arith in
      let odd_x : (a + 2 * (2 ^ k * x)) % 2 ≡ a % 2 = omega arith in
      let odd_y : (b + 2 * (2 ^ k * y)) % 2 ≡ b % 2 = omega arith in
      let halves =
        op-concat k (a / 2) (b / 2) x y (omega (arith, pow-suc 2 k)) (omega (arith, pow-suc 2 k)) in
      rw (twice_x, twice_y, twice)
        (step (a + 2 * (2 ^ k * x)) (b + 2 * (2 ^ k * y))
          ∙ rw (half_x, half_y, odd_x, odd_y, halves) (omega (arith, step a b)))

  pub op_bound : (k a b : ℕ) → a < 2 ^ k → b < 2 ^ k → op a b < 2 ^ k
  op_bound zero a b h h' =
      let za : a ≡ 0 = omega arith in
      let zb : b ≡ 0 = omega arith in rw (za, zb, none_set) (omega arith)
  op_bound (suc k) a b h h' = omega (
    arith,
    step a b,
    digit a b,
    pow-suc 2 k,
    op_bound k (a / 2) (b / 2) (omega (arith, pow-suc 2 k)) (omega (arith, pow-suc 2 k)),
  )
