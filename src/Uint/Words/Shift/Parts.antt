-- ===== src/Uint/Words/Shift/Parts.antt =====
-- The two parts into which a shift (src/hash/uint1024.h) cuts a word, as numbers.
use Prim.Native.Nat.{bit_or}
use native.Mathlib.Nat.{
  pow-zero, pow-suc, one-le-pow, mod-lt, mod-add-div, add-mul-mod_self_left, add-mul-div_left,
  div-eq_of_lt, mod-eq_of_lt, mul_comm, mul-le-mul_right, add-mul, pow-le-pow_right,
  mul-lt-mul_of_pos_left,
}
use prime_pool_deprecated.Common.{
  ℕ, zero, suc, ◌+◌, ◌-◌, ◌*◌, ◌/◌, ◌%◌, ◌^◌, ◌<◌, ◌≤◌, ◌≡◌, refl, sym, ap, ◌∙◌, ◌++◌, [], ◌∷◌,
  true, false, arith, length, ltb, append_assoc, length-append, All-append, replicate,
  set-append_length, get_or-append_length,
}
use prime_pool_deprecated.Common.Bits.{bit_or_disjoint}
use prime_pool_deprecated.Bytes.{u32}
use prime_pool_deprecated.Uint.Words.{Words}
use prime_pool_deprecated.Uint.Words.Value.{Fits, value, modulus, modulus-suc, modulus_zero}
use prime_pool_deprecated.Uint.Words.Shift.{or_at}

pub pow-add : (b m n : ℕ) → b ^ (m + n) ≡ b ^ m * b ^ n
pow-add b zero n = let same : 0 + n ≡ n = omega arith in rw (same, pow-zero b) (omega arith)
pow-add b (suc m) n =
    let next : suc m + n ≡ suc (m + n) = omega arith in
    ap (λ (k : ℕ). b ^ k) next
    ∙ pow-suc b (m + n)
    ∙ ap (λ (k : ℕ). k * b) (pow-add b m n)
    ∙ rw (pow-suc b m) (grind arith)

pub pow_complement : (s : ℕ) → s ≤ 32 → 2 ^ s * 2 ^ (32 - s) ≡ 2 ^ 32
pow_complement s h =
    let all : s + (32 - s) ≡ 32 = omega arith in
    sym (pow-add 2 s (32 - s)) ∙ ap (λ (n : ℕ). 2 ^ n) all

pub two_pow_pos : (s : ℕ) → 0 < 2 ^ s
two_pow_pos s = one-le-pow s 2 (omega arith)

-- A product with p and a rest below p, cut at p * q.
module _ (p q n : ℕ) (whole : p * q ≡ n) (low : 0 < p) (high : 0 < q) where
  pub parts_bound : (w c : ℕ) → c < p → c + w % q * p < n
  parts_bound w c h = omega (
    arith,
    mul-le-mul_right {m = w % q + 1} {n = q} p (omega (arith, mod-lt w high)),
    add-mul (w % q) 1 p,
    mul_comm p q,
    whole,
  )

  parts_sum : (w c : ℕ) → c + w * p ≡ c + w % q * p + n * (w / q)
  parts_sum w c =
      let cut : w * p ≡ (w % q + q * (w / q)) * p = ap (λ (k : ℕ). k * p) (sym (mod-add-div w q)) in
      let high_part : q * (w / q) * p ≡ n * (w / q) = rw (sym whole) (grind arith) in
      omega (arith, cut, add-mul (w % q) (q * (w / q)) p, high_part)

  positive : 0 < n
  positive = omega (arith, parts_bound 0 0 low)

  pub parts_div : (w c : ℕ) → c < p → (c + w * p) / n ≡ w / q
  parts_div w c h =
      ap (λ (k : ℕ). k / n) (parts_sum w c)
      ∙ add-mul-div_left (c + w % q * p) (w / q) positive
      ∙ rw (div-eq_of_lt (parts_bound w c h)) (omega arith)

  pub parts_mod : (w c : ℕ) → c < p → (c + w * p) % n ≡ c + w % q * p
  parts_mod w c h =
      ap (λ (k : ℕ). k % n) (parts_sum w c)
      ∙ add-mul-mod_self_left (c + w % q * p) n (w / q)
      ∙ mod-eq_of_lt (parts_bound w c h)

-- The two parts meet in one word, which has no bit of both.
pub or_parts :
    (a b w c : ℕ)
    → 2 ^ a * 2 ^ b ≡ 2 ^ 32
    → c < 2 ^ a
    → bit_or c (u32 (w * 2 ^ a)) ≡ c + w % 2 ^ b * 2 ^ a
or_parts a b w c whole h =
    let cut =
      parts_mod (2 ^ a) (2 ^ b) (2 ^ 32) whole (two_pow_pos a) (two_pow_pos b) w 0
        (two_pow_pos a) in
    let high : u32 (w * 2 ^ a) ≡ w % 2 ^ b * 2 ^ a = omega (arith, cut) in
    ap (bit_or c) high ∙ bit_or_disjoint a c (w % 2 ^ b) h

pub or_at-append :
    (front ys : Words) (i j v : ℕ)
    → i ≡ length front + j
    → or_at i v (front ++ ys) ≡ front ++ or_at j v ys
unfolding or_at
or_at-append front ys i j v e =
    rw (e, get_or-append_length front ys j 0) (set-append_length front ys j _)

-- A word that has its lower part already is completed.
pub or_at_complete :
    (a b w c i : ℕ) (front t : Words)
    → 2 ^ a * 2 ^ b ≡ 2 ^ 32
    → c < 2 ^ a
    → i ≡ length front
    → or_at i (u32 (w * 2 ^ a)) (front ++ c ∷ t) ≡ (front ++ (c + w % 2 ^ b * 2 ^ a) ∷ []) ++ t
unfolding or_at
or_at_complete a b w c i front t whole h e =
    or_at-append front (c ∷ t) i 0 (u32 (w * 2 ^ a)) (omega arith)
    ∙ ap (λ (x : ℕ). front ++ x ∷ t) (or_parts a b w c whole h)
    ∙ sym (append_assoc front ((c + w % 2 ^ b * 2 ^ a) ∷ []) t)

pub inside :
    (front ys : Words) (i : ℕ) → i < length front + length ys → ltb i (length (front ++ ys)) ≡ true
inside front ys i h = ground (arith, length-append front ys)

pub outside :
    (front ys : Words) (i : ℕ) → length front + length ys ≤ i → ltb i (length (front ++ ys)) ≡ false
outside front ys i h = ground (arith, length-append front ys)

pub two_pow_le : (s : ℕ) → s < 32 → 2 ^ s ≤ 2 ^ 32
two_pow_le s h = let below : s ≤ 32 = omega arith in pow-le-pow_right {n = 2} (omega arith) below

pub modulus-add : (k m : ℕ) → modulus (k + m) ≡ modulus k * modulus m
unfolding modulus
modulus-add k m = pow-add (2 ^ 32) k m

two_pow-words : (k : ℕ) → 2 ^ (32 * k) ≡ modulus k
two_pow-words zero = sym modulus_zero
two_pow-words (suc k) =
    let next : 32 * suc k ≡ 32 + 32 * k = omega arith in
    ap (λ (n : ℕ). 2 ^ n) next ∙ pow-add 2 32 (32 * k) ∙ rw (two_pow-words k, modulus-suc k) refl

-- A shift by n bits is one by n / 32 words and n % 32 bits.
pub two_pow_split : (n : ℕ) → 2 ^ n ≡ modulus (n / 32) * 2 ^ (n % 32)
two_pow_split n =
    let parts : n ≡ 32 * (n / 32) + n % 32 = omega arith in
    ap (λ (n : ℕ). 2 ^ n) parts
    ∙ pow-add 2 (32 * (n / 32)) (n % 32)
    ∙ ap (λ (m : ℕ). m * 2 ^ (n % 32)) (two_pow-words (n / 32))

pub scale_mod : (k a b : ℕ) → 0 < k → 0 < b → k * (a % b) ≡ (k * a) % (k * b)
scale_mod k a b hk hb =
    let whole : k * a ≡ k * (a % b) + k * b * (a / b) =
      ap (λ (n : ℕ). k * n) (sym (mod-add-div a b)) ∙ grind arith in
    let low : k * (a % b) < k * b = mul-lt-mul_of_pos_left (mod-lt a hb) hk in
    sym (
      ap (λ (n : ℕ). n % (k * b)) whole
      ∙ add-mul-mod_self_left (k * (a % b)) (k * b) (a / b)
      ∙ mod-eq_of_lt low)

pub value-append : (xs ys : Words) → value (xs ++ ys) ≡ value xs + modulus (length xs) * value ys
unfolding value
value-append [] ys = rw modulus_zero (omega arith)
value-append (x ∷ xs) ys =
    rw (value-append xs ys, modulus-suc (length xs))
      (cut (value xs) (modulus (length xs)) (value ys))
  where
    cut : (a m b : ℕ) → x + 2 ^ 32 * (a + m * b) ≡ x + 2 ^ 32 * a + 2 ^ 32 * m * b
    cut a m b = grind arith

pub append-Fits : (k m : ℕ) (xs ys : Words) → Fits k xs → Fits m ys → Fits (k + m) (xs ++ ys)
append-Fits k m xs ys (h, e) (h', e') =
    (All-append (λ w. w < 2 ^ 32) xs ys h h', omega (arith, length-append xs ys))

pub zeros_append :
    (k m : ℕ) → ◌≡◌ {A = Words} (replicate (k + m) 0) (replicate k 0 ++ replicate m 0)
zeros_append zero m = let same : 0 + m ≡ m = omega arith in rw same refl
zeros_append (suc k) m =
    let next : suc k + m ≡ suc (k + m) = omega arith in rw next (ap (◌∷◌ 0) (zeros_append k m))
