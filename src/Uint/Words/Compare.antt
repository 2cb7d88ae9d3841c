-- ===== src/Uint/Words/Compare.antt =====
-- The comparisons of `base_uint` (src/hash/uint1024.h).
use native.Mathlib.Nat.{mul-le-mul_left}
use prime_pool_deprecated.Common.{
  ℕ, zero, suc, ◌+◌, ◌*◌, ◌^◌, ◌<◌, ◌≤◌, ◌≡◌, refl, sym, ap, ◌∙◌, inl, inr, Bool, true, false, [],
  ◌∷◌, arith, ltb, leb, ◌==◌, if◌then◌else◌, length, get_or, Bool-cases,
}
use prime_pool_deprecated.Uint.Words.{Words, less_loop, greater_loop, equal}
use prime_pool_deprecated.Uint.Words.Value.{IsWords, value, modulus, modulus-suc, modulus_zero}

-- The number of the words below `i`.
low_value : ℕ → Words → ℕ
low_value zero ws = 0
low_value (suc i) ws = low_value i ws + modulus i * get_or ws i 0

low_value_cons : (i w : ℕ) (ws : Words) → low_value (suc i) (w ∷ ws) ≡ w + 2 ^ 32 * low_value i ws
unfolding low_value
low_value_cons zero w ws = omega (arith, ap (λ m. m * w) modulus_zero)
low_value_cons (suc i) w ws =
    omega (arith, low_value_cons i w ws, ap (λ m. m * get_or ws i 0) (modulus-suc i))

low_value_all : (ws : Words) → low_value (length ws) ws ≡ value ws
unfolding value low_value
low_value_all [] = refl
low_value_all (w ∷ ws) = low_value_cons (length ws) w ws ∙ rw (low_value_all ws) refl

get_or_bound : (i : ℕ) (ws : Words) → IsWords ws → get_or ws i 0 < 2 ^ 32
get_or_bound i [] h = omega arith
get_or_bound zero (w ∷ ws) (h, hs) = h
get_or_bound (suc i) (w ∷ ws) (h, hs) = get_or_bound i ws hs

-- A higher word decides, whatever stands below.
word_decides : (x y m a b : ℕ) → x < m → a < b → x + m * a < y + m * b
word_decides x y m a b hx h =
    let product : m * suc a ≤ m * b = mul-le-mul_left m h in omega (arith, product, distributes)
  where
    distributes : m * suc a ≡ m * a + m
    distributes = omega arith

low_value_bound : (i : ℕ) (ws : Words) → IsWords ws → low_value i ws < modulus i
unfolding low_value
low_value_bound zero ws h = omega (arith, modulus_zero)
low_value_bound (suc i) ws h = omega (
  arith,
  word_decides (low_value i ws) 0 (modulus i) (get_or ws i 0) (2 ^ 32) (low_value_bound i ws h)
      (get_or_bound i ws h),
  modulus-suc i,
)

-- `<` or `<=`.
abbrev pub below : Bool → ℕ → ℕ → Bool
below tie x y = if tie then leb x y else ltb x y

below_lt : (tie : Bool) (x y : ℕ) → x < y → below tie x y ≡ true
below_lt true x y h = ground arith
below_lt false x y h = ground arith

below_gt : (tie : Bool) (x y : ℕ) → y < x → below tie x y ≡ false
below_gt true x y h = ground arith
below_gt false x y h = ground arith

below_add : (tie : Bool) (x y z : ℕ) → below tie (x + z) (y + z) ≡ below tie x y
below_add true x y z = ground arith
below_add false x y z = ground arith

less_loop-below :
    (tie : Bool) (i : ℕ) (vs ws : Words)
    → IsWords vs
    → IsWords ws
    → less_loop tie i vs ws ≡ below tie (low_value i vs) (low_value i ws)
unfolding less_loop low_value
less_loop-below true zero vs ws hv hw = refl
less_loop-below false zero vs ws hv hw = refl
less_loop-below tie (suc i) vs ws hv hw = elim (Bool-cases (ltb a b)) [
  | inl lower ↦ rw lower (
      sym (
        below_lt tie (x + m * a) (y + m * b)
          (word_decides x y m a b (low_value_bound i vs hv) (ground (arith, lower)))))
  | inr above ↦ (elim (Bool-cases (ltb b a)) [
    | inl higher ↦
        rw (above, higher)
          (sym (
            below_gt tie (x + m * a) (y + m * b)
              (word_decides y x m b a (low_value_bound i ws hw) (ground (arith, higher)))))
    | inr same ↦
        let level : b ≡ a = ground (arith, above, same) in
        rw (above, same)
          (less_loop-below tie i vs ws hv hw
            ∙ sym (below_add tie x y (m * a))
            ∙ ap (λ c. below tie (x + m * a) (y + m * c)) (sym level))
  ])
]
  where
    m : ℕ
    m = modulus i

    a : ℕ
    a = get_or vs i 0

    b : ℕ
    b = get_or ws i 0

    x : ℕ
    x = low_value i vs

    y : ℕ
    y = low_value i ws

greater_loop-less_loop :
    (tie : Bool) (i : ℕ) (vs ws : Words) → greater_loop tie i vs ws ≡ less_loop tie i ws vs
unfolding greater_loop less_loop
greater_loop-less_loop tie zero vs ws = refl
greater_loop-less_loop tie (suc i) vs ws = rw (greater_loop-less_loop tie i vs ws) refl

pub loop-below :
    (tie : Bool) (vs ws : Words)
    → IsWords vs
    → IsWords ws
    → length vs ≡ length ws
    → (less_loop tie (length vs) vs ws ≡ below tie (value vs) (value ws))
      × (greater_loop tie (length vs) vs ws ≡ below tie (value ws) (value vs))
loop-below tie vs ws hv hw e = (
  less_loop-below tie (length vs) vs ws hv hw ∙ rw (low_value_all vs, right) refl,
  greater_loop-less_loop tie (length vs) vs ws
      ∙ less_loop-below tie (length vs) ws vs hw hv
      ∙ rw (low_value_all vs, right) refl,
)
  where
    right : low_value (length vs) ws ≡ value ws
    right = ap (λ n. low_value n ws) e ∙ low_value_all ws

pub equal-value :
    (vs ws : Words)
    → IsWords vs
    → IsWords ws
    → length vs ≡ length ws
    → equal vs ws ≡ (value vs == value ws)
unfolding equal value
equal-value [] [] hv hw e = refl
equal-value [] (w ∷ ws) hv hw e = absurd (omega (arith, e))
equal-value (v ∷ vs) [] hv hw e = absurd (omega (arith, e))
equal-value (v ∷ vs) (w ∷ ws) (v32, hv) (w32, hw) e = ground (arith, equal-value vs ws hv hw, e)
