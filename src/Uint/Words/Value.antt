-- ===== src/Uint/Words/Value.antt =====
-- What the words of `base_uint` (src/hash/uint1024.h) stand for, and the sums on it.
use native.Mathlib.Nat.{
  pow-suc, mod-eq_of_lt, mod-lt, add-mul-mod_self_left, mod-add-div, add-mod_right, add-mod-mod,
}
use prime_pool_deprecated.Common.{
  ℕ, zero, suc, ◌+◌, ◌-◌, ◌*◌, ◌/◌, ◌%◌, ◌^◌, ◌<◌, ◌≤◌, ◌≡◌, refl, sym, ap, ◌∙◌, inl, inr, [], ◌∷◌,
  arith, ◌==◌, length, All, replicate, Bool-cases,
}
use prime_pool_deprecated.Bytes.{u32, u64}
use prime_pool_deprecated.Uint.Words.{
  Words, complement, of_u64, add_carry, add, increment, decrement, negate, subtract,
}

-- The words are 32 bits wide.
abbrev pub IsWords : Words → Type 0
IsWords ws = All (λ w. w < 2 ^ 32) ws

-- The number of the words.
unfoldable pub value : Words → ℕ
value [] = 0
value (w ∷ ws) = w + 2 ^ 32 * value ws

-- One more than the largest number of so many words.
unfoldable pub modulus : ℕ → ℕ
modulus width = (2 ^ 32) ^ width

pub modulus-suc : (width : ℕ) → modulus (suc width) ≡ 2 ^ 32 * modulus width
unfolding modulus
modulus-suc width = omega (arith, pow-suc (2 ^ 32) width)

pub modulus_zero : modulus 0 ≡ 1
unfolding modulus
modulus_zero = refl

pub modulus_positive : (width : ℕ) → 0 < modulus width
modulus_positive zero = omega (arith, modulus_zero)
modulus_positive (suc width) = omega (arith, modulus-suc width, modulus_positive width)

pub value_bound : (ws : Words) → IsWords ws → value ws < modulus (length ws)
unfolding value
value_bound [] h = modulus_positive 0
value_bound (w ∷ ws) (h, hs) = omega (arith, value_bound ws hs, modulus-suc (length ws))

-- A remainder by a product, from the lowest word on.
mod_by_words : (y m : ℕ) → 0 < m → y % (2 ^ 32 * m) ≡ y % 2 ^ 32 + 2 ^ 32 * (y / 2 ^ 32 % m)
mod_by_words y m h =
    let low : y % 2 ^ 32 + 2 ^ 32 * (y / 2 ^ 32 % m) < 2 ^ 32 * m =
      omega (arith, mod-lt (y / 2 ^ 32) h) in
    ap (λ n. n % (2 ^ 32 * m))
      (split (y / 2 ^ 32 % m) (y / 2 ^ 32 / m) (mod-add-div (y / 2 ^ 32) m))
    ∙ add-mul-mod_self_left (y % 2 ^ 32 + 2 ^ 32 * (y / 2 ^ 32 % m)) (2 ^ 32 * m) (y / 2 ^ 32 / m)
    ∙ mod-eq_of_lt low
  where
    split : (r t : ℕ) → r + m * t ≡ y / 2 ^ 32 → y ≡ y % 2 ^ 32 + 2 ^ 32 * r + 2 ^ 32 * m * t
    split r t e = omega (arith, e)

-- The sum of a word and of higher ones, as a remainder.
pub word_sum :
    (n x m : ℕ)
    → 0 < m
    → n % 2 ^ 32 + 2 ^ 32 * ((n / 2 ^ 32 + x) % m) ≡ (n + 2 ^ 32 * x) % (2 ^ 32 * m)
word_sum n x m h =
    let quotient : (n + 2 ^ 32 * x) / 2 ^ 32 ≡ n / 2 ^ 32 + x = omega arith in
    let low : (n + 2 ^ 32 * x) % 2 ^ 32 ≡ n % 2 ^ 32 = omega arith in
    sym (mod_by_words (n + 2 ^ 32 * x) m h ∙ rw (quotient, low) refl)

-- A loop with a carry adds modulo (2 ^ 32) ^ width.
pub value-add_carry :
    (carry : ℕ) (vs ws : Words)
    → carry ≤ 1
    → IsWords vs
    → IsWords ws
    → length vs ≡ length ws
    → (value (add_carry carry vs ws) ≡ (carry + value vs + value ws) % modulus (length vs))
      × IsWords (add_carry carry vs ws)
      × (length (add_carry carry vs ws) ≡ length vs)
unfolding add_carry value
value-add_carry carry [] [] hc hv hw e = (omega (arith, modulus_zero), tt, refl)
value-add_carry carry (v ∷ vs) [] hc hv hw e = absurd (omega (arith, e))
value-add_carry carry [] (w ∷ ws) hc hv hw e = absurd (omega (arith, e))
value-add_carry carry (v ∷ vs) (w ∷ ws) hc (v32, hv) (w32, hw) e =
    let n = carry + v + w in
    let fits : u64 n ≡ n = omega arith in
    let (sum, wide, same) =
      value-add_carry (n / 2 ^ 32) vs ws (omega arith) hv hw (omega (arith, e)) in
    rw fits (
      rw (sum, modulus-suc (length vs), high n (value vs) (value ws), total n (value vs) (value ws))
          (word_sum n (value vs + value ws) (modulus (length vs)) (modulus_positive (length vs))),
      (omega arith, wide),
      omega (arith, same),
    )
  where
    high : (n x y : ℕ) → n / 2 ^ 32 + x + y ≡ n / 2 ^ 32 + (x + y)
    high n x y = omega arith

    total :
        (n x y : ℕ) → carry + (v + 2 ^ 32 * x) + (w + 2 ^ 32 * y) ≡ carry + v + w + 2 ^ 32 * (x + y)
    total n x y = omega arith

-- What an operation keeps: words of 32 bits, as many as there were.
abbrev pub Fits : ℕ → Words → Type 0
Fits width ws = IsWords ws × (length ws ≡ width)

value-complement :
    (ws : Words)
    → IsWords ws
    → (value (complement ws) + value ws + 1 ≡ modulus (length ws))
      × Fits (length ws) (complement ws)
unfolding complement value
value-complement [] h = (omega (arith, modulus_zero), (tt, refl))
value-complement (w ∷ ws) (h, hs) =
    let (total, (wide, same)) = value-complement ws hs in
    (omega (arith, total, modulus-suc (length ws)), ((omega arith, wide), omega (arith, same)))

carry_step :
    (w x m : ℕ)
    → 0 < m
    → w + 1 ≡ 2 ^ 32
    → 0 + 2 ^ 32 * ((x + 1) % m) ≡ (w + 2 ^ 32 * x + 1) % (2 ^ 32 * m)
carry_step w x m h e =
    ap (λ n. 0 + 2 ^ 32 * (n % m)) (omega arith)
    ∙ word_sum (2 ^ 32) x m h
    ∙ ap (λ n. n % (2 ^ 32 * m)) (omega arith)

borrow_step :
    (x m : ℕ)
    → 0 < m
    → 2 ^ 32 - 1 + 2 ^ 32 * ((x + m - 1) % m) ≡ (0 + 2 ^ 32 * x + 2 ^ 32 * m - 1) % (2 ^ 32 * m)
borrow_step x m h =
    ap (λ n. 2 ^ 32 - 1 + 2 ^ 32 * (n % m)) (omega arith)
    ∙ word_sum (2 ^ 32 - 1) (x + m - 1) m h
    ∙ ap (λ n. n % (2 ^ 32 * m)) (omega arith)

stay_below :
    (w x m : ℕ) → w + 1 < 2 ^ 32 → x < m → w + 1 + 2 ^ 32 * x ≡ (w + 2 ^ 32 * x + 1) % (2 ^ 32 * m)
stay_below w x m h hx =
    let below : w + 2 ^ 32 * x + 1 < 2 ^ 32 * m = omega arith in
    omega arith ∙ sym (mod-eq_of_lt below)

stay_above :
    (w x m : ℕ)
    → 0 < w
    → w < 2 ^ 32
    → x < m
    → w - 1 + 2 ^ 32 * x ≡ (w + 2 ^ 32 * x + 2 ^ 32 * m - 1) % (2 ^ 32 * m)
stay_above w x m pos h hx =
    let below : w - 1 + 2 ^ 32 * x < 2 ^ 32 * m = omega arith in
    sym (mod-eq_of_lt below)
    ∙ sym (add-mod_right (w - 1 + 2 ^ 32 * x) (2 ^ 32 * m))
    ∙ ap (λ n. n % (2 ^ 32 * m)) (omega arith)

pub value-increment :
    (ws : Words)
    → IsWords ws
    → (value (increment ws) ≡ (value ws + 1) % modulus (length ws))
      × Fits (length ws) (increment ws)
unfolding increment value
value-increment [] h = (omega (arith, modulus_zero), (tt, refl))
value-increment (w ∷ ws) (h, hs) =
    let (next, (wide, same)) = value-increment ws hs in
    elim (Bool-cases (u32 (w + 1) == 0)) [
      | inl carried ↦ rw carried (
        rw (next, modulus-suc (length ws))
            (carry_step w (value ws) (modulus (length ws)) (modulus_positive (length ws))
              (ground (arith, carried))),
        ((omega arith, wide), omega (arith, same)),
      )
      | inr stays ↦ rw stays (
        rw (modulus-suc (length ws)) (
            ap (λ n. n + 2 ^ 32 * value ws) (ground (arith, stays))
            ∙ stay_below w (value ws) (modulus (length ws)) (ground (arith, stays))
                (value_bound ws hs)),
        ((omega arith, hs), refl),
      )
    ]

pub value-decrement :
    (ws : Words)
    → IsWords ws
    → (value (decrement ws) ≡ (value ws + modulus (length ws) - 1) % modulus (length ws))
      × Fits (length ws) (decrement ws)
unfolding decrement value
value-decrement [] h = (omega (arith, modulus_zero), (tt, refl))
value-decrement (w ∷ ws) (h, hs) =
    let (next, (wide, same)) = value-decrement ws hs in
    elim (Bool-cases (u32 (w + (2 ^ 32 - 1)) == 2 ^ 32 - 1)) [
      | inl borrowed ↦
          let bottom : w ≡ 0 = ground (arith, borrowed) in
          rw borrowed (
            rw (modulus-suc (length ws), next, bottom)
                (borrow_step (value ws) (modulus (length ws)) (modulus_positive (length ws))),
            ((omega arith, wide), omega (arith, same)),
          )
      | inr stays ↦ rw stays (
        rw (modulus-suc (length ws)) (
            ap (λ n. n + 2 ^ 32 * value ws) (ground (arith, stays))
            ∙ stay_above w (value ws) (modulus (length ws)) (ground (arith, stays)) h
                (value_bound ws hs)),
        ((omega arith, hs), refl),
      )
    ]

pub value-negate :
    (ws : Words)
    → IsWords ws
    → (value (negate ws) ≡ (modulus (length ws) - value ws) % modulus (length ws))
      × Fits (length ws) (negate ws)
unfolding negate
value-negate ws h =
    let (total, (wide, same)) = value-complement ws h in
    let (next, (wide', same')) = value-increment (complement ws) wide in
    (
      next ∙ rw same (ap (λ n. n % modulus (length ws)) (omega (arith, total))),
      (wide', same' ∙ same),
    )

pub value-add :
    (vs ws : Words)
    → IsWords vs
    → IsWords ws
    → length vs ≡ length ws
    → (value (add vs ws) ≡ (value vs + value ws) % modulus (length vs))
      × Fits (length vs) (add vs ws)
unfolding add
value-add vs ws hv hw e =
    let (sum, wide, same) = value-add_carry 0 vs ws (omega arith) hv hw e in
    (sum ∙ ap (λ n. n % modulus (length vs)) (omega arith), (wide, same))

pub value-subtract :
    (vs ws : Words)
    → IsWords vs
    → IsWords ws
    → length vs ≡ length ws
    → (value (subtract vs ws) ≡ (value vs + (modulus (length vs) - value ws)) % modulus (length vs))
      × Fits (length vs) (subtract vs ws)
unfolding subtract
value-subtract vs ws hv hw e =
    let (minus, (wide, same)) = value-negate ws hw in
    let (sum, (wide', same')) = value-add vs (negate ws) hv wide (e ∙ sym same) in
    (
      sum
          ∙ rw (minus, sym e)
              (add-mod-mod (value vs) (modulus (length vs) - value ws) (modulus (length vs))),
      (wide', same'),
    )

pub value-zeros : (n : ℕ) → (value (replicate n 0) ≡ 0) × Fits n (replicate n 0)
unfolding value
value-zeros zero = (refl, (tt, refl))
value-zeros (suc n) =
    let (none_left, (wide, same)) = value-zeros n in
    (omega (arith, none_left), ((omega arith, wide), omega (arith, same)))

pub value-of_u64 :
    (width b : ℕ)
    → 2 ≤ width
    → b < 2 ^ 64
    → (value (of_u64 width b) ≡ b) × Fits width (of_u64 width b)
unfolding of_u64 value
value-of_u64 width b h fits =
    let (none_left, (wide, same)) = value-zeros (width - 2) in
    (omega (arith, none_left), ((omega arith, (omega arith, wide)), omega (arith, same)))
