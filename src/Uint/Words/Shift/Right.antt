-- ===== src/Uint/Words/Shift/Right.antt =====
-- `operator>>=` (src/hash/uint1024.h) divides by a power of two.
use native.Mathlib.Nat.{
  zero-div, div-le_self, mod-add-div, mul-le-mul_left, mul_comm, div-lt_iff_lt-mul,
  div-div-eq-div-mul, add-mul-div_left, div-eq_of_lt,
}
use prime_pool_deprecated.Common.{
  ℕ, zero, suc, ◌+◌, ◌-◌, ◌*◌, ◌/◌, ◌%◌, ◌^◌, ◌<◌, ◌≤◌, ◌≡◌, refl, sym, ap, ◌∙◌, ◌⊎◌, inl, inr, [],
  ◌∷◌, ◌++◌, true, false, not, ◌&&◌, if◌then◌else◌, arith, leb, ◌==◌, length, take, drop,
  take-append-drop, length-take, subst, All-take, All-drop, replicate, Bool-cases, append_assoc,
  append-nil, length-append,
}
use prime_pool_deprecated.Common.Bits.{zero-bit_or}
use prime_pool_deprecated.Bytes.{u32}
use prime_pool_deprecated.Uint.Words.{Words}
use prime_pool_deprecated.Uint.Words.Value.{
  IsWords, Fits, value, modulus, modulus_positive, value_bound, value-zeros,
}
use prime_pool_deprecated.Uint.Words.Shift.Parts.{
  pow_complement, two_pow_pos, two_pow_split, modulus-add, parts_bound, or_at-append,
  or_at_complete, value-append, append-Fits,
}
use prime_pool_deprecated.Uint.Words.Shift.{or_at, right_step, right_loop, shift_right}

gather : ℕ → Words → Words
gather s [] = []
gather s (w ∷ []) = w / 2 ^ s ∷ []
gather s (v ∷ w ∷ ws) = (v / 2 ^ s + w % 2 ^ s * 2 ^ (32 - s)) ∷ gather s (w ∷ ws)

-- The words below the shift go nowhere.
right_loop_skip :
    (k s i : ℕ) (xs ws r : Words)
    → i + length xs ≤ k
    → right_loop k s i (xs ++ ws) r ≡ right_loop k s (i + length xs) ws r
unfolding right_loop right_step
right_loop_skip k s i [] ws r h = ap (λ (n : ℕ). right_loop k s n ws r) (omega arith)
right_loop_skip k s i (x ∷ xs) ws r h =
    let same : right_step k s i x r ≡ r = ground arith in
    ap (right_loop k s (suc i) (xs ++ ws)) same
    ∙ right_loop_skip k s (suc i) xs ws r (omega arith)
    ∙ ap (λ (n : ℕ). right_loop k s n ws r) (omega arith)

complement : (s : ℕ) → s < 32 → 2 ^ (32 - s) * 2 ^ s ≡ 2 ^ 32
complement s h = mul_comm (2 ^ (32 - s)) (2 ^ s) ∙ pow_complement s (omega arith)

quotient_bound : (s w : ℕ) → s < 32 → w < 2 ^ 32 → w / 2 ^ s < 2 ^ (32 - s)
quotient_bound s w hs h = (div-lt_iff_lt-mul (two_pow_pos s)).1 (rw (complement s hs) h)

right_step_lem :
    (k s i c w m : ℕ) (front : Words)
    → s < 32
    → c < 2 ^ (32 - s)
    → i ≡ k + length front + 1
    → right_step k s i w (front ++ c ∷ 0 ∷ replicate m 0)
      ≡ (front ++ (c + w % 2 ^ s * 2 ^ (32 - s)) ∷ []) ++ w / 2 ^ s ∷ replicate m 0
unfolding right_step
right_step_lem k s i c w m front hs hc e =
    let x = c + w % 2 ^ s * 2 ^ (32 - s) in
    rw (later, further)
      (ap (or_at (i - k) (w / 2 ^ s)) (carried (Bool-cases (s == 0)))
        ∙ or_at-append (front ++ x ∷ []) (0 ∷ replicate m 0) (i - k) 0 (w / 2 ^ s)
            (omega (arith, length-append front (x ∷ []), e))
        ∙ ap (λ (y : ℕ). (front ++ x ∷ []) ++ y ∷ replicate m 0) (zero-bit_or (w / 2 ^ s)))
  where
    later : leb (k + 1) i ≡ true
    later = ground arith

    further : leb k i ≡ true
    further = ground arith

    carried :
        (s == 0 ≡ true) ⊎ (s == 0 ≡ false)
        → (if true && not (s == 0)
            then or_at (i - k - 1) (u32 (w * 2 ^ (32 - s))) (front ++ c ∷ 0 ∷ replicate m 0)
            else front ++ c ∷ 0 ∷ replicate m 0)
          ≡ (front ++ (c + w % 2 ^ s * 2 ^ (32 - s)) ∷ []) ++ 0 ∷ replicate m 0
    carried (inl z) =
        let none_shifted : s ≡ 0 = ground (arith, z) in
        let nothing : c ≡ c + w % 2 ^ s * 2 ^ (32 - s) = rw none_shifted (omega arith) in
        rw z (
          ap (λ (y : ℕ). front ++ y ∷ 0 ∷ replicate m 0) nothing
          ∙ sym (append_assoc front ((c + w % 2 ^ s * 2 ^ (32 - s)) ∷ []) (0 ∷ replicate m 0)))
    carried (inr z) = rw z (
        or_at_complete (32 - s) s w c (i - k - 1) front (0 ∷ replicate m 0) (complement s hs) hc
          (omega arith))

right_loop_lem :
    (k s i v z m : ℕ) (ws front : Words)
    → s < 32
    → v < 2 ^ 32
    → IsWords ws
    → i ≡ k + length front + 1
    → m ≡ length ws + z
    → right_loop k s i ws (front ++ v / 2 ^ s ∷ replicate m 0)
      ≡ front ++ (gather s (v ∷ ws) ++ replicate z 0)
unfolding right_loop gather
right_loop_lem k s i v z m [] front hs hv hw e n =
    let same : m ≡ z = omega arith in ap (λ (n : ℕ). front ++ v / 2 ^ s ∷ replicate n 0) same
right_loop_lem k s i v z zero (w ∷ ws) front hs hv hw e n = absurd (omega arith)
right_loop_lem k s i v z (suc m) (w ∷ ws) front hs hv (h, hw) e n =
    let x = v / 2 ^ s + w % 2 ^ s * 2 ^ (32 - s) in
    rw (right_step_lem k s i (v / 2 ^ s) w m front hs (quotient_bound s v hs hv) e) (
      right_loop_lem k s (suc i) w z m ws (front ++ x ∷ []) hs h hw
        (omega (arith, length-append front (x ∷ []), e)) (omega arith)
      ∙ append_assoc front (x ∷ []) (gather s (w ∷ ws) ++ replicate z 0))

-- A quotient of a word and higher ones by a power of two below 2 ^ 32.
quotient_step :
    (p q v w y : ℕ)
    → p * q ≡ 2 ^ 32
    → 0 < p
    → 0 < q
    → v / p + w % p * q + 2 ^ 32 * ((w + 2 ^ 32 * y) / p) ≡ (v + 2 ^ 32 * (w + 2 ^ 32 * y)) / p
quotient_step p q v w y whole hp hq =
    let outer : v + 2 ^ 32 * (w + 2 ^ 32 * y) ≡ v + p * (q * (w + 2 ^ 32 * y)) =
      rw (sym whole) (grind arith) in
    let inner : w + 2 ^ 32 * y ≡ w + p * (q * y) = rw (sym whole) (grind arith) in
    let cut : q * w ≡ q * (w % p) + 2 ^ 32 * (w / p) =
      ap (λ (n : ℕ). q * n) (sym (mod-add-div w p)) ∙ rw (sym whole) (grind arith) in
    let back : q * (w + p * (q * y)) ≡ q * w + 2 ^ 32 * (q * y) = rw (sym whole) (grind arith) in
    rw (outer, add-mul-div_left v (q * (w + 2 ^ 32 * y)) hp, inner, add-mul-div_left w (q * y) hp)
      (omega (arith, back, cut, mul_comm (w % p) q))

value-gather : (s : ℕ) (ws : Words) → s < 32 → IsWords ws → value (gather s ws) ≡ value ws / 2 ^ s
unfolding gather value
value-gather s [] hs hw = sym (zero-div (2 ^ s))
value-gather s (w ∷ []) hs hw =
    let plain : w + 2 ^ 32 * 0 ≡ w = omega arith in rw plain (omega arith)
value-gather s (v ∷ w ∷ ws) hs (h, hw) = rw (value-gather s (w ∷ ws) hs hw) (
    quotient_step (2 ^ s) (2 ^ (32 - s)) v w (value ws) (pow_complement s (omega arith))
      (two_pow_pos s) (two_pow_pos (32 - s)))

gather-Fits : (s : ℕ) (ws : Words) → s < 32 → IsWords ws → Fits (length ws) (gather s ws)
unfolding gather
gather-Fits s [] hs hw = (tt, refl)
gather-Fits s (w ∷ []) hs (h, hw) = ((omega (arith, div-le_self w (2 ^ s)), tt), refl)
gather-Fits s (v ∷ w ∷ ws) hs (h, (h', hw)) =
    let (wide, same) = gather-Fits s (w ∷ ws) hs (h', hw) in
    (
      (
        parts_bound (2 ^ (32 - s)) (2 ^ s) (2 ^ 32) (complement s hs) (two_pow_pos (32 - s))
            (two_pow_pos s) w (v / 2 ^ s) (quotient_bound s v hs h),
        wide,
      ),
      omega (arith, same),
    )

right_first : (k s v m : ℕ) → right_step k s k v (0 ∷ replicate m 0) ≡ v / 2 ^ s ∷ replicate m 0
unfolding right_step
right_first k s v m =
    let early : leb (k + 1) k ≡ false = ground arith in
    let here : leb k k ≡ true = ground arith in
    rw (early, here)
      (or_at-append [] (0 ∷ replicate m 0) (k - k) 0 (v / 2 ^ s) (omega arith)
        ∙ ap (λ (y : ℕ). y ∷ replicate m 0) (zero-bit_or (v / 2 ^ s)))

-- A shift by as many words as `xs` has.
right_parts :
    (k s : ℕ) (xs ys : Words)
    → s < 32
    → IsWords ys
    → length xs ≡ k
    → right_loop k s 0 (xs ++ ys) (replicate (length (xs ++ ys)) 0)
      ≡ gather s ys ++ replicate (length xs) 0
unfolding right_loop gather
right_parts k s xs [] hs hw e =
    right_loop_skip k s 0 xs [] (replicate (length (xs ++ [])) 0) (omega (arith, e))
    ∙ ap (λ (n : ℕ). replicate n 0) (omega (arith, length-append xs []))
right_parts k s xs (v ∷ ys) hs (h, hw) e =
    let many : length (xs ++ v ∷ ys) ≡ suc (length ys + length xs) =
      omega (arith, length-append xs (v ∷ ys)) in
    let reached : 0 + length xs ≡ k = omega (arith, e) in
    right_loop_skip k s 0 xs (v ∷ ys) (replicate (length (xs ++ v ∷ ys)) 0) (omega (arith, e))
    ∙ rw (many, reached)
        (ap (right_loop k s (suc k) ys) (right_first k s v (length ys + length xs))
          ∙ right_loop_lem k s (suc k) v (length xs) (length ys + length xs) ys [] hs h hw
              (omega arith) refl)

right_within :
    (k s : ℕ) (xs ys : Words)
    → s < 32
    → IsWords xs
    → IsWords ys
    → length xs ≡ k
    → (value (right_loop k s 0 (xs ++ ys) (replicate (length (xs ++ ys)) 0))
        ≡ value (xs ++ ys) / (modulus k * 2 ^ s))
      × Fits (length (xs ++ ys)) (right_loop k s 0 (xs ++ ys) (replicate (length (xs ++ ys)) 0))
right_within k s xs ys hs hx hw e =
    let (none_left, zeros) = value-zeros (length xs) in
    let moved = gather-Fits s ys hs hw in
    let many : length (xs ++ ys) ≡ length ys + length xs = omega (arith, length-append xs ys) in
    rw (right_parts k s xs ys hs hw e) (
      value-append (gather s ys) (replicate (length xs) 0)
          ∙ rw (none_left, value-gather s ys hs hw, value-append xs ys, sym e)
              (number (value xs) (modulus (length xs)) (value ys) (modulus (length (gather s ys)))
                (value_bound xs hx) (modulus_positive (length xs))),
      rw many
          (append-Fits (length ys) (length xs) (gather s ys) (replicate (length xs) 0) moved zeros),
    )
  where
    number : (a m b n : ℕ) → a < m → 0 < m → b / 2 ^ s + n * 0 ≡ (a + m * b) / (m * 2 ^ s)
    number a m b n h hm =
        let whole : (a + m * b) / m ≡ b = add-mul-div_left a b hm ∙ omega (arith, div-eq_of_lt h) in
        let same : b / 2 ^ s ≡ (a + m * b) / (m * 2 ^ s) =
          ap (λ (x : ℕ). x / 2 ^ s) (sym whole) ∙ div-div-eq-div-mul (a + m * b) m (2 ^ s) in
        omega (arith, same)

right_beyond :
    (k s : ℕ) (ws : Words)
    → IsWords ws
    → length ws < k
    → (value (right_loop k s 0 ws (replicate (length ws) 0)) ≡ value ws / (modulus k * 2 ^ s))
      × Fits (length ws) (right_loop k s 0 ws (replicate (length ws) 0))
unfolding right_loop
right_beyond k s ws hw h =
    let (none_left, zeros) = value-zeros (length ws) in
    let empty : ws ≡ ws ++ [] = sym (append-nil ws) in
    let same : right_loop k s 0 ws (replicate (length ws) 0) ≡ replicate (length ws) 0 =
      ap (λ vs. right_loop k s 0 vs (replicate (length ws) 0)) empty
      ∙ right_loop_skip k s 0 ws [] (replicate (length ws) 0) (omega arith) in
    let split : modulus k ≡ modulus (length ws) * modulus (k - length ws) =
      ap modulus (omega arith) ∙ modulus-add (length ws) (k - length ws) in
    let low : value ws < modulus k * 2 ^ s = rw split (
      grow (value ws) (modulus (length ws)) (modulus (k - length ws)) (2 ^ s) (value_bound ws hw)
        (modulus_positive (k - length ws)) (two_pow_pos s)) in
    rw same (none_left ∙ sym (div-eq_of_lt low), zeros)
  where
    grow : (v a b p : ℕ) → v < a → 0 < b → 0 < p → v < a * b * p
    grow v a b p h hb hp =
        let factor : 1 ≤ b * p = grind arith in
        let larger : a * 1 ≤ a * (b * p) = mul-le-mul_left a factor in
        let order : a * b * p ≡ a * (b * p) = grind arith in omega (arith, larger, order)

-- A number of 32-bit words shifted to the right is divided by a power of two.
pub value-shift_right :
    (n : ℕ) (ws : Words)
    → IsWords ws
    → (value (shift_right n ws) ≡ value ws / 2 ^ n) × Fits (length ws) (shift_right n ws)
unfolding shift_right
value-shift_right n ws hw = rw (two_pow_split n) (elim (Bool-cases (leb (n / 32) (length ws))) [
  | inl inner ↦
      subst
        (λ (vs : Words).
          (value (right_loop (n / 32) (n % 32) 0 vs (replicate (length vs) 0))
            ≡ value vs / (modulus (n / 32) * 2 ^ (n % 32)))
          × Fits (length vs) (right_loop (n / 32) (n % 32) 0 vs (replicate (length vs) 0)))
        (take-append-drop (n / 32) ws)
        (right_within (n / 32) (n % 32) (take (n / 32) ws) (drop (n / 32) ws) (omega arith)
          (All-take (λ (w : ℕ). w < 2 ^ 32) (n / 32) ws hw)
          (All-drop (λ (w : ℕ). w < 2 ^ 32) (n / 32) ws hw)
          (ground (arith, length-take (n / 32) ws)))
  | inr outer ↦ right_beyond (n / 32) (n % 32) ws hw (ground arith)
])
