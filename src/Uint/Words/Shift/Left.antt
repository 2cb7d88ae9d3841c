-- ===== src/Uint/Words/Shift/Left.antt =====
-- `operator<<=` (src/hash/uint1024.h) multiplies by a power of two.
use native.Mathlib.Nat.{mod-one, mul-mod_right, mod-eq_of_lt, div-lt_iff_lt-mul}
use prime_pool_deprecated.Common.{
  ℕ, zero, suc, ◌+◌, ◌-◌, ◌*◌, ◌/◌, ◌%◌, ◌^◌, ◌<◌, ◌≤◌, ◌≡◌, refl, sym, ap, ◌∙◌, inl, inr, [], ◌∷◌,
  ◌++◌, arith, leb, true, false, not, ◌&&◌, ◌⊎◌, if◌then◌else◌, ◌==◌, length, replicate, Bool-cases,
  append_assoc, length-append,
}
use prime_pool_deprecated.Common.Bits.{zero-bit_or}
use prime_pool_deprecated.Bytes.{u32}
use prime_pool_deprecated.Uint.Words.{Words}
use prime_pool_deprecated.Uint.Words.Value.{
  IsWords, value, modulus, modulus-suc, modulus_zero, modulus_positive, word_sum, value-zeros, Fits,
}
use prime_pool_deprecated.Uint.Words.Shift.Parts.{
  pow_complement, two_pow_pos, two_pow_le, two_pow_split, modulus-add, scale_mod, value-append,
  append-Fits, zeros_append, parts_bound, parts_div, parts_mod, or_at-append, or_at-append,
  or_at_complete, inside, outside,
}
use prime_pool_deprecated.Uint.Words.Shift.{or_at, left_step, left_loop, shift_left}

-- The words still to be written: the carry first.
abbrev room : ℕ → ℕ → Words
room c zero = []
room c (suc m) = c ∷ replicate m 0

spread : ℕ → ℕ → ℕ → Words → Words
spread s c zero ws = []
spread s c (suc m) [] = c ∷ replicate m 0
spread s c (suc m) (w ∷ ws) = (c + w % 2 ^ (32 - s) * 2 ^ s) ∷ spread s (w / 2 ^ (32 - s)) m ws

left_loop_done : (k s i : ℕ) (ws r : Words) → length r ≤ i + k → left_loop k s i ws r ≡ r
unfolding left_loop left_step
left_loop_done k s i [] r h = refl
left_loop_done k s i (w ∷ ws) r h =
    let same : left_step k s i w r ≡ r = ground arith in
    ap (left_loop k s (suc i) ws) same ∙ left_loop_done k s (suc i) ws r (omega arith)

left_step_lem :
    (k s i w c m : ℕ) (front : Words)
    → s < 32
    → w < 2 ^ 32
    → c < 2 ^ s
    → length front ≡ i + k
    → left_step k s i w (front ++ room c (suc m))
      ≡ (front ++ (c + w % 2 ^ (32 - s) * 2 ^ s) ∷ []) ++ room (w / 2 ^ (32 - s)) m
unfolding left_step
left_step_lem k s i w c zero front hs hw hc e =
    rw
      (
        outside front (c ∷ []) (i + k + 1) (omega arith),
        inside front (c ∷ []) (i + k) (omega arith),
      )
      (or_at_complete s (32 - s) w c (i + k) front [] (pow_complement s (omega arith)) hc (sym e))
left_step_lem k s i w c (suc m) front hs hw hc e =
    rw
      (
        inside front (c ∷ 0 ∷ replicate m 0) (i + k + 1) (omega arith),
        inside front (c ∷ 0 ∷ replicate m 0) (i + k) (omega arith),
      )
      (ap (or_at (i + k) (u32 (w * 2 ^ s))) (carried (Bool-cases (s == 0)))
        ∙ or_at_complete s (32 - s) w c (i + k) front (w / 2 ^ (32 - s) ∷ replicate m 0)
            (pow_complement s (omega arith)) hc (sym e))
  where
    carried :
        (s == 0 ≡ true) ⊎ (s == 0 ≡ false)
        → (if true && not (s == 0)
            then or_at (i + k + 1) (w / 2 ^ (32 - s)) (front ++ c ∷ 0 ∷ replicate m 0)
            else front ++ c ∷ 0 ∷ replicate m 0)
          ≡ front ++ c ∷ w / 2 ^ (32 - s) ∷ replicate m 0
    carried (inl z) =
        let none_shifted : s ≡ 0 = ground (arith, z) in
        let all_kept : 32 - s ≡ 32 = omega (arith, none_shifted) in
        let nothing : 0 ≡ w / 2 ^ (32 - s) = rw all_kept (omega arith) in
        rw z (ap (λ (x : ℕ). front ++ c ∷ x ∷ replicate m 0) nothing)
    carried (inr z) = rw z (
        or_at-append front (c ∷ 0 ∷ replicate m 0) (i + k + 1) 1 (w / 2 ^ (32 - s)) (omega arith)
        ∙ ap (λ (x : ℕ). front ++ c ∷ x ∷ replicate m 0) (zero-bit_or (w / 2 ^ (32 - s))))

carry_bound : (s w : ℕ) → s < 32 → w < 2 ^ 32 → w / 2 ^ (32 - s) < 2 ^ s
carry_bound s w hs h =
    (div-lt_iff_lt-mul (two_pow_pos (32 - s))).1 (rw (pow_complement s (omega arith)) h)

left_loop_lem :
    (k s i c m : ℕ) (ws front : Words)
    → s < 32
    → IsWords ws
    → c < 2 ^ s
    → length front ≡ i + k
    → left_loop k s i ws (front ++ room c m) ≡ front ++ spread s c m ws
unfolding left_loop spread
left_loop_lem k s i c zero ws front hs hw hc e =
    left_loop_done k s i ws (front ++ []) (omega (arith, length-append front []))
left_loop_lem k s i c (suc m) [] front hs hw hc e = refl
left_loop_lem k s i c (suc m) (w ∷ ws) front hs (h, hw) hc e =
    let x = c + w % 2 ^ (32 - s) * 2 ^ s in
    rw (left_step_lem k s i w c m front hs h hc e) (
      left_loop_lem k s (suc i) (w / 2 ^ (32 - s)) m ws (front ++ x ∷ []) hs hw
        (carry_bound s w hs h) (omega (arith, length-append front (x ∷ []), e))
      ∙ append_assoc front (x ∷ []) (spread s (w / 2 ^ (32 - s)) m ws))

value-spread :
    (s c m : ℕ) (ws : Words)
    → s < 32
    → IsWords ws
    → c < 2 ^ s
    → value (spread s c m ws) ≡ (c + value ws * 2 ^ s) % modulus m
unfolding spread value
value-spread s c zero ws hs hw hc = rw modulus_zero (sym (mod-one (c + value ws * 2 ^ s)))
value-spread s c (suc m) [] hs hw hc =
    let fits : c < 2 ^ 32 * modulus m = omega (arith, two_pow_le s hs, modulus_positive m) in
    let small : c + 0 * 2 ^ s ≡ c = omega arith in
    rw (small, modulus-suc m, (value-zeros m).0, mod-eq_of_lt fits) (omega arith)
value-spread s c (suc m) (w ∷ ws) hs (h, hw) hc =
    let whole = pow_complement s (omega arith) in
    let p = two_pow_pos s in
    let q = two_pow_pos (32 - s) in
    let low = parts_mod (2 ^ s) (2 ^ (32 - s)) (2 ^ 32) whole p q w c hc in
    let high = parts_div (2 ^ s) (2 ^ (32 - s)) (2 ^ 32) whole p q w c hc in
    rw
      (
        sym low,
        value-spread s (w / 2 ^ (32 - s)) m ws hs hw (carry_bound s w hs h),
        sym high,
        modulus-suc m,
        word_sum (c + w * 2 ^ s) (value ws * 2 ^ s) (modulus m) (modulus_positive m),
      )
      (ap (λ (n : ℕ). n % (2 ^ 32 * modulus m)) (total (2 ^ s) (value ws)))
  where
    total : (t v : ℕ) → c + w * t + 2 ^ 32 * (v * t) ≡ c + (w + 2 ^ 32 * v) * t
    total t v = grind arith

spread-Fits : (s c m : ℕ) (ws : Words) → s < 32 → IsWords ws → c < 2 ^ s → Fits m (spread s c m ws)
unfolding spread
spread-Fits s c zero ws hs hw hc = (tt, refl)
spread-Fits s c (suc m) [] hs hw hc =
    let (none_left, (wide, same)) = value-zeros m in
    ((omega (arith, two_pow_le s hs), wide), omega (arith, same))
spread-Fits s c (suc m) (w ∷ ws) hs (h, hw) hc =
    let (wide, same) = spread-Fits s (w / 2 ^ (32 - s)) m ws hs hw (carry_bound s w hs h) in
    let whole = pow_complement s (omega arith) in
    (
      (
        parts_bound (2 ^ s) (2 ^ (32 - s)) (2 ^ 32) whole (two_pow_pos s) (two_pow_pos (32 - s)) w c
            hc,
        wide,
      ),
      omega (arith, same),
    )

-- A shift by `k` of `k + m` words.
left_within :
    (k s m : ℕ) (ws : Words)
    → s < 32
    → IsWords ws
    → length ws ≡ k + m
    → (value (left_loop k s 0 ws (replicate (length ws) 0))
        ≡ (value ws * (modulus k * 2 ^ s)) % modulus (length ws))
      × Fits (length ws) (left_loop k s 0 ws (replicate (length ws) 0))
left_within k s m ws hs hw e =
    let (none_left, zeros) = value-zeros k in
    let moved = spread-Fits s 0 m ws hs hw (two_pow_pos s) in
    let same : left_loop k s 0 ws (replicate (length ws) 0) ≡ replicate k 0 ++ spread s 0 m ws =
      ap (λ (n : ℕ). left_loop k s 0 ws (replicate n 0)) e
      ∙ ap (left_loop k s 0 ws) (zeros_append k m ∙ ap (◌++◌ (replicate k 0)) (room_zeros m))
      ∙ left_loop_lem k s 0 0 m ws (replicate k 0) hs hw (two_pow_pos s) (omega (arith, zeros.1)) in
    rw same (
      value-append (replicate k 0) (spread s 0 m ws)
          ∙ rw (none_left, zeros.1, value-spread s 0 m ws hs hw (two_pow_pos s), e, modulus-add k m)
              (number (modulus k) (value ws) (2 ^ s) (modulus m) (modulus_positive k)
                (modulus_positive m)),
      rw e (append-Fits k m (replicate k 0) (spread s 0 m ws) zeros moved),
    )
  where
    room_zeros : (m : ℕ) → replicate m 0 ≡ room 0 m
    room_zeros zero = refl
    room_zeros (suc m) = refl

    number : (a v t b : ℕ) → 0 < a → 0 < b → 0 + a * ((0 + v * t) % b) ≡ (v * (a * t)) % (a * b)
    number a v t b ha hb =
        let plain : 0 + v * t ≡ v * t = omega arith in
        let order : a * (v * t) ≡ v * (a * t) = grind arith in
        rw plain (omega (arith, scale_mod a (v * t) b ha hb, ap (λ (n : ℕ). n % (a * b)) order))

-- A shift by at least as many words as there are.
left_beyond :
    (k s m : ℕ) (ws : Words)
    → k ≡ length ws + m
    → (value (left_loop k s 0 ws (replicate (length ws) 0))
        ≡ (value ws * (modulus k * 2 ^ s)) % modulus (length ws))
      × Fits (length ws) (left_loop k s 0 ws (replicate (length ws) 0))
left_beyond k s m ws e =
    let (none_left, zeros) = value-zeros (length ws) in
    rw (left_loop_done k s 0 ws (replicate (length ws) 0) (omega (arith, zeros.1, e))) (
      none_left ∙ rw (e, modulus-add (length ws) m) (multiple (modulus (length ws)) (modulus m)),
      zeros,
    )
  where
    multiple : (a b : ℕ) → 0 ≡ (value ws * (a * b * 2 ^ s)) % a
    multiple a b =
        let whole : value ws * (a * b * 2 ^ s) ≡ a * (value ws * b * 2 ^ s) = grind arith in
        sym (ap (λ (n : ℕ). n % a) whole ∙ mul-mod_right a (value ws * b * 2 ^ s))

-- A number of 32-bit words shifted to the left is multiplied by a power of two modulo 2 ^ 32 to the
-- width.
pub value-shift_left :
    (n : ℕ) (ws : Words)
    → IsWords ws
    → (value (shift_left n ws) ≡ (value ws * 2 ^ n) % modulus (length ws))
      × Fits (length ws) (shift_left n ws)
unfolding shift_left
value-shift_left n ws hw = rw (two_pow_split n) (elim (Bool-cases (leb (n / 32) (length ws))) [
  | inl inner ↦
      left_within (n / 32) (n % 32) (length ws - n / 32) ws (omega arith) hw (ground arith)
  | inr outer ↦ left_beyond (n / 32) (n % 32) (n / 32 - length ws) ws (ground arith)
])
