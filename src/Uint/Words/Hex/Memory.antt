-- ===== src/Uint/Words/Hex/Memory.antt =====
-- The words of `base_uint` (src/hash/uint1024.h) as the bytes of their memory.
use native.Mathlib.Nat.{mod-lt, mod-add-div, add-mul-mod_self_left, mod-eq_of_lt, mul-le-mul_left}
use prime_pool_deprecated.Common.{
  ℕ, zero, suc, ◌+◌, ◌*◌, ◌/◌, ◌%◌, ◌^◌, ◌<◌, ◌≤◌, ◌≡◌, refl, sym, ap, ◌∙◌, List, [], ◌∷◌, arith,
  length, All, ◌==◌, true,
}
use prime_pool_deprecated.Uint.Words.{Words}
use prime_pool_deprecated.Uint.Words.Value.{IsWords, Fits, value}
use prime_pool_deprecated.Uint.Words.Hex.{memory, of_memory, of_vector}

abbrev pub IsBytes : List ℕ → Type 0
IsBytes bytes = All (λ (b : ℕ). b < 2 ^ 8) bytes

-- The number of the bytes, the lowest first.
abbrev pub byte_value : List ℕ → ℕ
byte_value [] = 0
byte_value (b ∷ bytes) = b + 2 ^ 8 * byte_value bytes

pub memory-IsBytes :
    (ws : Words) → IsWords ws → IsBytes (memory ws) × (length (memory ws) ≡ 4 * length ws)
unfolding memory
memory-IsBytes [] h = (tt, refl)
memory-IsBytes (w ∷ ws) (h, hs) =
    let (wide, many) = memory-IsBytes ws hs in
    ((omega arith, (omega arith, (omega arith, (omega arith, wide)))), omega (arith, many))

pub of_memory-memory : (ws : Words) → IsWords ws → of_memory (memory ws) ≡ ws
unfolding memory of_memory
of_memory-memory [] h = refl
of_memory-memory (w ∷ ws) (h, hs) =
    rw (of_memory-memory ws hs) (ap (λ (v : ℕ). v ∷ ws) (omega arith))

-- The constructor from a vector reads the memory of a number.
pub of_vector-memory : (ws : Words) → IsWords ws → of_vector (length ws) (memory ws) ≡ ws
unfolding of_vector
of_vector-memory ws h =
    let same : (length (memory ws) == 4 * length ws) ≡ true =
      ground (arith, (memory-IsBytes ws h).1) in
    rw same (of_memory-memory ws h)

pub value-of_memory :
    (width : ℕ) (bytes : List ℕ)
    → length bytes ≡ 4 * width
    → IsBytes bytes
    → (value (of_memory bytes) ≡ byte_value bytes) × Fits width (of_memory bytes)
unfolding of_memory value
value-of_memory zero [] e h = (refl, (tt, refl))
value-of_memory zero (b ∷ bytes) e h = absurd (omega arith)
value-of_memory (suc width) [] e h = absurd (omega arith)
value-of_memory (suc width) (a ∷ []) e h = absurd (omega arith)
value-of_memory (suc width) (a ∷ b ∷ []) e h = absurd (omega arith)
value-of_memory (suc width) (a ∷ b ∷ c ∷ []) e h = absurd (omega arith)
value-of_memory (suc width) (a ∷ b ∷ c ∷ d ∷ bytes) e (ha, (hb, (hc, (hd, h)))) =
    let (same, (wide, many)) = value-of_memory width bytes (omega arith) h in
    (omega (arith, same), ((omega arith, wide), omega (arith, many)))

-- A remainder by a product is taken of the higher digits only.
pub low_digit : (x b n m : ℕ) → x < b → 0 < m → (x + b * n) % (b * m) ≡ x + b * (n % m)
low_digit x b n m h hm =
    let whole : x + b * n ≡ x + b * (n % m) + b * m * (n / m) =
      ap (λ (k : ℕ). x + b * k) (sym (mod-add-div n m)) ∙ grind arith in
    let last : b * (n % m + 1) ≤ b * m = mul-le-mul_left b (omega (arith, mod-lt n hm)) in
    let spread : b * (n % m + 1) ≡ b * (n % m) + b = grind arith in
    let low : x + b * (n % m) < b * m = omega (arith, last, spread) in
    ap (λ (k : ℕ). k % (b * m)) whole
    ∙ add-mul-mod_self_left (x + b * (n % m)) (b * m) (n / m)
    ∙ mod-eq_of_lt low
