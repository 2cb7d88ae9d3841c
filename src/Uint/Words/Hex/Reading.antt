-- ===== src/Uint/Words/Hex/Reading.antt =====
-- What `SetHex` (src/hash/uint1024.h) reads: the number of the digits at the front.
use Prim.Native.Nat.{bit_or}
use native.Mathlib.Nat.{mod-one, pow-zero, pow-suc, zero-mod, one-le-pow}
use mathlib.Core.List.{reverse, reverse-cons}
use prime_pool_deprecated.Common.{
  ℕ, zero, suc, ◌+◌, ◌*◌, ◌%◌, ◌^◌, ◌<◌, ◌≡◌, refl, sym, ap, ◌∙◌, List, [], ◌∷◌, ◌++◌, arith,
  length, replicate, length-append,
}
use prime_pool_deprecated.Common.Bits.{bit_or_disjoint}
use prime_pool_deprecated.Bytes.{u8}
use prime_pool_deprecated.Uint.Words.Value.{Fits, value, modulus, modulus-suc, modulus_zero}
use prime_pool_deprecated.Uint.Words.Shift.Parts.{pow-add}
use prime_pool_deprecated.Uint.Words.Hex.{
  hex_digit, after_spaces, after_prefix, digits_of, fill, set_hex,
}
use prime_pool_deprecated.Uint.Words.Hex.Memory.{IsBytes, byte_value, value-of_memory, low_digit}

-- The number that a string of digits stands for, each at its place.
abbrev pub hex_number : List ℕ → ℕ
hex_number [] = 0
hex_number (c ∷ cs) = hex_digit c * 16 ^ length cs + hex_number cs

-- The digits from the last on.
abbrev number_back : List ℕ → ℕ
number_back [] = 0
number_back (d ∷ ds) = hex_digit d + 16 * number_back ds

number_back-append :
    (xs : List ℕ) (c : ℕ)
    → number_back (xs ++ c ∷ []) ≡ number_back xs + hex_digit c * 16 ^ length xs
number_back-append [] c = rw (pow-zero 16) (omega arith)
number_back-append (x ∷ xs) c =
    let next : hex_digit c * 16 ^ suc (length xs) ≡ 16 * (hex_digit c * 16 ^ length xs) =
      rw (pow-suc 16 (length xs)) (grind arith) in
    omega (arith, number_back-append xs c, next)

length-reverse : (cs : List ℕ) → length (reverse cs) ≡ length cs
length-reverse [] = refl
length-reverse (c ∷ cs) =
    ap (λ (xs : List ℕ). length xs) (reverse-cons c cs)
    ∙ omega (arith, length-append (reverse cs) (c ∷ []), length-reverse cs)

number_back-reverse : (cs : List ℕ) → number_back (reverse cs) ≡ hex_number cs
number_back-reverse [] = refl
number_back-reverse (c ∷ cs) =
    ap number_back (reverse-cons c cs)
    ∙ number_back-append (reverse cs) c
    ∙ rw (number_back-reverse cs, length-reverse cs) (omega arith)

pub hex_digit_bound : (c : ℕ) → hex_digit c < 16
unfolding hex_digit
hex_digit_bound c = ground arith

pub two_digits : (d e : ℕ) → d < 16 → e < 16 → bit_or d (u8 (e * 2 ^ 4)) ≡ d + 16 * e
two_digits d e h h' =
    let fits : u8 (e * 2 ^ 4) ≡ e * 2 ^ 4 = omega arith in
    rw fits (omega (arith, bit_or_disjoint 4 d e h))

zeros_value :
    (n : ℕ)
    → IsBytes (replicate n 0)
      × (length (replicate {A = ℕ} n 0) ≡ n)
      × (byte_value (replicate n 0) ≡ 0)
zeros_value zero = (tt, refl, refl)
zeros_value (suc n) =
    let (wide, many, none_set) = zeros_value n in
    ((omega arith, wide), omega (arith, many), omega (arith, none_set))

byte_pow_pos : (n : ℕ) → 0 < (2 ^ 8) ^ n
byte_pow_pos n = one-le-pow n (2 ^ 8) (omega arith)

next_byte : (n : ℕ) → (2 ^ 8) ^ suc n ≡ 2 ^ 8 * (2 ^ 8) ^ n
next_byte n = omega (arith, pow-suc (2 ^ 8) n)

fill_lem :
    (n : ℕ) (ds : List ℕ)
    → IsBytes (fill n ds)
      × (length (fill n ds) ≡ n)
      × (byte_value (fill n ds) ≡ number_back ds % (2 ^ 8) ^ n)
unfolding fill
fill_lem zero ds = (tt, refl, sym (mod-one (number_back ds)))
fill_lem (suc n) [] =
    let (wide, many, none_set) = zeros_value (suc n) in
    (wide, many, none_set ∙ sym (zero-mod ((2 ^ 8) ^ suc n)))
fill_lem (suc n) (d ∷ []) =
    let (wide, many, none_set) = zeros_value n in
    let low = hex_digit_bound d in
    let cut = low_digit (hex_digit d) (2 ^ 8) 0 ((2 ^ 8) ^ n) (omega arith) (byte_pow_pos n) in
    let total : hex_digit d + 2 ^ 8 * byte_value (replicate n 0)
        ≡ number_back (d ∷ []) % (2 ^ 8) ^ suc n =
      rw (none_set, next_byte n) (omega (arith, cut, zero-mod ((2 ^ 8) ^ n))) in
    ((omega arith, wide), omega (arith, many), total)
fill_lem (suc n) (d ∷ e ∷ ds) =
    let (wide, many, same) = fill_lem n ds in
    let low = hex_digit_bound d in
    let high = hex_digit_bound e in
    let join = two_digits (hex_digit d) (hex_digit e) low high in
    let cut =
      low_digit (hex_digit d + 16 * hex_digit e) (2 ^ 8) (number_back ds) ((2 ^ 8) ^ n)
        (omega arith) (byte_pow_pos n) in
    let total : number_back (d ∷ e ∷ ds) ≡ hex_digit d + 16 * hex_digit e + 2 ^ 8 * number_back ds =
      omega arith in
    ((omega arith, wide), omega (arith, many), rw (join, same, next_byte n, total) (sym cut))

byte_modulus : (width : ℕ) → (2 ^ 8) ^ (4 * width) ≡ modulus width
byte_modulus zero = sym modulus_zero
byte_modulus (suc width) =
    let next : 4 * suc width ≡ 4 + 4 * width = omega arith in
    ap (λ (n : ℕ). (2 ^ 8) ^ n) next
    ∙ pow-add (2 ^ 8) 4 (4 * width)
    ∙ rw (byte_modulus width, modulus-suc width) refl

-- SetHex gives words of the width that stand for the number of the hexadecimal digits that
-- follow the spaces and a prefix 0x, modulo 2 ^ 32 to the width.
pub set_hex_lem :
    (width : ℕ) (text : List ℕ)
    → (value (set_hex width text)
        ≡ hex_number (digits_of (after_prefix (after_spaces text))) % modulus width)
      × Fits width (set_hex width text)
unfolding set_hex
set_hex_lem width text =
    let cs = digits_of (after_prefix (after_spaces text)) in
    let (wide, many, same) = fill_lem (4 * width) (reverse cs) in
    let (total, fits) = value-of_memory width (fill (4 * width) (reverse cs)) many wide in
    (total ∙ same ∙ rw (number_back-reverse cs, byte_modulus width) refl, fits)
