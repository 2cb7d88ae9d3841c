-- ===== src/Uint/Words/Hex/RoundTrip.antt =====
-- `SetHex` reads what `GetHex` (src/hash/uint1024.h) wrote.
use mathlib.Core.List.{reverse, reverse-cons, reverse-append}
use prime_pool_deprecated.Common.{
  ℕ, ◌+◌, ◌*◌, ◌/◌, ◌%◌, ◌^◌, ◌<◌, ◌≡◌, refl, sym, ◌∙◌, true, false, ◌||◌, List, [], ◌∷◌, ◌++◌,
  arith, length, All-append, ◌==◌,
}
use prime_pool_deprecated.Base58.{is_space}
use prime_pool_deprecated.Uint.Words.{Words}
use prime_pool_deprecated.Uint.Words.Value.{IsWords}
use prime_pool_deprecated.Uint.Words.Hex.{
  memory, of_memory, hex_char, print_bytes, get_hex, hex_digit, is_hex, after_spaces, after_prefix,
  digits_of, fill, set_hex,
}
use prime_pool_deprecated.Uint.Words.Hex.Memory.{IsBytes, memory-IsBytes, of_memory-memory}
use prime_pool_deprecated.Uint.Words.Hex.Reading.{two_digits}

hex_digit-hex_char : (d : ℕ) → d < 16 → hex_digit (hex_char d) ≡ d
unfolding hex_digit
hex_digit-hex_char d h = ground arith

is_hex-hex_char : (d : ℕ) → d < 16 → is_hex (hex_char d) ≡ true
unfolding is_hex
is_hex-hex_char d h = ground (arith, hex_digit-hex_char d h)

print_bytes-append : (xs ys : List ℕ) → print_bytes (xs ++ ys) ≡ print_bytes xs ++ print_bytes ys
unfolding print_bytes
print_bytes-append [] ys = refl
print_bytes-append (x ∷ xs) ys = rw (print_bytes-append xs ys) refl

reverse-IsBytes : (bs : List ℕ) → IsBytes bs → IsBytes (reverse bs)
reverse-IsBytes [] h = tt
reverse-IsBytes (b ∷ bs) (h, hs) =
    rw (reverse-cons b bs)
      (All-append (λ (b : ℕ). b < 2 ^ 8) (reverse bs) (b ∷ []) (reverse-IsBytes bs hs) (h, tt))

-- The printed digits from the last on.
pairs : List ℕ → List ℕ
pairs [] = []
pairs (b ∷ bs) = hex_char (b % 16) ∷ hex_char (b / 16) ∷ pairs bs

reverse-print_bytes : (bs : List ℕ) → reverse (print_bytes (reverse bs)) ≡ pairs bs
unfolding print_bytes pairs
reverse-print_bytes [] = refl
reverse-print_bytes (b ∷ bs) =
    rw (reverse-cons b bs, print_bytes-append (reverse bs) (b ∷ []))
      (reverse-append (print_bytes (reverse bs)) (print_bytes (b ∷ []))
        ∙ rw (reverse-print_bytes bs) refl)

fill-pairs : (bs : List ℕ) → IsBytes bs → fill (length bs) (pairs bs) ≡ bs
unfolding fill pairs
fill-pairs [] h = refl
fill-pairs (b ∷ bs) (h, hs) =
    let low = hex_digit-hex_char (b % 16) (omega arith) in
    let high = hex_digit-hex_char (b / 16) (omega arith) in
    let whole : b % 16 + 16 * (b / 16) ≡ b = omega arith in
    rw
      (low, high, two_digits (b % 16) (b / 16) (omega arith) (omega arith), whole, fill-pairs bs hs)
      refl

digits_of-print_bytes : (bs : List ℕ) → IsBytes bs → digits_of (print_bytes bs) ≡ print_bytes bs
unfolding digits_of print_bytes
digits_of-print_bytes [] h = refl
digits_of-print_bytes (b ∷ bs) (h, hs) =
    rw
      (
        is_hex-hex_char (b / 16) (omega arith),
        is_hex-hex_char (b % 16) (omega arith),
        digits_of-print_bytes bs hs,
      )
      refl

no_space : (d : ℕ) → d < 16 → is_space (hex_char d) ≡ false
no_space d h = ground arith

no_prefix : (d : ℕ) → d < 16 → (hex_char d == 120 || hex_char d == 88) ≡ false
no_prefix d h = ground arith

plain_front :
    (bs : List ℕ) → IsBytes bs → after_prefix (after_spaces (print_bytes bs)) ≡ print_bytes bs
unfolding after_prefix after_spaces print_bytes
plain_front [] h = refl
plain_front (b ∷ bs) (h, hs) =
    let first : is_space (hex_char (b / 16)) ≡ false = no_space (b / 16) (omega arith) in
    let second = no_prefix (b % 16) (omega arith) in rw (first, second) (ground arith)

-- The string that GetHex writes for 32-bit words is read back by SetHex, with or without a
-- prefix 0x.
pub set_hex-get_hex :
    (ws : Words)
    → IsWords ws
    → (set_hex (length ws) (get_hex ws) ≡ ws) × (set_hex (length ws) (48 ∷ 120 ∷ get_hex ws) ≡ ws)
unfolding set_hex get_hex
set_hex-get_hex ws h =
    let (wide, many) = memory-IsBytes ws h in
    let bytes = reverse (memory ws) in
    let bytes-IsBytes = reverse-IsBytes (memory ws) wide in
    let read : of_memory (fill (4 * length ws) (reverse (digits_of (print_bytes bytes)))) ≡ ws =
      rw
        (
          digits_of-print_bytes bytes bytes-IsBytes,
          reverse-print_bytes (memory ws),
          sym many,
          fill-pairs (memory ws) wide,
        )
        (of_memory-memory ws h) in
    (rw (plain_front bytes bytes-IsBytes) read, read)
