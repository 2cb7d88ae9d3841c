-- ===== src/Uint/Words/Tests.antt =====
-- Concrete runs of `base_uint` (src/hash/uint1024.h) on three words.
use Prim.Native.Nat.{bit_and, bit_or, bit_xor}
use prime_pool_deprecated.Common.{
  ◌+◌, ◌-◌, ◌*◌, ◌/◌, ◌%◌, ◌^◌, ◌≡◌, refl, [], ◌∷◌, arith, ltb, leb, ◌==◌,
}
use prime_pool_deprecated.Uint.{get_bytes}
use prime_pool_deprecated.Uint.Words.{
  Words, add_carry, add, increment, decrement, negate, subtract, add_u64, subtract_u64, less,
  less_equal, greater, greater_equal, equal, word_bytes,
}
use prime_pool_deprecated.Uint.Words.Value.{IsWords, Fits, value, modulus}
use prime_pool_deprecated.Uint.Words.Modular.{
  Is, arithmetic_lem, compare_lem, add_u64_lem, shift_lem, word_bytes-get_bytes,
}
use prime_pool_deprecated.Uint.Words.Shift.{shift_left, shift_right}
use prime_pool_deprecated.Uint.Words.Bitwise.{exclusive_or, both_of, either_of}
use prime_pool_deprecated.Uint.Words.Bitwise.Value.{bitwise_lem}
use prime_pool_deprecated.Uint.Words.Hex.{after_spaces, after_prefix, digits_of, get_hex, set_hex}
use prime_pool_deprecated.Uint.Words.Hex.Reading.{hex_number, set_hex_lem}
use prime_pool_deprecated.Uint.Words.Hex.RoundTrip.{set_hex-get_hex}

abbrev carried : Words
carried = 4294967295 ∷ 4294967295 ∷ 7 ∷ []

abbrev one : Words
one = 1 ∷ 0 ∷ 0 ∷ []

carried-IsWords : IsWords carried
carried-IsWords = (omega arith, (omega arith, (omega arith, tt)))

one-IsWords : IsWords one
one-IsWords = (omega arith, (omega arith, (omega arith, tt)))

carry_test : (add carried one ≡ 0 ∷ 0 ∷ 8 ∷ []) × (increment carried ≡ 0 ∷ 0 ∷ 8 ∷ [])
unfolding add add_carry increment
carry_test = (refl, refl)

arithmetic_lem_example :
    Is 3 ((value carried + value one) % modulus 3) (add carried one)
    × Is 3 ((value carried + (modulus 3 - value one)) % modulus 3) (subtract carried one)
    × Is 3 ((modulus 3 - value carried) % modulus 3) (negate carried)
    × Is 3 ((value carried + 1) % modulus 3) (increment carried)
    × Is 3 ((value carried + modulus 3 - 1) % modulus 3) (decrement carried)
arithmetic_lem_example = arithmetic_lem carried one carried-IsWords one-IsWords refl

compare_lem_example :
    (less carried one ≡ ltb (value carried) (value one))
    × (less_equal carried one ≡ leb (value carried) (value one))
    × (greater carried one ≡ ltb (value one) (value carried))
    × (greater_equal carried one ≡ leb (value one) (value carried))
    × (equal carried one ≡ (value carried == value one))
compare_lem_example = compare_lem carried one carried-IsWords one-IsWords refl

add_u64_lem_example :
    Is 3 ((value carried + 2 ^ 40) % modulus 3) (add_u64 carried (2 ^ 40))
    × Is 3 ((value carried + (modulus 3 - 2 ^ 40)) % modulus 3) (subtract_u64 carried (2 ^ 40))
add_u64_lem_example = add_u64_lem carried (2 ^ 40) carried-IsWords (omega arith) (omega arith)

word_bytes-get_bytes_test : word_bytes carried ≡ get_bytes 3 (value carried)
word_bytes-get_bytes_test = word_bytes-get_bytes carried carried-IsWords

shift_lem_example :
    Is 3 ((value carried * 2 ^ 36) % modulus 3) (shift_left 36 carried)
    × Is 3 (value carried / 2 ^ 36) (shift_right 36 carried)
shift_lem_example = shift_lem 36 carried carried-IsWords

bitwise_lem_example :
    ((value (exclusive_or carried one) ≡ bit_xor (value carried) (value one))
      × Fits 3 (exclusive_or carried one))
    × ((value (both_of carried one) ≡ bit_and (value carried) (value one))
        × Fits 3 (both_of carried one))
    × ((value (either_of carried one) ≡ bit_or (value carried) (value one))
        × Fits 3 (either_of carried one))
bitwise_lem_example = bitwise_lem carried one carried-IsWords one-IsWords refl

-- " 0X1fG"
set_hex_lem_example :
    (value (set_hex 3 (32 ∷ 48 ∷ 88 ∷ 49 ∷ 102 ∷ 71 ∷ []))
      ≡ hex_number (digits_of (after_prefix (after_spaces (32 ∷ 48 ∷ 88 ∷ 49 ∷ 102 ∷ 71 ∷ []))))
        % modulus 3)
    × Fits 3 (set_hex 3 (32 ∷ 48 ∷ 88 ∷ 49 ∷ 102 ∷ 71 ∷ []))
set_hex_lem_example = set_hex_lem 3 (32 ∷ 48 ∷ 88 ∷ 49 ∷ 102 ∷ 71 ∷ [])

set_hex-get_hex_example :
    (set_hex 3 (get_hex carried) ≡ carried) × (set_hex 3 (48 ∷ 120 ∷ get_hex carried) ≡ carried)
set_hex-get_hex_example = set_hex-get_hex carried carried-IsWords
