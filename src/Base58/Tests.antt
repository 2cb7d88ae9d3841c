-- ===== src/Base58/Tests.antt =====
-- Concrete addresses, with a checksum that does not depend on the bytes.
use prime_pool_deprecated.Common.{ℕ, ◌≡◌, refl, true, false, List, [], ◌∷◌, some, arith}
use prime_pool_deprecated.Base58.{
  reverse, to_digits, count_leading, encode_base58, decode_base58, Base58Data, set_string,
  to_string, address_is_valid, skip_spaces, decode_loop, index_of, get_vch, trim_sign,
}
use prime_pool_deprecated.Base58.RoundTrip.{decode_base58-encode_base58, set_string-to_string}

abbrev constant : List ℕ → List ℕ
constant bytes = 1 ∷ 2 ∷ 3 ∷ 200 ∷ []

-- "11LZ" is 0, 0 and 1134.
text_test : decode_base58 (32 ∷ 49 ∷ 49 ∷ 76 ∷ 90 ∷ 10 ∷ []) ≡ some (0 ∷ 0 ∷ 4 ∷ 110 ∷ [])
unfolding decode_base58 skip_spaces decode_loop index_of get_vch trim_sign to_digits reverse
    count_leading
text_test = refl

decode_base58-encode_base58_example :
    decode_base58 (encode_base58 (0 ∷ 0 ∷ 255 ∷ 1 ∷ [])) ≡ some (0 ∷ 0 ∷ 255 ∷ 1 ∷ [])
decode_base58-encode_base58_example =
    decode_base58-encode_base58 (0 ∷ 0 ∷ 255 ∷ 1 ∷ [])
      (omega arith, (omega arith, (omega arith, (omega arith, tt))))

abbrev address : Base58Data constant
address = record { version = 42; content = 7 ∷ 255 ∷ [] }

set_string-to_string_example : set_string constant (to_string constant address) ≡ (true, address)
set_string-to_string_example =
    set_string-to_string constant address (omega arith, (omega arith, (omega arith, tt)))
      (omega arith, (omega arith, (omega arith, (omega arith, tt)))) refl

short_test : address_is_valid constant false address ≡ false
unfolding address_is_valid
short_test = refl
