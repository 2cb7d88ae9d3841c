-- ===== src/Uint/Words/Hex/Tests.antt =====
-- Runs of `GetHex` and `SetHex` (src/hash/uint1024.h).
use prime_pool_deprecated.Common.{◌≡◌, refl, [], ◌∷◌}
use prime_pool_deprecated.Uint.Words.Hex.{get_hex, set_hex}

get_hex_test :
    get_hex (0xab ∷ 0x1002 ∷ [])
    ≡ 48 ∷ 48 ∷ 48 ∷ 48 ∷ 49 ∷ 48 ∷ 48 ∷ 50 ∷ 48 ∷ 48 ∷ 48 ∷ 48 ∷ 48 ∷ 48 ∷ 97 ∷ 98 ∷ []
unfolding get_hex
get_hex_test = refl

-- " 0xABc"
set_hex_test : set_hex 2 (32 ∷ 48 ∷ 120 ∷ 65 ∷ 66 ∷ 99 ∷ []) ≡ 0xabc ∷ 0 ∷ []
unfolding set_hex
set_hex_test = refl
