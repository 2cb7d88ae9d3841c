-- ===== src/Uint/Tests.antt =====
-- Concrete runs of the byte streams of the wide integers.
use prime_pool_deprecated.Common.{◌≡◌, refl, [], ◌∷◌, ◌++◌, some, arith}
use prime_pool_deprecated.Uint.{get_bytes, set_bytes, set_bytes-get_bytes}

get_bytes_test : get_bytes 2 0x0102030405060708 ≡ 5 ∷ 6 ∷ 7 ∷ 8 ∷ 1 ∷ 2 ∷ 3 ∷ 4 ∷ []
unfolding get_bytes
get_bytes_test = refl

set_bytes-get_bytes_test :
    set_bytes 2 (get_bytes 2 0x0102030405060708 ++ 9 ∷ []) ≡ some 0x0102030405060708
set_bytes-get_bytes_test = set_bytes-get_bytes 2 0x0102030405060708 (9 ∷ []) (omega arith)
