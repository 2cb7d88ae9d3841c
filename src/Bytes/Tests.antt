-- ===== src/Bytes/Tests.antt =====
-- Concrete runs of the byte streams of src/util.h.
use prime_pool_deprecated.Common.{◌≡◌, refl, [], ◌∷◌, ◌++◌, arith}
use prime_pool_deprecated.Bytes.{uint2bytes, uint2bytes64, bytes2uint64}
use prime_pool_deprecated.Bytes.RoundTrip.{bytes2uint64_at}

uint2bytes_test : uint2bytes 0x01020304 ≡ 1 ∷ 2 ∷ 3 ∷ 4 ∷ []
unfolding uint2bytes
uint2bytes_test = refl

uint2bytes64_test : uint2bytes64 0x0102030405060708 ≡ 5 ∷ 6 ∷ 7 ∷ 8 ∷ 1 ∷ 2 ∷ 3 ∷ 4 ∷ []
unfolding uint2bytes64
uint2bytes64_test = refl

bytes2uint64_at_test :
    bytes2uint64 ((7 ∷ 9 ∷ []) ++ (uint2bytes64 0x0102030405060708 ++ 1 ∷ [])) 2
    ≡ 0x0102030405060708
bytes2uint64_at_test = bytes2uint64_at (7 ∷ 9 ∷ []) (1 ∷ []) 0x0102030405060708 (omega arith)
