-- ===== src/Uint/Words/Shift/Tests.antt =====
-- Runs of the shifts (src/hash/uint1024.h).
use prime_pool_deprecated.Common.{◌≡◌, refl, [], ◌∷◌}
use prime_pool_deprecated.Uint.Words.Shift.{shift_left, shift_right}

shift_left_test : shift_left 36 (0x80000001 ∷ 3 ∷ 0 ∷ 0 ∷ []) ≡ 0 ∷ 16 ∷ 56 ∷ 0 ∷ []
unfolding shift_left
shift_left_test = refl

shift_right_test : shift_right 36 (0 ∷ 16 ∷ 56 ∷ 0 ∷ []) ≡ 0x80000001 ∷ 3 ∷ 0 ∷ 0 ∷ []
unfolding shift_right
shift_right_test = refl
