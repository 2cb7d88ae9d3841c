-- ===== src/Uint/Words/Shift.antt =====
-- The shifts of `base_uint` (src/hash/uint1024.h): loops over the words of a copy that or the two
-- parts of each word into words that are 0 at first.
pub mod Parts
pub mod Left
pub mod Right
mod Tests
use Prim.Native.Nat.{bit_or}
use prime_pool_deprecated.Common.{
  ℕ, zero, suc, ◌+◌, ◌-◌, ◌*◌, ◌/◌, ◌%◌, ◌^◌, Bool, not, ◌&&◌, List, [], ◌∷◌, ltb, leb, ◌==◌,
  if◌then◌else◌, length, get_or, set, replicate,
}
use prime_pool_deprecated.Bytes.{u32}
use prime_pool_deprecated.Uint.Words.{Words}

-- `pn[i] |= v`
pub or_at : ℕ → ℕ → Words → Words
or_at i v r = set r i (bit_or (get_or r i 0) v)

-- A round of `operator<<=` for the word `i` of the copy, with `k` words and `s` bits to go, and its
-- loop from there on.
pub left_step : ℕ → ℕ → ℕ → ℕ → Words → Words
unfolding or_at
left_step k s i w r =
    let carried =
      if ltb (i + k + 1) (length r) && not (s == 0)
      then or_at (i + k + 1) (w / 2 ^ (32 - s)) r
      else r in
    if ltb (i + k) (length r) then or_at (i + k) (u32 (w * 2 ^ s)) carried else carried

pub left_loop : ℕ → ℕ → ℕ → Words → Words → Words
unfolding left_step
left_loop k s i [] r = r
left_loop k s i (w ∷ ws) r = left_loop k s (suc i) ws (left_step k s i w r)

pub shift_left : ℕ → Words → Words
unfolding left_loop
shift_left n ws = left_loop (n / 32) (n % 32) 0 ws (replicate (length ws) 0)

-- The same for `operator>>=`.
pub right_step : ℕ → ℕ → ℕ → ℕ → Words → Words
unfolding or_at
right_step k s i w r =
    let carried =
      if leb (k + 1) i && not (s == 0) then or_at (i - k - 1) (u32 (w * 2 ^ (32 - s))) r else r in
    if leb k i then or_at (i - k) (w / 2 ^ s) carried else carried

pub right_loop : ℕ → ℕ → ℕ → Words → Words → Words
unfolding right_step
right_loop k s i [] r = r
right_loop k s i (w ∷ ws) r = right_loop k s (suc i) ws (right_step k s i w r)

pub shift_right : ℕ → Words → Words
unfolding right_loop
shift_right n ws = right_loop (n / 32) (n % 32) 0 ws (replicate (length ws) 0)
