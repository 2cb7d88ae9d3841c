-- ===== src/Uint/Words.antt =====
-- `base_uint` of src/hash/uint1024.h as the source keeps it: 32-bit words, the lowest first. The
-- width is the length of the list, and an operator of two operands is for two of the same width.
pub mod Value
pub mod Compare
pub mod Modular
pub mod Shift
pub mod Bitwise
pub mod Hex
mod Tests
use prime_pool_deprecated.Common.{
  ℕ, zero, suc, ◌+◌, ◌-◌, ◌*◌, ◌/◌, ◌%◌, ◌^◌, Bool, true, false, not, ◌&&◌, List, [], ◌∷◌, ltb,
  ◌==◌, if◌then◌else◌, length, get_or, replicate,
}
use prime_pool_deprecated.Bytes.{u8, u32, u64}

abbrev pub Words : Type 0
Words = List ℕ

-- `operator!`
pub is_zero : Words → Bool
is_zero [] = true
is_zero (w ∷ ws) = let rest = is_zero ws in if not (w == 0) then false else rest

-- `operator~`
pub complement : Words → Words
complement [] = []
complement (w ∷ ws) = (2 ^ 32 - 1 - w) ∷ complement ws

-- `operator=` of a `uint64`
pub of_u64 : ℕ → ℕ → Words
of_u64 width b = u32 b ∷ u32 (b / 2 ^ 32) ∷ replicate (width - 2) 0

-- The loop of `operator+=`, with its carry
pub add_carry : ℕ → Words → Words → Words
add_carry carry (v ∷ vs) (w ∷ ws) =
    u64 (carry + v + w) % 2 ^ 32 ∷ add_carry (u64 (carry + v + w) / 2 ^ 32) vs ws
add_carry carry vs ws = vs

pub add : Words → Words → Words
unfolding add_carry
add vs ws = add_carry 0 vs ws

-- `operator++`
pub increment : Words → Words
increment [] = []
increment (w ∷ ws) =
    let rest = increment ws in if u32 (w + 1) == 0 then 0 ∷ rest else u32 (w + 1) ∷ ws

-- `operator--`, which compares with -1
pub decrement : Words → Words
decrement [] = []
decrement (w ∷ ws) =
    let rest = decrement ws in
    if u32 (w + (2 ^ 32 - 1)) == 2 ^ 32 - 1
    then (2 ^ 32 - 1) ∷ rest
    else u32 (w + (2 ^ 32 - 1)) ∷ ws

-- `operator-`, and `operator-=`
pub negate : Words → Words
unfolding complement increment
negate ws = increment (complement ws)

pub subtract : Words → Words → Words
unfolding add negate
subtract vs ws = add vs (negate ws)

-- `operator+=` and `operator-=` of a `uint64`
pub add_u64 : Words → ℕ → Words
unfolding add of_u64
add_u64 vs b = add vs (of_u64 (length vs) b)

pub subtract_u64 : Words → ℕ → Words
unfolding subtract of_u64
subtract_u64 vs b = subtract vs (of_u64 (length vs) b)

-- The loops of `operator<` and `operator<=`, and of `operator>` and `operator>=`, over the words
-- below `i`, which differ in what they return at their end.
pub less_loop : Bool → ℕ → Words → Words → Bool
less_loop tie zero vs ws = tie
less_loop tie (suc i) vs ws =
    let rest = less_loop tie i vs ws in
    if ltb (get_or vs i 0) (get_or ws i 0)
    then true
    else (if ltb (get_or ws i 0) (get_or vs i 0) then false else rest)

pub greater_loop : Bool → ℕ → Words → Words → Bool
greater_loop tie zero vs ws = tie
greater_loop tie (suc i) vs ws =
    let rest = greater_loop tie i vs ws in
    if ltb (get_or ws i 0) (get_or vs i 0)
    then true
    else (if ltb (get_or vs i 0) (get_or ws i 0) then false else rest)

pub less : Words → Words → Bool
unfolding less_loop
less vs ws = less_loop false (length vs) vs ws

pub less_equal : Words → Words → Bool
unfolding less_loop
less_equal vs ws = less_loop true (length vs) vs ws

pub greater : Words → Words → Bool
unfolding greater_loop
greater vs ws = greater_loop false (length vs) vs ws

pub greater_equal : Words → Words → Bool
unfolding greater_loop
greater_equal vs ws = greater_loop true (length vs) vs ws

-- `operator==`, of two words and of a `uint64`
pub equal : Words → Words → Bool
equal (v ∷ vs) (w ∷ ws) = let rest = equal vs ws in if not (v == w) then false else rest
equal vs ws = true

pub equal_u64 : Words → ℕ → Bool
unfolding is_zero
equal_u64 (v ∷ w ∷ ws) b =
    if not (v == u32 b) then false else (if not (w == u32 (b / 2 ^ 32)) then false else is_zero ws)
equal_u64 ws b = is_zero ws

-- `GetBytes` of the words.
pub word_bytes : Words → List ℕ
word_bytes [] = []
word_bytes (w ∷ ws) = u8 (w / 2 ^ 24) ∷ u8 (w / 2 ^ 16) ∷ u8 (w / 2 ^ 8) ∷ u8 w ∷ word_bytes ws
