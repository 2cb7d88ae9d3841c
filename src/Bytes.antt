-- ===== src/Bytes.antt =====
-- The byte streams of src/util.h. A byte is a number below 256, an `unsigned int` one below
-- 2 ^ 32, a `uint64` one below 2 ^ 64; a `std::vector<unsigned char>` and a `std::string` are
-- lists of bytes. A `double` that is only carried is its 64-bit pattern.
pub mod RoundTrip
mod Tests
use Prim.Native.Nat.{bit_or}
use prime_pool_deprecated.Common.{
  ℕ, ◌+◌, ◌*◌, ◌/◌, ◌%◌, ◌^◌, ◌<◌, List, [], ◌∷◌, ◌++◌, ltb, if◌then◌else◌, length, get_or, drop,
}

abbrev pub IsByte : ℕ → Type 0
IsByte b = b < 256

abbrev pub IsU32 : ℕ → Type 0
IsU32 n = n < 2 ^ 32

abbrev pub IsU64 : ℕ → Type 0
IsU64 n = n < 2 ^ 64

abbrev pub u8 : ℕ → ℕ
u8 n = n % 2 ^ 8

abbrev pub u32 : ℕ → ℕ
u32 n = n % 2 ^ 32

abbrev pub u64 : ℕ → ℕ
u64 n = n % 2 ^ 64

unfoldable pub uint2bytes : ℕ → List ℕ
uint2bytes n = u8 (n / 2 ^ 24) ∷ u8 (n / 2 ^ 16) ∷ u8 (n / 2 ^ 8) ∷ u8 n ∷ []

-- Too short a vector reads as 0.
unfoldable pub bytes2uint : List ℕ → ℕ → ℕ
bytes2uint bytes offset =
    if ltb (length bytes) (offset + 4)
    then 0
    else u32 (
        get_or bytes offset 0 * 2 ^ 24
        + get_or bytes (offset + 1) 0 * 2 ^ 16
        + get_or bytes (offset + 2) 0 * 2 ^ 8
        + get_or bytes (offset + 3) 0)

-- The low half first, each half with its most significant byte first.
unfoldable pub uint2bytes64 : ℕ → List ℕ
unfolding uint2bytes
uint2bytes64 n = uint2bytes (u32 n) ++ uint2bytes (u32 (n / 2 ^ 32))

unfoldable pub bytes2uint64 : List ℕ → ℕ → ℕ
unfolding bytes2uint
bytes2uint64 bytes offset =
    bit_or (bytes2uint bytes offset) (bytes2uint bytes (offset + 4) * 2 ^ 32)

unfoldable pub string2bytes : List ℕ → List ℕ
string2bytes s = s

unfoldable pub bytes2string : List ℕ → ℕ → List ℕ
bytes2string bytes offset = drop offset bytes

unfoldable pub double2bytes : ℕ → List ℕ
double2bytes pattern = uint2bytes64 pattern

unfoldable pub bytes2double : List ℕ → ℕ
bytes2double bytes = bytes2uint64 bytes 0
