-- ===== src/Uint/Words/Hex.antt =====
-- The hexadecimal strings of `base_uint` (src/hash/uint1024.h). The words lie in memory with the lowest
-- byte of each first; a string is the list of its characters, without a zero among them.
pub mod Memory
pub mod Reading
pub mod RoundTrip
mod Tests
use Prim.Native.Nat.{bit_or}
use mathlib.Core.List.{reverse}
use prime_pool_deprecated.Common.{
  ℕ, zero, suc, ◌+◌, ◌-◌, ◌*◌, ◌/◌, ◌%◌, ◌^◌, Bool, not, ◌&&◌, ◌||◌, List, [], ◌∷◌, leb, ltb, ◌==◌,
  if◌then◌else◌, length, replicate,
}
use prime_pool_deprecated.Bytes.{u8}
use prime_pool_deprecated.Base58.{is_space}
use prime_pool_deprecated.Uint.Words.{Words}

-- The bytes of `pn` in memory, and the words that lie there.
pub memory : Words → List ℕ
memory [] = []
memory (w ∷ ws) =
    w % 2 ^ 8 ∷ w / 2 ^ 8 % 2 ^ 8 ∷ w / 2 ^ 16 % 2 ^ 8 ∷ w / 2 ^ 24 % 2 ^ 8 ∷ memory ws

pub of_memory : List ℕ → Words
of_memory (a ∷ b ∷ c ∷ d ∷ bytes) = (a + b * 2 ^ 8 + c * 2 ^ 16 + d * 2 ^ 24) ∷ of_memory bytes
of_memory bytes = []

-- `%02x` of each byte.
abbrev pub hex_char : ℕ → ℕ
hex_char d = if ltb d 10 then 48 + d else 87 + d

pub print_bytes : List ℕ → List ℕ
print_bytes [] = []
print_bytes (b ∷ bytes) = hex_char (b / 16) ∷ hex_char (b % 16) ∷ print_bytes bytes

-- `GetHex`
pub get_hex : Words → List ℕ
unfolding memory print_bytes
get_hex ws = print_bytes (reverse (memory ws))

-- `phexdigit`
pub hex_digit : ℕ → ℕ
hex_digit c =
    if leb 48 c && leb c 57
    then c - 48
    else (if leb 65 c && leb c 70 then c - 55 else (if leb 97 c && leb c 102 then c - 87 else 0))

pub is_hex : ℕ → Bool
unfolding hex_digit
is_hex c = not (hex_digit c == 0) || c == 48

-- `SetHex`: the spaces, the prefix and the digits at the front.
pub after_spaces : List ℕ → List ℕ
after_spaces [] = []
after_spaces (c ∷ cs) = let rest = after_spaces cs in if is_space c then rest else c ∷ cs

pub after_prefix : List ℕ → List ℕ
after_prefix (z ∷ x ∷ cs) = if z == 48 && (x == 120 || x == 88) then cs else z ∷ x ∷ cs
after_prefix cs = cs

pub digits_of : List ℕ → List ℕ
unfolding is_hex
digits_of [] = []
digits_of (c ∷ cs) = let rest = digits_of cs in if is_hex c then c ∷ rest else []

-- The digits from the last on fill so many bytes of `pn`, which is 0 before.
pub fill : ℕ → List ℕ → List ℕ
unfolding hex_digit
fill zero ds = []
fill (suc n) [] = replicate (suc n) 0
fill (suc n) (d ∷ []) = hex_digit d ∷ replicate n 0
fill (suc n) (d ∷ e ∷ ds) = bit_or (hex_digit d) (u8 (hex_digit e * 2 ^ 4)) ∷ fill n ds

pub set_hex : ℕ → List ℕ → Words
unfolding of_memory fill digits_of after_prefix after_spaces
set_hex width text =
    of_memory (fill (4 * width) (reverse (digits_of (after_prefix (after_spaces text)))))

-- The constructor from a vector of bytes, which is 0 if the vector has another size.
pub of_vector : ℕ → List ℕ → Words
unfolding of_memory
of_vector width bytes = if length bytes == 4 * width then of_memory bytes else replicate width 0
