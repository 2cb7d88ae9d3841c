-- ===== src/Base58.antt =====
-- The addresses of src/base58.h. A `CBigNum` is a number, since none is negative here; a string is
-- the list of its characters, without a zero among them. The hash `SK256` is a parameter: `checksum`
-- gives the four bytes of it that are used.
pub mod Digits
pub mod Text
pub mod RoundTrip
mod Tests
use prime_pool_deprecated.Common.{
  ℕ, zero, suc, ◌+◌, ◌-◌, ◌*◌, ◌/◌, ◌%◌, ◌≤◌, Bool, true, false, not, ◌&&◌, ◌||◌, List, [], ◌∷◌,
  ◌++◌, Option, none, some, ltb, leb, ◌==◌, if◌then◌else◌, length, get_or, take, drop, replicate,
  map,
}
use prime_pool_deprecated.Common.Order.{bytes_order}
use prime_pool_deprecated.Common.StdMap.{same_key}

-- `reverse`
pub reverse : List ℕ → List ℕ
reverse [] = []
reverse (x ∷ xs) = reverse xs ++ x ∷ []

-- `pszBase58`
abbrev pub alphabet : List ℕ
alphabet =
    49 ∷ 50 ∷ 51 ∷ 52 ∷ 53 ∷ 54 ∷ 55 ∷ 56 ∷ 57 ∷ 65 ∷ 66 ∷ 67 ∷ 68 ∷ 69 ∷ 70 ∷ 71 ∷ 72 ∷ 74 ∷ 75
    ∷ 76 ∷ 77 ∷ 78 ∷ 80 ∷ 81 ∷ 82 ∷ 83 ∷ 84 ∷ 85 ∷ 86 ∷ 87 ∷ 88 ∷ 89 ∷ 90 ∷ 97 ∷ 98 ∷ 99 ∷ 100 ∷ 101
    ∷ 102 ∷ 103 ∷ 104 ∷ 105 ∷ 106 ∷ 107 ∷ 109 ∷ 110 ∷ 111 ∷ 112 ∷ 113 ∷ 114 ∷ 115 ∷ 116 ∷ 117 ∷ 118
    ∷ 119 ∷ 120 ∷ 121 ∷ 122 ∷ []

abbrev pub char_of : ℕ → ℕ
char_of c = get_or alphabet c 0

-- `strchr`, as an index
pub index_of : ℕ → List ℕ → Option ℕ
index_of c [] = none
index_of c (a ∷ rest_of) =
    let rest = index_of c rest_of in
    if c == a then some 0 else (elim rest [ none ↦ none | some i ↦ some (suc i) ])

-- `isspace`
abbrev pub is_space : ℕ → Bool
is_space c = (c == 32) || (leb 9 c && leb c 13)

pub skip_spaces : List ℕ → List ℕ
skip_spaces [] = []
skip_spaces (c ∷ cs) = let rest = skip_spaces cs in if is_space c then rest else c ∷ cs

-- The loop of divisions by the base, the lowest digit first.
pub to_digits : ℕ → ℕ → ℕ → List ℕ
to_digits base zero n = []
to_digits base (suc rounds) n =
    let rest = n % base ∷ to_digits base rounds (n / base) in if n == 0 then [] else rest

-- The number of digits of which the lowest is the first: `setvch` for bytes.
pub of_digits : ℕ → List ℕ → ℕ
of_digits base [] = 0
of_digits base (d ∷ ds) = d + base * of_digits base ds

-- The elements at the front that are `x`.
pub count_leading : ℕ → List ℕ → ℕ
count_leading x [] = 0
count_leading x (y ∷ ys) = let rest = count_leading x ys in if y == x then suc rest else 0

-- `EncodeBase58`; the rounds of its loop are at most as many as the number.
pub encode_base58 : List ℕ → List ℕ
unfolding reverse to_digits of_digits count_leading
encode_base58 bytes =
    let n = of_digits 256 (reverse bytes) in
    reverse (map char_of (to_digits 58 n n) ++ replicate (count_leading 0 bytes) (char_of 0))

-- `getvch`: a number's bytes, with one more where the highest would be read as a sign.
pub get_vch : ℕ → List ℕ
unfolding to_digits
get_vch n =
    let bytes = to_digits 256 n n in
    if leb 128 (get_or bytes (length bytes - 1) 0) then bytes ++ 0 ∷ [] else bytes

-- `Trim off sign byte if present`
pub trim_sign : List ℕ → List ℕ
trim_sign bytes =
    let k = length bytes in
    if leb 2 k && ((get_or bytes (k - 1) 0 == 0) && leb 128 (get_or bytes (k - 2) 0))
    then take (k - 1) bytes
    else bytes

-- The loop over the characters: spaces may follow them, and nothing else.
pub decode_loop : List ℕ → ℕ → Option ℕ
unfolding skip_spaces index_of
decode_loop [] n = some n
decode_loop (c ∷ cs) n =
    let ended : Option ℕ = elim (skip_spaces (c ∷ cs)) [ [] ↦ some n | x ∷ xs ↦ none ] in
    elim (index_of c alphabet) [ none ↦ ended | some i ↦ decode_loop cs (n * 58 + i) ]

-- `DecodeBase58`
pub decode_base58 : List ℕ → Option (List ℕ)
unfolding decode_loop skip_spaces get_vch trim_sign count_leading reverse
decode_base58 text =
    let start = skip_spaces text in
    elim (decode_loop start 0) [
      | none ↦ none
      | some n ↦
          some (replicate (count_leading (char_of 0) start) 0 ++ reverse (trim_sign (get_vch n)))
    ]

module _ (checksum : List ℕ → List ℕ) where
  -- `EncodeBase58Check`
  pub encode_base58_check : List ℕ → List ℕ
  unfolding encode_base58
  encode_base58_check bytes = encode_base58 (bytes ++ checksum bytes)

  -- `DecodeBase58Check`; `none` for false.
  pub decode_base58_check : List ℕ → Option (List ℕ)
  unfolding decode_base58
  decode_base58_check text = elim (decode_base58 text) [
    | none ↦ none
    | some bytes ↦
        let front = take (length bytes - 4) bytes in
        if ltb (length bytes) 4
        then none
        else (if same_key (checksum front) (drop (length bytes - 4) bytes)
            then some front
            else none)
  ]

  -- `CBase58Data`
  pub record Base58Data : Type 0 where
    pub version : ℕ
    pub content : List ℕ

  -- `SetString`; a vector that is empty gives false.
  pub set_string : List ℕ → Bool × Base58Data
  unfolding decode_base58_check
  set_string text = elim (decode_base58_check text) [
    | none ↦ (false, record { version = 0; content = [] })
    | some bytes ↦ (elim bytes [
      | [] ↦ (false, record { version = 0; content = [] })
      | b ∷ bs ↦ (true, record { version = b; content = bs })
    ])
  ]

  -- `ToString`
  pub to_string : Base58Data → List ℕ
  unfolding encode_base58_check
  to_string a = encode_base58_check (a.version ∷ a.content)

  -- `NexusAddress::IsValid`
  pub address_is_valid : Bool → Base58Data → Bool
  address_is_valid test_net a =
      let main = (a.version == 42) || (a.version == 104) in
      let test = (a.version == 111) || (a.version == 196) in
      if main
      then (not test_net && (length a.content == 32))
      else (if test then (test_net && (length a.content == 32)) else false)
