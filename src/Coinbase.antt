-- ===== src/Coinbase.antt =====
-- The payout transaction and the round's credits (src/coinbase.h). Addresses are byte strings,
-- values are `uint64`s with their wrap-around, and what `AddTransaction` and `GetRemainder` return
-- is an `int`. Reading a vector out of bounds is undefined in the source: `none` here.
pub mod Balance
pub mod RoundTrip
mod Tests
use prime_pool_deprecated.Common.{
  ℕ, zero, suc, ◌+◌, ◌-◌, ◌%◌, ◌^◌, Bool, not, List, [], ◌∷◌, ◌++◌, Option, none, some, ltb, ◌==◌,
  leb, if◌then◌else◌, length, get_elem?, take, drop,
}
use prime_pool_deprecated.Common.Int.{ℤ, int_of_u64}
use prime_pool_deprecated.Common.StdMap.{StdMap, has, insert, measure_at}
use prime_pool_deprecated.Common.Order.{bytes_order}
use prime_pool_deprecated.Bytes.{u8, u64, uint2bytes64, bytes2uint64, string2bytes, bytes2string}

abbrev pub Address : Type 0
Address = List ℕ

-- `std::map<std::string, uint64>`, and `m[address]` of it where the key may be missing.
abbrev pub Amounts : Type 0
Amounts = StdMap Address ℕ

abbrev pub amount_at : Address → Amounts → ℕ
amount_at = measure_at (λ v. v)

-- Difference of `uint64`s.
abbrev pub sub64 : ℕ → ℕ → ℕ
sub64 a b = (a + 2 ^ 64 - b) % 2 ^ 64

pub record Coinbase : Type 0 where
  pub current_value : ℕ
  pub max_value : ℕ
  pub pool_fee : ℕ
  pub outputs : Amounts

-- The constructor without arguments.
abbrev pub new_coinbase : Coinbase
new_coinbase = record { current_value = 0; max_value = 0; pool_fee = 0; outputs = [] }

-- `if(!m.count(address)) m[address] = 0; m[address] += value;`
pub add_amount : Address → ℕ → Amounts → Amounts
add_amount address value m =
    let m' = if not (has address m) then insert address 0 m else m in
    insert address (u64 (amount_at address m' + value)) m'

pub add_output : Address → ℕ → Coinbase → Coinbase
unfolding add_amount
add_output address value c = record c {
  outputs = add_amount address value c.outputs;
  current_value = u64 (c.current_value + value);
}

-- The new transaction and the funds that remain (negative if `value` was too much).
pub add_transaction : Address → ℕ → Coinbase → Coinbase × ℤ
unfolding add_output
add_transaction address value c =
    if ltb c.max_value (u64 (value + c.current_value))
    then (c, int_of_u64 (sub64 c.max_value (u64 (value + c.current_value))))
    else (let c' = add_output address value c in
        (c', int_of_u64 (sub64 c'.max_value c'.current_value)))

unfoldable pub get_remainder : Coinbase → ℤ
get_remainder c = int_of_u64 (sub64 c.max_value c.current_value)

unfoldable pub is_complete : Coinbase → Bool
is_complete c = c.current_value == c.max_value

unfoldable pub is_empty : Coinbase → Bool
is_empty c = c.current_value == 0

unfoldable pub reset : ℕ → Coinbase → Coinbase
reset max c = record c { max_value = max; current_value = 0; outputs = [] }

-- The loop over the outputs (and over the credits): a length byte, the address, the value.
pub serialize_amounts : Amounts → List ℕ
unfolding string2bytes
serialize_amounts [] = []
serialize_amounts ((address, value) ∷ m) =
    u8 (length (string2bytes address))
    ∷ (string2bytes address ++ (uint2bytes64 value ++ serialize_amounts m))

pub serialize : Coinbase → List ℕ
serialize c = u8 (length c.outputs) ∷ (uint2bytes64 c.pool_fee ++ serialize_amounts c.outputs)

-- One round of the reading loop at `iterator`: the length byte, the address and the value.
pub read_amount : List ℕ → ℕ → Option (ℕ × Address × ℕ)
unfolding bytes2string
read_amount bytes iterator = elim (get_elem? bytes iterator) [
  | none ↦ none
  | some n ↦
      if leb (iterator + 1 + n + 8) (length bytes)
      then some (
        n,
        bytes2string (take n (drop (iterator + 1) bytes)) 0,
        bytes2uint64 (take 8 (drop (iterator + 1 + n) bytes)) 0,
      )
      else none
]

-- `count` rounds; the result is the map and the sum of the values read.
pub read_amounts : ℕ → List ℕ → ℕ → Amounts → ℕ → Option (Amounts × ℕ)
read_amounts zero bytes iterator m sum = some (m, sum)
read_amounts (suc count) bytes iterator m sum = elim (read_amount bytes iterator) [
  | none ↦ none
  | some (n, address, value) ↦
      read_amounts count bytes (iterator + (n + 9)) (insert address value m) (u64 (sum + value))
]

pub deserialize : List ℕ → ℕ → Coinbase → Option Coinbase
deserialize bytes value c = elim (get_elem? bytes 0) [
  | none ↦ none
  | some count ↦
      (let fee = bytes2uint64 bytes 1 in
        elim (read_amounts count bytes 9 c.outputs fee) [
          | none ↦ none
          | some (m, sum) ↦
              some (record { current_value = sum; max_value = value; pool_fee = fee; outputs = m })
        ])
]

-- `Credits::AddCredit`, `Serialize` and `Deserialize`: the same loops over `mapCredits`.
pub add_credit : Address → ℕ → Amounts → Amounts
unfolding add_amount
add_credit address value m = add_amount address value m

pub serialize_credits : Amounts → List ℕ
serialize_credits m = u8 (length m) ∷ serialize_amounts m

pub deserialize_credits : List ℕ → Amounts → Option Amounts
deserialize_credits bytes m = elim (get_elem? bytes 0) [
  | none ↦ none
  | some count ↦ elim (read_amounts count bytes 1 m 0) [ none ↦ none | some (m', sum) ↦ some m' ]
]
