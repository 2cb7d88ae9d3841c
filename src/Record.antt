-- ===== src/Record.antt =====
-- The records of src/LLD/record.h: an account under its address, a block under its hash.
pub mod RoundTrip
mod Tests
use prime_pool_deprecated.Common.{
  ℕ, ◌+◌, ◌-◌, List, [], ◌∷◌, ◌++◌, Option, none, some, leb, ltb, if◌then◌else◌, length, take, drop,
}
use prime_pool_deprecated.Bytes.{
  u32, uint2bytes, bytes2uint, uint2bytes64, bytes2uint64, string2bytes, bytes2string,
}
use prime_pool_deprecated.Uint.{get_bytes, set_bytes}
use prime_pool_deprecated.Coinbase.{
  Address, Amounts, Coinbase, new_coinbase, serialize, deserialize, serialize_credits,
  deserialize_credits,
}

pub record Account : Type 0 where
  pub key : Address
  pub account_balance : ℕ
  pub round_shares : ℕ
  pub blocks_found : ℕ

-- `Account(strKey)`; the blank constructor has the empty key.
abbrev pub new_account : Address → Account
new_account key = record { key = key; account_balance = 0; round_shares = 0; blocks_found = 0 }

unfoldable pub serialize_account : Account → List ℕ
serialize_account a =
    uint2bytes64 a.account_balance
    ++ (uint2bytes64 a.round_shares ++ (uint2bytes a.blocks_found ++ string2bytes a.key))

-- A stream shorter than its numbers is read past its end in the source: `none`.
pub deserialize_account : List ℕ → Option Account
deserialize_account bytes =
    if ltb (length bytes) 20
    then none
    else some (record {
      account_balance = bytes2uint64 bytes 0;
      round_shares = bytes2uint64 bytes 8;
      blocks_found = bytes2uint bytes 16;
      key = bytes2string bytes 20;
    })

pub record Block : Type 0 where
  pub key : ℕ
  pub coinbase_value : ℕ
  pub coinbase : Coinbase
  pub credits : Amounts
  pub round : ℕ

-- `Block(nKey)`; the blank constructor has the key 0.
abbrev pub new_block : ℕ → Block
new_block key = record {
  key = key;
  coinbase_value = 0;
  coinbase = new_coinbase;
  credits = [];
  round = 0;
}

pub serialize_block : Block → List ℕ
serialize_block b =
    let coinbase = serialize b.coinbase in
    uint2bytes64 b.coinbase_value
    ++ (uint2bytes (u32 (length coinbase))
        ++ (coinbase
            ++ (serialize_credits b.credits ++ (uint2bytes b.round ++ get_bytes 32 b.key))))

-- The block from its parts, if all of them can be read.
assemble : ℕ → Option Coinbase → Option Amounts → ℕ → Option ℕ → Option Block
assemble value (some coinbase) (some credits) round (some key) = some (record {
  key = key;
  coinbase_value = value;
  coinbase = coinbase;
  credits = credits;
  round = round;
})
assemble value coinbase credits round key = none

-- The parts of the stream: `vInputData.end() - 132` and the like are counted from the end, and a
-- range that is not one is undefined in the source.
pub deserialize_block : List ℕ → Option Block
unfolding assemble
deserialize_block bytes =
    let value = bytes2uint64 bytes 0 in
    let n = bytes2uint bytes 8 in
    let last = length bytes - 132 in
    if ltb (length bytes) (n + 12 + 132)
    then none
    else assemble value (deserialize (take n (drop 12 bytes)) value new_coinbase)
        (deserialize_credits (take (last - (n + 12)) (drop (n + 12) bytes)) [])
        (bytes2uint (take 4 (drop last bytes)) 0) (set_bytes 32 (drop (last + 4) bytes))
