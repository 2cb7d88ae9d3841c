-- ===== src/Record/Tests.antt =====
-- Concrete runs of the records.
use prime_pool_deprecated.Common.{◌≡◌, [], ◌∷◌, some, arith}
use prime_pool_deprecated.Common.Order.{bytes_order}
use prime_pool_deprecated.Coinbase.{new_coinbase}
use prime_pool_deprecated.Record.{
  Account, serialize_account, deserialize_account, Block, serialize_block, deserialize_block,
}
use prime_pool_deprecated.Record.RoundTrip.{
  reread, deserialize_account-serialize_account, deserialize_block-serialize_block,
}

abbrev alice : Account
alice = record { key = 65 ∷ []; account_balance = 5000000; round_shares = 12; blocks_found = 1 }

-- One output of 40 with a fee of 2, and one credit of 7.
abbrev mined : Block
mined = record {
  key = 123456789;
  coinbase_value = 42;
  coinbase = record new_coinbase {
    max_value = 40;
    current_value = 40;
    pool_fee = 2;
    outputs = (65 ∷ [], 40) ∷ [];
  };
  credits = (66 ∷ [], 7) ∷ [];
  round = 3;
}

deserialize_account-serialize_account_test :
    deserialize_account (serialize_account alice) ≡ some alice
deserialize_account-serialize_account_test =
    deserialize_account-serialize_account alice
      (record { balance_fits = omega arith; shares_fit = omega arith; blocks_fit = omega arith })

deserialize_block-serialize_block_example :
    deserialize_block (serialize_block mined) ≡ some (record mined { coinbase = reread mined })
deserialize_block-serialize_block_example = deserialize_block-serialize_block mined (record {
  value_fits = omega arith;
  round_fits = omega arith;
  key_fits = omega arith;
  outputs = record {
    sorted = (tt, tt);
    few = omega arith;
    each = ((omega arith, omega arith), tt);
  };
  fee_fits = omega arith;
  payout_fits = omega arith;
  credits = record {
    sorted = (tt, tt);
    few = omega arith;
    each = ((omega arith, omega arith), tt);
  };
})
