-- ===== src/Coinbase/Tests.antt =====
-- Concrete runs of the payout transaction.
use prime_pool_deprecated.Common.{◌-◌, ◌^◌, ◌≡◌, refl, [], ◌∷◌, some, arith}
use prime_pool_deprecated.Common.Int.{int_of_u64}
use prime_pool_deprecated.Common.Order.{bytes_order}
use prime_pool_deprecated.Coinbase.{
  Address, Coinbase, new_coinbase, add_amount, add_transaction, serialize, deserialize,
  serialize_credits, deserialize_credits,
}
use prime_pool_deprecated.Coinbase.Balance.{
  IsBalanced, add_transaction_accepts, add_transaction_rejects, add_transaction_wraps,
}
use prime_pool_deprecated.Coinbase.RoundTrip.{
  IsAmounts, deserialize-serialize, deserialize_credits-serialize_credits,
}

abbrev alice : Address
alice = 65 ∷ []

abbrev bob : Address
bob = 66 ∷ []

-- Alice is paid 30 of 100.
abbrev open_coinbase : Coinbase
open_coinbase = record {
  current_value = 30;
  max_value = 100;
  pool_fee = 2;
  outputs = (alice, 30) ∷ [];
}

open_coinbase-IsBalanced : IsBalanced open_coinbase
open_coinbase-IsBalanced = record {
  sorted = (tt, tt);
  counted = refl;
  within = omega arith;
  fits = omega arith;
}

two_payouts-IsAmounts : IsAmounts ((alice, 30) ∷ (bob, 70) ∷ [])
two_payouts-IsAmounts = record {
  sorted = ((refl, tt), (tt, tt));
  few = omega arith;
  each = ((omega arith, omega arith), ((omega arith, omega arith), tt));
}

add_transaction_accepts_test :
    let (c, left) = add_transaction bob 50 open_coinbase in
    IsBalanced c
    × (c.current_value ≡ 80)
    × (c.max_value ≡ 100)
    × (c.pool_fee ≡ 2)
    × (c.outputs ≡ add_amount bob 50 open_coinbase.outputs)
    × (left ≡ int_of_u64 20)
add_transaction_accepts_test =
    add_transaction_accepts bob 50 open_coinbase open_coinbase-IsBalanced (omega arith)

add_transaction_rejects_test :
    add_transaction bob 90 open_coinbase ≡ (open_coinbase, int_of_u64 (2 ^ 64 - 20))
add_transaction_rejects_test =
    add_transaction_rejects bob 90 open_coinbase open_coinbase-IsBalanced (omega arith)
      (omega arith)

add_transaction_wraps_test :
    ((add_transaction bob (2 ^ 64 - 10) open_coinbase).0.outputs
      ≡ add_amount bob (2 ^ 64 - 10) open_coinbase.outputs)
    × ((add_transaction bob (2 ^ 64 - 10) open_coinbase).0.current_value ≡ 20)
    × ((add_transaction bob (2 ^ 64 - 10) open_coinbase).0.max_value ≡ 100)
add_transaction_wraps_test =
    add_transaction_wraps bob (2 ^ 64 - 10) open_coinbase open_coinbase-IsBalanced (omega arith)
      (omega arith)

deserialize-serialize_example :
    deserialize
      (serialize (record open_coinbase { outputs = (alice, 30) ∷ (bob, 70) ∷ [] }))
      102
      new_coinbase
    ≡ some (record {
      current_value = 102;
      max_value = 102;
      pool_fee = 2;
      outputs = (alice, 30) ∷ (bob, 70) ∷ [];
    })
deserialize-serialize_example =
    deserialize-serialize (record open_coinbase { outputs = (alice, 30) ∷ (bob, 70) ∷ [] })
      two_payouts-IsAmounts (omega arith) (omega arith) 102

deserialize_credits-serialize_credits_test :
    deserialize_credits (serialize_credits ((alice, 30) ∷ (bob, 70) ∷ [])) []
    ≡ some ((alice, 30) ∷ (bob, 70) ∷ [])
deserialize_credits-serialize_credits_test =
    deserialize_credits-serialize_credits ((alice, 30) ∷ (bob, 70) ∷ []) two_payouts-IsAmounts
