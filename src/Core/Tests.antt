-- ===== src/Core/Tests.antt =====
-- Concrete runs of the accounting, with doubles replaced by fractions.
use prime_pool_deprecated.Common.{
  ℕ, ◌+◌, ◌-◌, ◌*◌, ◌/◌, ◌^◌, ◌≤◌, ◌<◌, ◌≡◌, refl, true, false, [], ◌∷◌, some, arith, max,
}
use prime_pool_deprecated.Common.Order.{bytes_order, ℕ_order}
use prime_pool_deprecated.Common.StdMap.{lookup}
use prime_pool_deprecated.Bytes.{u32, u64}
use prime_pool_deprecated.Coinbase.{Address, Coinbase, new_coinbase, amount_at, is_complete}
use prime_pool_deprecated.Coinbase.Balance.{total_amount}
use prime_pool_deprecated.Record.{Account, Block, new_block}
use prime_pool_deprecated.Database.{get_keys, get_record, update_record}
use prime_pool_deprecated.Core.{
  Floats, Core, clear_shares, weight_loop, total_weight, pay_bonus, build_coinbase,
}
use prime_pool_deprecated.Core.Accounts.{
  Accounts, IsAccounts, map_accounts, total_balance, clear_shares-map, total_weight-total,
}
use prime_pool_deprecated.Core.Payout.{build_coinbase_complete}
use prime_pool_deprecated.Core.Payout.Bounds.{build_coinbase-owed, pay_bonus_wraps}
use prime_pool_deprecated.Core.Reward.{
  Settlement, credit, net_reward, finder_bonus, share_credit, settle_all, settlement,
}
use prime_pool_deprecated.Core.Reward.Settle.{earned, settle_account, total_earned, settle_all_lem}
use prime_pool_deprecated.Core.Reward.Conserve.{IsPart, total_charged, credit_lem, settlement-total}
use prime_pool_deprecated.Core.Orphan.{refund_payouts}
use prime_pool_deprecated.Core.Orphan.Refund.{balance_at, refund_payouts-balance, refund_twice}

-- Fractions, rounded down.
abbrev fractions : Floats
fractions = record {
  F = ℕ × ℕ;
  of_u64 = λ n. (n, 1);
  mul = λ x y. (x.0 * y.0, x.1 * y.1);
  div = λ x y. (x.0 * y.1, x.1 * y.0);
  sub = λ x y. (x.0 * y.1 - y.0 * x.1, x.1 * y.1);
  to_u64 = λ x. u64 (x.0 / x.1);
  to_u32 = λ x. u32 (x.0 / x.1);
  bonus_rate = (2, 100);
}

abbrev alice : Address
alice = 65 ∷ []

abbrev bob : Address
bob = 66 ∷ []

abbrev alice_account : Account
alice_account = record { key = alice; account_balance = 500; round_shares = 30; blocks_found = 1 }

abbrev bob_account : Account
bob_account = record { key = bob; account_balance = 200; round_shares = 10; blocks_found = 0 }

abbrev two_accounts : Accounts
two_accounts = (alice, alice_account) ∷ (bob, bob_account) ∷ []

-- Alice was paid 400 by the coinbase, Bob 100.
abbrev orphan : Block
orphan = record (new_block 77) {
  coinbase_value = 500;
  coinbase = record new_coinbase { outputs = (alice, 400) ∷ (bob, 100) ∷ [] };
  credits = (alice, 50) ∷ [];
  round = 2;
}

abbrev pool : Core
pool = record {
  account_db = two_accounts;
  block_db = (77, orphan) ∷ [];
  coinbase = record new_coinbase {
    max_value = 400;
    current_value = 400;
    outputs = (alice, 300) ∷ (bob, 100) ∷ [];
  };
  best_height = 1000;
  round_reward = 1000;
  current_round = 3;
  hash_block_submission = 78;
  last_blockfinder = alice;
  coinbase_pending = false;
  new_round = false;
  submitting_block = false;
  stats = [];
}

two_accounts-IsAccounts : IsAccounts two_accounts
two_accounts-IsAccounts = record { sorted = ((refl, tt), (tt, tt)); keyed = (refl, (refl, tt)) }

build_coinbase_complete_example :
    let c = build_coinbase 1000 20 alice (bob ∷ alice ∷ []) two_accounts new_coinbase in
    (is_complete c ≡ true)
    × (total_amount c.outputs + c.pool_fee ≡ 1000)
    × (c.max_value ≡ 980)
    × (c.pool_fee ≡ 20)
unfolding get_record
build_coinbase_complete_example =
    build_coinbase_complete 1000 20 alice (bob ∷ alice ∷ []) two_accounts new_coinbase (omega arith)
      (omega arith) (omega arith, (omega arith, tt))

build_coinbase-owed_example :
    amount_at bob
      (build_coinbase 1000 20 alice (bob ∷ alice ∷ []) two_accounts new_coinbase).outputs
    ≤ 200
unfolding get_record
build_coinbase-owed_example =
    build_coinbase-owed bob 1000 20 alice (bob ∷ alice ∷ []) two_accounts new_coinbase
      (ground arith) (omega arith) (omega arith) (omega arith, (omega arith, tt))

-- A reward of 5000 million with 2000 million paid to Bob.
abbrev rich : Coinbase
rich = record {
  current_value = 2000000000;
  max_value = 5000000000;
  pool_fee = 0;
  outputs = (bob, 2000000000) ∷ [];
}

pay_bonus_wraps_example :
    (amount_at alice (pay_bonus alice rich).outputs ≡ 2 ^ 64 - (2 ^ 32 - 3000000000))
    × (5000000000 < amount_at alice (pay_bonus alice rich).outputs)
    × (is_complete (pay_bonus alice rich) ≡ false)
pay_bonus_wraps_example =
    pay_bonus_wraps alice rich 3000000000
      (record { sorted = (tt, tt); counted = refl; within = omega arith; fits = omega arith })
      (omega arith) (omega arith) (omega arith) (omega arith) (omega arith) refl

clear_shares-map_test :
    (clear_shares pool).account_db
    ≡ map_accounts (λ k a. record a { round_shares = 0 }) two_accounts
clear_shares-map_test = clear_shares-map pool two_accounts-IsAccounts

total_weight-total_test : total_weight two_accounts ≡ 40
total_weight-total_test = total_weight-total two_accounts two_accounts-IsAccounts (omega arith)

credit_lem_test :
    IsAccounts (credit bob 7 two_accounts)
    × (total_balance (credit bob 7 two_accounts) ≡ 707)
    × (lookup bob (credit bob 7 two_accounts) ≡ some (record bob_account { account_balance = 207 }))
credit_lem_test =
    credit_lem bob bob 7 two_accounts bob_account two_accounts-IsAccounts refl (omega arith)

abbrev fresh_settlement : Settlement
fresh_settlement = record { db = two_accounts; credits = []; total_reward = 0; stats = [] }

settle_all_lem_example :
    let s = settle_all fractions pool 40 961 (get_keys two_accounts) fresh_settlement in
    (s.db ≡ map_accounts (settle_account fractions pool 40 961) two_accounts)
    × (s.total_reward ≡ 0 + total_earned fractions pool 40 961 two_accounts)
settle_all_lem_example =
    settle_all_lem fractions pool 40 961 two_accounts fresh_settlement refl two_accounts-IsAccounts
      (omega arith, (omega arith, tt)) earns
  where
    earns : 0 + total_earned fractions pool 40 961 two_accounts < 2 ^ 64
    earns = unfold earned share_credit in omega arith

fractions-IsPart : IsPart fractions
unfolding finder_bonus
fractions-IsPart = record { bonus_le = λ n h. omega arith }

-- The bonus of 2 % of the net reward of 980 is 19.
settlement-total_example :
    let db = credit alice (finder_bonus fractions 980) two_accounts in
    total_balance (settlement fractions (2, 100) 1000 pool).db + total_charged pool db
    ≡ 700
      + finder_bonus fractions 980
      + max 961 (total_earned fractions pool (total_weight db) 961 db)
settlement-total_example =
    settlement-total fractions pool (2, 100) 1000 980 961 alice_account fractions-IsPart
      two_accounts-IsAccounts (ground arith) refl net (omega arith) left bound
  where
    net : net_reward fractions (2, 100) 1000 ≡ 980
    net = unfold net_reward in refl

    left : 961 ≡ 980 - finder_bonus fractions 980
    left = unfold finder_bonus in refl

    bound :
        let db = credit alice (finder_bonus fractions 980) two_accounts in
        700 + 980 + total_earned fractions pool (total_weight db) 961 db < 2 ^ 64
    bound =
        unfold credit finder_bonus earned share_credit total_weight weight_loop get_keys get_record
          update_record in
        omega arith

refund_payouts-balance_example :
    IsAccounts (refund_payouts 77 pool).account_db
    × (balance_at alice (refund_payouts 77 pool).account_db ≡ 850)
refund_payouts-balance_example =
    refund_payouts-balance 77 pool orphan refl alice (ground arith) two_accounts-IsAccounts (tt, tt)
      ((refl, tt), (tt, tt)) ((alice_account, refl), tt)
      ((alice_account, refl), ((bob_account, refl), tt)) (omega arith)

refund_twice_example : refund_payouts 77 (refund_payouts 77 pool) ≡ refund_payouts 77 pool
refund_twice_example = refund_twice 77 pool orphan refl refl
