-- ===== src/Core.antt =====
-- The pool's shared state and its accounting (src/core.cpp, src/core.h). The globals are a record;
-- the statistics calls are a log. Doubles are a parameter, `Floats`: the accounting uses them for
-- the pool fee, the block finder's bonus and an account's part of the reward.
pub mod Accounts
pub mod Payout
pub mod Reward
pub mod Orphan
mod Tests
use prime_pool_deprecated.Common.{
  ℕ, ◌+◌, ◌-◌, ◌%◌, ◌^◌, Bool, true, false, List, [], ◌∷◌, ◌++◌, Option, none, some, ltb, ◌==◌,
  if◌then◌else◌, not,
}
use prime_pool_deprecated.Common.Int.{ℤ, is_negative, u64_of_int}
use prime_pool_deprecated.Common.Order.{bytes_order, ℕ_order}
use prime_pool_deprecated.Common.StdMap.{StdMap, lookup, has, same_key}
use prime_pool_deprecated.Bytes.{u32, u64}
use prime_pool_deprecated.Coinbase.{
  Address, Amounts, amount_at, sub64, Coinbase, add_transaction, get_remainder, is_complete, reset,
  add_credit,
}
use prime_pool_deprecated.Record.{Account, Block, new_block}
use prime_pool_deprecated.Database.{accounts, blocks, get_keys, get_record, update_record}

-- The double arithmetic that the accounting uses.
pub record Floats : Type 1 where
  pub F : Type 0
  pub of_u64 : ℕ → F
  pub mul : F → F → F
  pub div : F → F → F
  pub sub : F → F → F
  pub to_u64 : F → ℕ
  pub to_u32 : F → ℕ
  -- the literal 0.02
  pub bonus_rate : F

-- The calls of the statistics collector that the accounting makes.
pub data Stat : Type 0 where
  earning : Address → ℕ → ℕ → ℕ → ℕ → Stat
  payment : Address → ℕ → ℕ → ℕ → Stat
  delete_earnings : Address → ℕ → Stat
  delete_payment : Address → ℕ → Stat
  orphan_round : ℕ → Stat
  clear_shares_stat : Stat
  save_round : Stat

pub record Core : Type 0 where
  pub account_db : StdMap Address Account
  pub block_db : StdMap ℕ Block
  pub coinbase : Coinbase
  pub best_height : ℕ
  pub round_reward : ℕ
  pub current_round : ℕ
  pub hash_block_submission : ℕ
  pub last_blockfinder : Address
  pub coinbase_pending : Bool
  pub new_round : Bool
  pub submitting_block : Bool
  pub stats : List Stat

-- The loops over `AccountDB.GetKeys()`.
pub clear_loop : List Address → StdMap Address Account → StdMap Address Account
clear_loop [] db = db
clear_loop (k ∷ ks) db =
    let (db', account) = get_record accounts k db in
    clear_loop ks (update_record accounts (record account { round_shares = 0 }) db')

pub clear_shares : Core → Core
unfolding clear_loop get_keys
clear_shares c = record c {
  account_db = clear_loop (get_keys c.account_db) c.account_db;
  stats = c.stats ++ clear_shares_stat ∷ [];
}

pub weight_loop : List Address → StdMap Address Account → ℕ → ℕ
weight_loop [] db weight = weight
weight_loop (k ∷ ks) db weight =
    let (db', account) = get_record accounts k db in
    weight_loop ks db' (u64 (weight + account.round_shares))

pub total_weight : StdMap Address Account → ℕ
unfolding weight_loop get_keys
total_weight db = weight_loop (get_keys db) db 0

-- The payout loop of `MasterThread` over the accounts in the order of `GetSortedAccounts`: an
-- account that does not fit gets what is left, and ends the loop.
pub pay_accounts : List Address → StdMap Address Account → Coinbase → Coinbase
pay_accounts [] db c = c
pay_accounts (a ∷ keys) db c =
    let (db', account) = get_record accounts a db in
    let balance = account.account_balance in
    let (c', value) = add_transaction a balance c in
    let rest = pay_accounts keys db' c' in
    let skip = pay_accounts keys db' c in
    if ltb 0 balance
    then (if is_negative value
        then (add_transaction a (u64 (balance + u64_of_int value)) c').0
        else rest)
    else skip

-- What is left goes to the block finder of the last round, as an `int`.
pub pay_bonus : Address → Coinbase → Coinbase
pay_bonus finder c =
    if not (is_complete c) then (add_transaction finder (u64_of_int (get_remainder c)) c).0 else c

-- The coinbase transaction of a round with the given reward and pool fee.
pub build_coinbase : ℕ → ℕ → Address → List Address → StdMap Address Account → Coinbase → Coinbase
unfolding pay_accounts pay_bonus
build_coinbase reward fee finder sorted db c =
    pay_bonus finder
      (pay_accounts sorted db (reset (sub64 reward fee) (record c { pool_fee = fee })))
