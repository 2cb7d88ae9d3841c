-- ===== src/Core/Reward.antt =====
-- `UpdateBalances` and `NewRound` of src/core.cpp: what the accounts are charged and credited when
-- a block of the pool has been accepted.
pub mod Settle
pub mod Conserve
use prime_pool_deprecated.Common.{
  ℕ, ◌+◌, ◌-◌, ◌%◌, ◌^◌, Bool, true, false, List, [], ◌∷◌, ◌++◌, Option, none, some, ltb, ◌==◌,
  if◌then◌else◌, not,
}
use prime_pool_deprecated.Common.Order.{bytes_order, ℕ_order}
use prime_pool_deprecated.Common.StdMap.{StdMap, lookup, has, same_key}
use prime_pool_deprecated.Bytes.{u32, u64}
use prime_pool_deprecated.Coinbase.{Address, Amounts, amount_at, sub64, Coinbase, add_credit}
use prime_pool_deprecated.Record.{Account, Block, new_block}
use prime_pool_deprecated.Database.{accounts, blocks, get_keys, get_record, update_record}
use prime_pool_deprecated.Core.{
  Floats, Stat, earning, payment, save_round, Core, total_weight, clear_shares,
}

-- The state of the loop over the accounts.
pub record Settlement : Type 0 where
  pub db : StdMap Address Account
  pub credits : Amounts
  pub total_reward : ℕ
  pub stats : List Stat

-- `if(paid > balance) balance = 0; else balance -= paid;`
abbrev pub deduct : ℕ → ℕ → ℕ
deduct balance paid = if ltb balance paid then 0 else balance - paid

-- A read of an account, a change of its balance, and its write.
unfoldable pub credit : Address → ℕ → StdMap Address Account → StdMap Address Account
credit a n db =
    let (db', account) = get_record accounts a db in
    update_record accounts (record account { account_balance = u64 (account.account_balance + n) })
      db'

module _ (fl : Floats) where
  open fl use {F, of_u64, mul, div, sub, to_u64, to_u32, bonus_rate}

  -- `nReward -= (nReward * lfPoolFee)`, in doubles.
  unfoldable pub net_reward : F → ℕ → ℕ
  net_reward pool_fee reward = to_u64 (sub (of_u64 reward) (mul (of_u64 reward) pool_fee))

  -- `nReward * 0.02`.
  unfoldable pub finder_bonus : ℕ → ℕ
  finder_bonus reward = to_u64 (mul (of_u64 reward) bonus_rate)

  -- `((double)nRoundShares / nTotalWeight) * nReward`, as an `unsigned int`.
  unfoldable pub share_credit : ℕ → ℕ → ℕ → ℕ
  share_credit shares weight reward =
      to_u32 (mul (div (of_u64 shares) (of_u64 weight)) (of_u64 reward))

  -- The payment of one account, if the coinbase has one.
  pub charge : Core → Address → Account → Account
  charge c k account = elim (lookup k c.coinbase.outputs) [
    | none ↦ account
    | some paid ↦ record account { account_balance = deduct account.account_balance paid }
  ]

  -- One round of the loop, with the weight of the round and the reward that is left for the shares.
  pub settle : Core → ℕ → ℕ → Address → Settlement → Settlement
  unfolding charge share_credit
  settle c weight reward k s =
      let (db, account) = get_record accounts k s.db in
      let account' = charge c k account in
      let paid = has k c.coinbase.outputs in
      let db' = if paid then update_record accounts account' db else db in
      let stats' =
        if paid
        then s.stats
          ++ payment k c.current_round c.best_height (amount_at k c.coinbase.outputs) ∷ []
        else s.stats in
      let amount = share_credit account'.round_shares weight reward in
      if account'.round_shares == 0 then record s { db = db'; stats = stats' } else record {
        db =
            update_record accounts
              (record account' { account_balance = u64 (account'.account_balance + amount) }) db';
        credits = add_credit k amount s.credits;
        total_reward = u64 (s.total_reward + amount);
        stats = stats' ++ earning k c.current_round c.best_height account'.round_shares amount ∷ [];
      }

  pub settle_all : Core → ℕ → ℕ → List Address → Settlement → Settlement
  unfolding settle
  settle_all c weight reward [] s = s
  settle_all c weight reward (k ∷ ks) s = settle_all c weight reward ks (settle c weight reward k s)

  -- The bonus of the last round's block finder, and the reward after it.
  pub pay_finder : Core → ℕ → Settlement × ℕ
  unfolding finder_bonus credit
  pay_finder c reward =
      let start : Settlement = record {
        db = c.account_db;
        credits = [];
        total_reward = 0;
        stats = c.stats;
      } in
      let bonus = finder_bonus reward in
      if same_key c.last_blockfinder [] then (start, reward) else (
        record start {
          db = credit c.last_blockfinder bonus c.account_db;
          credits = add_credit c.last_blockfinder bonus [];
          stats = c.stats ++ earning c.last_blockfinder c.current_round c.best_height 0 bonus ∷ [];
        },
        sub64 reward bonus,
      )

  -- What the shares have left goes to the block finder, but not into the block's credits.
  pub pay_remainder : Core → ℕ → Settlement → Settlement
  unfolding credit
  pay_remainder c reward s =
      let rest = reward - s.total_reward in
      if ltb s.total_reward reward
      then record s {
        db = credit c.last_blockfinder rest s.db;
        stats = s.stats ++ earning c.last_blockfinder c.current_round c.best_height 0 rest ∷ [];
      }
      else s

  -- The settlement of a round: the final accounts and credits.
  pub settlement : F → ℕ → Core → Settlement
  unfolding net_reward pay_finder settle_all pay_remainder
  settlement pool_fee reward c =
      let (s, left) = pay_finder c (net_reward pool_fee reward) in
      pay_remainder c left (settle_all c (total_weight s.db) left (get_keys s.db) s)

  pub update_balances : F → ℕ → Core → Core
  unfolding settlement
  update_balances pool_fee reward c =
      let s = settlement pool_fee reward c in
      record c {
        account_db = s.db;
        stats = s.stats;
        block_db =
            update_record blocks
              (record (new_block c.hash_block_submission) {
                coinbase = c.coinbase;
                coinbase_value = u64 (c.coinbase.max_value + c.coinbase.pool_fee);
                round = c.current_round;
                credits = s.credits;
              })
              c.block_db;
      }

  -- `NewRound`, but for the map of primes, which `Pool` has.
  pub start_round : F → Core → Core
  unfolding update_balances clear_shares
  start_round pool_fee c =
      let c' = clear_shares (
        update_balances pool_fee c.round_reward (record c {
          new_round = true;
          coinbase_pending = true;
          stats = c.stats ++ save_round ∷ [];
        })) in
      record c' { current_round = u32 (c'.current_round + 1); new_round = false }
