-- ===== src/Core/Orphan.antt =====
-- `RefundPayouts` of src/core.cpp: a block that is no longer in the chain is taken back.
pub mod Refund
use prime_pool_deprecated.Common.{ℕ, ◌+◌, List, [], ◌∷◌, ◌++◌, ◌==◌, if◌then◌else◌}
use prime_pool_deprecated.Common.Order.{bytes_order, ℕ_order}
use prime_pool_deprecated.Common.StdMap.{StdMap}
use prime_pool_deprecated.Bytes.{u64}
use prime_pool_deprecated.Coinbase.{Address, Amounts}
use prime_pool_deprecated.Record.{Account, Block}
use prime_pool_deprecated.Database.{accounts, blocks, get_record, update_record}
use prime_pool_deprecated.Core.{Stat, delete_earnings, delete_payment, orphan_round, Core}
use prime_pool_deprecated.Core.Reward.{deduct}

-- The loop over the block's credits.
pub remove_credits :
    ℕ → Amounts → StdMap Address Account × List Stat → StdMap Address Account × List Stat
remove_credits round [] s = s
remove_credits round ((k, n) ∷ m) (db, stats) =
    let (db', account) = get_record accounts k db in
    remove_credits round m (
      update_record accounts (record account { account_balance = deduct account.account_balance n })
          db',
      stats ++ delete_earnings k round ∷ [],
    )

-- The loop over the outputs of the block's coinbase.
pub refund_outputs :
    ℕ → Amounts → StdMap Address Account × List Stat → StdMap Address Account × List Stat
refund_outputs round [] s = s
refund_outputs round ((k, n) ∷ m) (db, stats) =
    let (db', account) = get_record accounts k db in
    refund_outputs round m (
      update_record accounts
          (record account { account_balance = u64 (account.account_balance + n) }) db',
      stats ++ delete_payment k round ∷ [],
    )

-- The refund of a block that was read: one whose value is 0 has been refunded already.
unfoldable pub refund_read : Core → StdMap ℕ Block × Block → Core
unfolding remove_credits refund_outputs
refund_read c (block_db, block) =
    let (account_db, stats) = refund_outputs block.round block.coinbase.outputs (
      remove_credits block.round block.credits
        (c.account_db, c.stats ++ orphan_round block.round ∷ [])) in
    if block.coinbase_value == 0 then record c { block_db = block_db } else record c {
      account_db = account_db;
      stats = stats;
      block_db = update_record blocks (record block { coinbase_value = 0 }) block_db;
    }

unfoldable pub refund_payouts : ℕ → Core → Core
unfolding refund_read
refund_payouts hash c = refund_read c (get_record blocks hash c.block_db)
