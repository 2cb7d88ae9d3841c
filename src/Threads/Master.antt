-- ===== src/Threads/Master.antt =====
-- `MasterThread` of src/core.cpp: the height, the rounds and the coinbase transaction.
use prime_pool_deprecated.Common.{
  ℕ, Bool, true, false, ◌&&◌, ◌||◌, List, [], ◌∷◌, ◌++◌, Option, none, some, ltb, ◌==◌,
  if◌then◌else◌,
}
use prime_pool_deprecated.Common.Order.{bytes_order, ℕ_order}
use prime_pool_deprecated.Bytes.{bytes2uint, bytes2uint64}
use prime_pool_deprecated.Packet.{Packet}
use prime_pool_deprecated.Coinbase.{Address}
use prime_pool_deprecated.Database.{accounts, get_keys, write_to_disk}
use prime_pool_deprecated.Core.{Floats, build_coinbase}
use prime_pool_deprecated.Core.Accounts.{Accounts}
use prime_pool_deprecated.Session.{Difficulty}
use prime_pool_deprecated.Daemon.{set_channel, set_coinbase}
use prime_pool_deprecated.Threads.{
  block_height, block_reward, get_height, get_reward, get_round, coinbase_set, coinbase_fail,
  new_round_header, request, Link, up, down, fresh, World, reset_daemons, with_core,
}

-- `sort` is `std::sort` by `BalanceSort`.
module _ (d : Difficulty) (fl : Floats) (pool_fee : fl.F)
    (sort : Accounts → List Address → List Address) where
  -- `GetSortedAccounts`.
  unfoldable pub get_sorted_accounts : Accounts → List Address
  get_sorted_accounts db = sort db (get_keys db)

  -- The branch BLOCK_REWARD.
  unfoldable pub receive_reward : ℕ → World d → World d × List Packet
  unfolding get_sorted_accounts
  receive_reward reward w =
      let c = w.pool.core in
      let fee = fl.to_u64 (fl.mul (fl.of_u64 reward) pool_fee) in
      let built =
        build_coinbase reward fee c.last_blockfinder (get_sorted_accounts c.account_db) c.account_db
          c.coinbase in
      if ltb 1 c.current_round && c.coinbase_pending
      then (
        with_core d (record c { round_reward = reward; coinbase = built }) w,
        set_coinbase built ∷ [],
      )
      else (
        record (with_core d (record c { round_reward = reward; coinbase_pending = false }) w) {
          handles = reset_daemons w.handles;
        },
        [],
      )

  -- The packets.
  unfoldable pub master_packet : Packet → World d → World d × List Packet
  unfolding receive_reward
  master_packet p w =
      let c = w.pool.core in
      let height = bytes2uint p.content 0 in
      if p.header == block_height
      then (
        with_core d
            (record c {
              coinbase_pending = ltb c.best_height height || c.coinbase_pending;
              best_height = height;
            })
            w,
        [],
      )
      else (if p.header == new_round_header
          then (with_core d (record c { coinbase_pending = true }) w, [])
          else (if p.header == coinbase_set
              then (
                record (with_core d (record c { coinbase_pending = false }) w) {
                  handles = reset_daemons w.handles;
                  account_file = write_to_disk accounts c.account_db;
                },
                [],
              )
              else (if p.header == coinbase_fail
                  then (with_core d (record c { coinbase_pending = true }) w, [])
                  else (if p.header == block_reward
                      then receive_reward (bytes2uint64 p.content 0) w
                      else (w, [])))))

  -- The loop's round behind the connection: `ticked` if two seconds have passed.
  unfoldable pub master_work : Bool → Option Packet → World d → World d × List Packet
  unfolding master_packet
  master_work ticked incoming w =
      let asked =
        if ticked
        then (if w.pool.core.coinbase_pending
            then request get_reward ∷ []
            else request get_height ∷ request get_round ∷ [])
        else [] in
      elim incoming [
        | none ↦ (w, asked)
        | some p ↦ let (w', sent) = master_packet p w in (w', asked ++ sent)
      ]

  -- A new connection resets the timers.
  unfoldable pub master_pass : Link → Bool → Option Packet → World d → World d × List Packet
  unfolding master_work
  master_pass link ticked incoming w =
      let c = w.pool.core in
      let stands = master_work ticked incoming w in
      let (w', sent) = master_work false incoming (
        with_core d
          (record c { coinbase_pending = true; new_round = false; submitting_block = false }) w) in
      if c.new_round || c.submitting_block then (w, []) else (elim link [
        | up ↦ stands
        | down ↦ (w, [])
        | fresh ↦ (w', set_channel 1 ∷ request get_height ∷ request get_round ∷ sent)
      ])
