-- ===== src/Threads/Orphan.antt =====
-- `OrphanThread` of src/core.cpp: the blocks of the last rounds are checked, and those that have
-- left the chain are taken back.
pub mod Checks
use prime_pool_deprecated.Common.{
  ℕ, ◌+◌, ◌-◌, ◌%◌, ◌^◌, Bool, true, false, not, ◌&&◌, ◌||◌, List, [], ◌∷◌, ◌++◌, Option, none,
  some, ltb, leb, ◌==◌, if◌then◌else◌,
}
use prime_pool_deprecated.Common.Order.{ℕ_order}
use prime_pool_deprecated.Common.StdMap.{StdMap}
use prime_pool_deprecated.Bytes.{u32}
use prime_pool_deprecated.Uint.{set_bytes}
use prime_pool_deprecated.Packet.{Packet}
use prime_pool_deprecated.Record.{Block}
use prime_pool_deprecated.Database.{blocks, get_keys, get_record, write_to_disk}
use prime_pool_deprecated.Core.{Core}
use prime_pool_deprecated.Core.Orphan.{refund_payouts}
use prime_pool_deprecated.Session.{Difficulty, Pool}
use prime_pool_deprecated.Daemon.{check_block}
use prime_pool_deprecated.Threads.{
  good_block, orphan_block, ping, request, Link, up, down, fresh, World, with_core,
}

-- The blocks of the last five rounds that have not been refunded; the test is on `unsigned int`.
abbrev pub is_checked : ℕ → Block → Bool
is_checked round b = leb (u32 (round + 2 ^ 32 - 5)) b.round && ltb 0 b.coinbase_value

pub check_loop : ℕ → List ℕ → StdMap ℕ Block → List Packet
check_loop round [] db = []
check_loop round (k ∷ ks) db =
    let (db', b) = get_record blocks k db in
    let rest = check_loop round ks db' in if is_checked round b then check_block k ∷ rest else rest

module _ (d : Difficulty) where
  -- The message on the console reads the record, which puts a blank one where there is none.
  unfoldable pub orphan_packet : Packet → World d → Option (World d)
  orphan_packet p w =
      let c = w.pool.core in
      let seen = λ (hash : ℕ). record c { block_db = (get_record blocks hash c.block_db).0 } in
      let refunded = λ (hash : ℕ). refund_payouts hash (seen hash) in
      if p.header == orphan_block
      then (elim (set_bytes 32 p.content) [
        | none ↦ none
        | some hash ↦
            some (record (with_core d (record (refunded hash) { coinbase_pending = true }) w) {
              block_file =
                  if (get_record blocks hash c.block_db).1.coinbase_value == 0
                  then w.block_file
                  else write_to_disk blocks (refunded hash).block_db;
            })
      ])
      else (if p.header == good_block
          then (elim (set_bytes 32 p.content) [
            | none ↦ none
            | some hash ↦ some (with_core d (seen hash) w)
          ])
          else some w)

  -- What the thread asks for, if no flag is set: `elapsed` and `pinged` if 20 and 5 seconds have
  -- passed.
  unfoldable pub orphan_requests : Bool → Bool → World d → List Packet
  unfolding check_loop
  orphan_requests elapsed pinged w =
      let c = w.pool.core in
      if c.new_round || (c.submitting_block || c.coinbase_pending)
      then []
      else ((if elapsed then check_loop c.current_round (get_keys c.block_db) c.block_db else [])
          ++ (if pinged then request ping ∷ [] else []))

  unfoldable pub orphan_work :
      Bool → Bool → Option Packet → World d → Option (World d × List Packet)
  unfolding orphan_packet orphan_requests
  orphan_work elapsed pinged none w = some (w, orphan_requests elapsed pinged w)
  orphan_work elapsed pinged (some p) w = elim (orphan_packet p w) [
    | none ↦ none
    | some w' ↦ some (w', orphan_requests elapsed pinged w')
  ]

  -- A new connection resets the timers.
  unfoldable pub orphan_pass :
      Link → Bool → Bool → Option Packet → World d → Option (World d × List Packet)
  unfolding orphan_work
  orphan_pass up elapsed pinged incoming w = orphan_work elapsed pinged incoming w
  orphan_pass down elapsed pinged incoming w = some (w, [])
  orphan_pass fresh elapsed pinged incoming w =
      orphan_work false false incoming
        (with_core d (record w.pool.core { submitting_block = false; new_round = false }) w)
