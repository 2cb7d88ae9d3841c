-- ===== src/Threads/Handles.antt =====
-- `DaemonHandle::DaemonThread` of src/LLP/daemon.cpp: blocks for the miners, and the submission of
-- what they find.
pub mod Serve
use prime_pool_deprecated.Common.{
  ℕ, ◌+◌, ◌%◌, ◌^◌, Bool, true, false, not, ◌&&◌, ◌||◌, List, [], ◌∷◌, ◌++◌, Option, none, some,
  ltb, ◌==◌, if◌then◌else◌, get_elem?, set, replicate,
}
use mathlib.Core.Option
use prime_pool_deprecated.Common.Order.{bytes_order, ℕ_order}
use prime_pool_deprecated.Common.StdMap.{StdMap, lookup, insert}
use prime_pool_deprecated.Packet.{Packet}
use prime_pool_deprecated.Database.{accounts, blocks, write_to_disk}
use prime_pool_deprecated.Core.{Core, Floats}
use prime_pool_deprecated.Core.Reward.{update_balances, start_round}
use prime_pool_deprecated.Session.{MiningBlock, Difficulty, Policy, Session, Pool}
use prime_pool_deprecated.Daemon.{
  set_channel, set_coinbase, submit_block, deserialize_mining_block, Handle, flag_connections,
  hand_out, request_blocks,
}
use prime_pool_deprecated.Threads.{
  block_data, get_block, clear_map, good, fail, coinbase_set, coinbase_fail, ping, request, Link,
  up, down, fresh, World, new_pointer, with_core,
}

module _ (policy : Policy) where
  -- A block that a miner has found, and the packet that submits it if it is of the present height.
  unfoldable pub submit : Session → MiningBlock → Core → Core × List Packet
  submit m b c =
      let held = record c { submitting_block = true; hash_block_submission = policy.hash_of b } in
      if b.height == c.best_height
      then (
        record held { last_blockfinder = m.address },
        submit_block b.hash_merkle_root b.nonce ∷ [],
      )
      else (held, [])

  -- The loop over the connections: it ends at the first block to submit. `none` is a dangling
  -- pointer.
  unfoldable pub serve :
      StdMap ℕ MiningBlock
      → Core
      → List (Option Session)
      → Option (List (Option Session) × Core × List Packet)
  unfolding submit
  serve heap c [] = some ([], c, [])
  serve heap c (none ∷ slots) = elim (serve heap c slots) [
    | none ↦ none
    | some (slots', c', sent) ↦ some (none ∷ slots', c', sent)
  ]
  serve heap c (some m ∷ slots) =
      let rest = serve heap c slots in
      let (m', requests) = request_blocks m.block_requests m in
      elim m.submission [
        | none ↦ (elim rest [
          | none ↦ none
          | some (slots', c', sent) ↦
              some (some m' ∷ slots', c', replicate requests (request get_block) ++ sent)
        ])
        | some pointer ↦ (elim (lookup pointer heap) [
          | none ↦ none
          | some b ↦
              let (c', sent) = submit m b c in
              some (some (record m { submission = none }) ∷ slots, c', sent)
        ])
      ]

module _ (d : Difficulty) (policy : Policy) (fl : Floats) (pool_fee : fl.F) where
  -- `NewRound`, with the map of primes and the files.
  unfoldable pub accept_block : World d → World d
  accept_block w =
      let c = w.pool.core in
      let settled = update_balances fl pool_fee c.round_reward c in
      record w {
        pool = record w.pool {
          core = record (start_round fl pool_fee c) { submitting_block = false };
          primes = [];
        };
        account_file = write_to_disk accounts settled.account_db;
        block_file = write_to_disk blocks settled.block_db;
      }

  -- A block from the server: one of another height is asked for again.
  unfoldable pub receive_block : MiningBlock → Handle → World d → Handle × World d × List Packet
  receive_block b h w =
      let pointer = new_pointer w.pool.heap in
      let w' = record w { pool = record w.pool { heap = insert pointer b w.pool.heap } } in
      if b.height == w.pool.core.best_height
      then (record h { connections = hand_out pointer h.connections }, w', [])
      else (h, w', request get_block ∷ [])

  -- The packets, for the handle `h`.
  unfoldable pub handle_packet : Packet → Handle → World d → Option (Handle × World d × List Packet)
  unfolding accept_block receive_block
  handle_packet p h w =
      let c = w.pool.core in
      let received : Option (Handle × World d × List Packet) =
        elim (deserialize_mining_block p.content) [
          | none ↦ none
          | some b ↦ some (receive_block b h w)
        ] in
      if p.header == good
      then some (h, accept_block w, [])
      else (if p.header == fail
          then some (h, with_core d (record c { submitting_block = false }) w, [])
          else (if p.header == coinbase_set
              then some (record h { coinbase_pending = false }, w, [])
              else (if p.header == coinbase_fail
                  then some (
                    record h { new_block = false; coinbase_pending = false },
                    with_core d
                        (record c {
                          new_round = false;
                          submitting_block = false;
                          coinbase_pending = true;
                        })
                        w,
                    [],
                  )
                  else (if p.header == block_data then received else some (h, w, [])))))

  -- The loop over the connections of the handle, behind packets that were sent.
  unfoldable pub serve_handle :
      List Packet → Handle → World d → Option (Handle × World d × List Packet)
  unfolding serve
  serve_handle first h w = elim (serve policy w.pool.heap w.pool.core h.connections) [
    | none ↦ none
    | some (slots, c', sent) ↦
        some (record h { connections = slots }, with_core d c' w, first ++ sent)
  ]

  -- What follows in the loop's round if no flag is set.
  unfoldable pub handle_work : Handle → World d → Option (Handle × World d × List Packet)
  unfolding serve_handle
  handle_work h w =
      let c = w.pool.core in
      let reset = record h { connections = flag_connections h.connections; new_block = false } in
      let waiting = record reset { coinbase_pending = true } in
      if c.coinbase_pending || (c.submitting_block || (c.new_round || h.coinbase_pending))
      then some (h, w, [])
      else (if h.new_block
          then (if ltb 1 c.current_round
              then some (waiting, w, request clear_map ∷ set_coinbase c.coinbase ∷ [])
              else serve_handle (request clear_map ∷ []) reset w)
          else serve_handle [] h w)

  unfoldable pub handle_loop :
      Bool → Option Packet → Handle → World d → Option (Handle × World d × List Packet)
  unfolding handle_packet handle_work
  handle_loop pinged incoming h w =
      let start = if pinged then request ping ∷ [] else [] in
      let quiet = handle_work h w in
      elim incoming [
        | none ↦ (elim quiet [ none ↦ none | some (h', w', sent) ↦ some (h', w', start ++ sent) ])
        | some p ↦ (elim (handle_packet p h w) [
          | none ↦ none
          | some (h1, w1, sent1) ↦ (elim (handle_work h1 w1) [
            | none ↦ none
            | some (h2, w2, sent2) ↦ some (h2, w2, start ++ (sent1 ++ sent2))
          ])
        ])
      ]

  -- The handle is put back into its place.
  abbrev pub done :
      ℕ → List Packet → Option (Handle × World d × List Packet) → Option (World d × List Packet)
  done i first none = none
  done i first (some (h, w, sent)) = some (record w { handles = set w.handles i h }, first ++ sent)

  -- The loop's round of the handle in place `i`.
  unfoldable pub handle_pass :
      ℕ → Link → Bool → Option Packet → World d → Option (World d × List Packet)
  unfolding handle_loop
  handle_pass i link pinged incoming w = elim (get_elem? w.handles i) [
    | none ↦ none
    | some h ↦
        let renewed = record w.pool.core {
          new_round = false;
          submitting_block = false;
          coinbase_pending = true;
        } in
        elim link [
          | up ↦ done i [] (handle_loop pinged incoming h w)
          | down ↦ some (w, [])
          | fresh ↦ done i (set_channel 1 ∷ []) (
              handle_loop false incoming (record h { new_block = false; coinbase_pending = false })
                (with_core d renewed w))
        ]
  ]
