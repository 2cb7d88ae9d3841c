-- ===== src/Threads/Traces/Rounds.antt =====
-- From the reward of a new block to the miners: `MasterThread` of src/core.cpp, and a daemon handle of
-- src/LLP/daemon.cpp after it.
use prime_pool_deprecated.Common.{
  ℕ, zero, suc, ◌<◌, true, false, List, [], ◌∷◌, ◌++◌, Option, none, some, ◌≡◌, refl, ap, ◌∙◌,
  lt→ltb, get_elem?, set, length, arith, get_elem?-set_self,
}
use prime_pool_deprecated.Common.Order.{bytes_order, ℕ_order}
use prime_pool_deprecated.Bytes.{bytes2uint64}
use prime_pool_deprecated.Packet.{Packet}
use prime_pool_deprecated.Coinbase.{Address, Coinbase}
use prime_pool_deprecated.Database.{accounts, write_to_disk}
use prime_pool_deprecated.Core.{Core, Floats, build_coinbase}
use prime_pool_deprecated.Core.Accounts.{Accounts}
use prime_pool_deprecated.Session.{Difficulty, Policy}
use prime_pool_deprecated.Daemon.{Handle, flag_connections, set_coinbase}
use prime_pool_deprecated.Threads.{
  block_reward, coinbase_set, clear_map, request, up, World, reset_daemons, with_core,
}
use prime_pool_deprecated.Threads.Master.{
  get_sorted_accounts, receive_reward, master_packet, master_work, master_pass,
}
use prime_pool_deprecated.Threads.Handles.{handle_work, handle_loop, handle_pass, done}
use prime_pool_deprecated.Threads.Traces.{master_round, handle_round, run_pass, run}

get_elem?-length : (hs : List Handle) (i : ℕ) (h : Handle) → get_elem? hs i ≡ some h → i < length hs
get_elem?-length [] i h e = cc
get_elem?-length (g ∷ hs) zero h e = omega arith
get_elem?-length (g ∷ hs) (suc i) h e = omega (arith, get_elem?-length hs i h e)

reset_daemons_lem :
    (hs : List Handle) (i : ℕ) (h : Handle)
    → get_elem? hs i ≡ some h
    → get_elem? (reset_daemons hs) i ≡ some (record h { new_block = true })
unfolding reset_daemons
reset_daemons_lem [] i h e = cc
reset_daemons_lem (g ∷ hs) zero h e = ap flag e
  where
    flag : Option Handle → Option Handle
    flag none = none
    flag (some k) = some (record k { new_block = true })
reset_daemons_lem (g ∷ hs) (suc i) h e = reset_daemons_lem hs i h e

-- A handle after `NewBlock` that waits for its coinbase transaction.
abbrev pub flagged : Handle → Handle
flagged h = record h {
  connections = flag_connections h.connections;
  new_block = false;
  coinbase_pending = true;
}

module _ (d : Difficulty) (policy : Policy) (fl : Floats) (pool_fee : fl.F)
    (sort : Accounts → List Address → List Address) where
  -- The coinbase of a round with this reward.
  abbrev pub built : ℕ → Core → Coinbase
  built reward c =
      build_coinbase reward (fl.to_u64 (fl.mul (fl.of_u64 reward) pool_fee)) c.last_blockfinder
        (get_sorted_accounts d fl pool_fee sort c.account_db) c.account_db c.coinbase

  -- The master waits for a reward: a round after the first, with only `fCoinbasePending` set.
  pub record IsPending (c : Core) : Type 0 where
    pub later : 1 < c.current_round
    pub pending : c.coinbase_pending ≡ true
    pub settled : c.new_round ≡ false
    pub answered : c.submitting_block ≡ false

  reward_pass :
      (p : Packet) (w : World d)
      → p.header ≡ block_reward
      → IsPending w.pool.core
      → master_pass d fl pool_fee sort up false (some p) w ≡ (
        with_core d
            (record w.pool.core {
              round_reward = bytes2uint64 p.content 0;
              coinbase = built (bytes2uint64 p.content 0) w.pool.core;
            })
            w,
        set_coinbase (built (bytes2uint64 p.content 0) w.pool.core) ∷ [],
      )
  unfolding master_pass master_work master_packet receive_reward
  reward_pass p w e v =
      rw (v.settled, v.answered, e, v.pending, lt→ltb 1 w.pool.core.current_round v.later) refl

  set_pass :
      (p : Packet) (w : World d)
      → p.header ≡ coinbase_set
      → IsPending w.pool.core
      → master_pass d fl pool_fee sort up false (some p) w ≡ (
        record (with_core d (record w.pool.core { coinbase_pending = false }) w) {
          handles = reset_daemons w.handles;
          account_file = write_to_disk accounts w.pool.core.account_db;
        },
        [],
      )
  unfolding master_pass master_work master_packet
  set_pass p w e v = rw (v.settled, v.answered, e) refl

  -- A handle that has been told of a new block, with no flag set, and in no first round.
  record IsTold (h : Handle) (c : Core) : Type 0 where
    pub told : h.new_block ≡ true
    pub free : h.coinbase_pending ≡ false
    pub ready : c.coinbase_pending ≡ false
    pub settled : c.new_round ≡ false
    pub answered : c.submitting_block ≡ false
    pub later : 1 < c.current_round

  flag_work :
      (h : Handle) (w : World d)
      → IsTold h w.pool.core
      → handle_work d policy fl pool_fee h w
        ≡ some (flagged h, w, request clear_map ∷ set_coinbase w.pool.core.coinbase ∷ [])
  unfolding handle_work
  flag_work h w v =
      rw
        (v.ready, v.answered, v.settled, v.free, v.told, lt→ltb 1 w.pool.core.current_round v.later)
        refl

  flag_pass :
      (i : ℕ) (h : Handle) (w : World d)
      → get_elem? w.handles i ≡ some h
      → IsTold h w.pool.core
      → handle_pass d policy fl pool_fee i up false none w
        ≡ some (
          record w { handles = set w.handles i (flagged h) },
          request clear_map ∷ set_coinbase w.pool.core.coinbase ∷ [],
        )
  unfolding handle_pass handle_loop
  flag_pass i h w at v = ap put at ∙ ap back (flag_work h w v)
    where
      back : Option (Handle × World d × List Packet) → Option (World d × List Packet)
      back r =
          done d policy fl pool_fee i []
            (elim r [ none ↦ none | some (h', w', sent) ↦ some (h', w', [] ++ sent) ])

      put : Option Handle → Option (World d × List Packet)
      put r = elim r [
        | none ↦ none
        | some h ↦ done d policy fl pool_fee i [] (handle_loop d policy fl pool_fee false none h w)
      ]

  -- In a round of the pool after the first, with only the flag of a pending coinbase set, and
  -- over three rounds of the threads that follow each other, with connections that stand and no
  -- timer run out: when the master receives the reward and then COINBASE_SET, a handle without a
  -- pending coinbase tells its connections of the new block, clears the map of the server and
  -- sends it the coinbase transaction that the master had built and sent, and the flag is reset.
  pub round_reset :
      (reward confirm : Packet) (i : ℕ) (h : Handle) (w : World d)
      → reward.header ≡ block_reward
      → confirm.header ≡ coinbase_set
      → IsPending w.pool.core
      → get_elem? w.handles i ≡ some h
      → h.coinbase_pending ≡ false
      → (w' : World d) × (run d policy fl pool_fee sort
            (master_round up false (some reward)
              ∷ master_round up false (some confirm)
              ∷ handle_round i up false none
              ∷ [])
            w
          ≡ some (
            w',
            set_coinbase (built (bytes2uint64 reward.content 0) w.pool.core)
                ∷ request clear_map
                ∷ set_coinbase (built (bytes2uint64 reward.content 0) w.pool.core)
                ∷ [],
          ))
        × (get_elem? w'.handles i ≡ some (flagged h))
        × (w'.pool.core.coinbase_pending ≡ false)
  unfolding run run_pass
  round_reset reward confirm i h w er es v at free =
      let told : get_elem? (reset_daemons w.handles) i ≡ some (record h { new_block = true }) =
        reset_daemons_lem w.handles i h at in
      (
        record w2 {
          handles = set (reset_daemons w.handles) i (flagged (record h { new_block = true }));
        },
        ap (λ r. join r.1 (join (second r.0).1 (join_nil (third (second r.0).0))))
              (reward_pass reward w er v)
            ∙ ap (λ r. join (set_coinbase c ∷ []) (join r.1 (join_nil (third r.0))))
                (set_pass confirm w1 es (record {
                  later = v.later;
                  pending = v.pending;
                  settled = v.settled;
                  answered = v.answered;
                }))
            ∙ ap (λ r. join (set_coinbase c ∷ []) (join [] (join_nil r)))
                (flag_pass i (record h { new_block = true }) w2 told
                  (record {
                    told = refl;
                    free = free;
                    ready = refl;
                    settled = v.settled;
                    answered = v.answered;
                    later = v.later;
                  })),
        get_elem?-set_self (reset_daemons w.handles) i (flagged h)
            (get_elem?-length (reset_daemons w.handles) i (record h { new_block = true }) told),
        refl,
      )
    where
      c : Coinbase
      c = built (bytes2uint64 reward.content 0) w.pool.core

      w1 : World d
      w1 =
          with_core d
            (record w.pool.core { round_reward = bytes2uint64 reward.content 0; coinbase = c }) w

      w2 : World d
      w2 = record (with_core d (record w1.pool.core { coinbase_pending = false }) w1) {
        handles = reset_daemons w.handles;
        account_file = write_to_disk accounts w.pool.core.account_db;
      }

      join : List Packet → Option (World d × List Packet) → Option (World d × List Packet)
      join sent r = elim r [ none ↦ none | some (w', more) ↦ some (w', sent ++ more) ]

      join_nil : Option (World d × List Packet) → Option (World d × List Packet)
      join_nil r = elim r [ none ↦ none | some (w', more) ↦ some (w', more ++ []) ]

      second : World d → World d × List Packet
      second = master_pass d fl pool_fee sort up false (some confirm)

      third : World d → Option (World d × List Packet)
      third = handle_pass d policy fl pool_fee i up false none
