-- ===== src/Threads/Traces/Stale.antt =====
-- A block that a miner has found for a height that has passed (src/LLP/daemon.cpp): `fSubmittingBlock`
-- is set, and nothing is submitted that would be answered.
use prime_pool_deprecated.Common.{
  ℕ, true, false, List, [], ◌∷◌, ◌++◌, Option, none, some, ◌==◌, ◌≡◌, refl, sym, ap, ◌∙◌, subst,
  All, get_elem?,
}
use prime_pool_deprecated.Common.Order.{ℕ_order}
use prime_pool_deprecated.Common.StdMap.{lookup}
use prime_pool_deprecated.Packet.{Packet}
use prime_pool_deprecated.Coinbase.{Address}
use prime_pool_deprecated.Core.{Core, Floats}
use prime_pool_deprecated.Core.Accounts.{Accounts}
use prime_pool_deprecated.Session.{MiningBlock, Difficulty, Policy, Session}
use prime_pool_deprecated.Daemon.{Handle}
use prime_pool_deprecated.Threads.{up, World, with_core}
use prime_pool_deprecated.Threads.Handles.{
  submit, serve, serve_handle, handle_work, handle_loop, handle_pass, done,
}
use prime_pool_deprecated.Threads.Traces.{Pass, handle_round, run_pass, run}
use prime_pool_deprecated.Threads.Traces.Calm.{NoSubmit, IsCalm, Holds}
use prime_pool_deprecated.Threads.Traces.Submitting.{run_after, run-Holds}

module _ (d : Difficulty) where
  -- A handle that may serve its connections.
  pub record IsFree (h : Handle) (c : Core) : Type 0 where
    pub ready : c.coinbase_pending ≡ false
    pub answered : c.submitting_block ≡ false
    pub settled : c.new_round ≡ false
    pub free : h.coinbase_pending ≡ false
    pub served : h.new_block ≡ false

  -- The first connection of the handle has found a block of another height than the present one.
  pub record IsStale (h : Handle) (m : Session) (rest : List (Option Session)) (pointer : ℕ)
      (b : MiningBlock) (w : World d) : Type 0 where
    pub first : h.connections ≡ some m ∷ rest
    pub found : m.submission ≡ some pointer
    pub live : lookup pointer w.pool.heap ≡ some b
    pub stale : (b.height == w.pool.core.best_height) ≡ false

  module _ (policy : Policy) (fl : Floats) (pool_fee : fl.F)
      (sort : Accounts → List Address → List Address) where
    serve_stale :
        (h : Handle) (m : Session) (rest : List (Option Session)) (pointer : ℕ) (b : MiningBlock)
        (w : World d)
        → IsStale h m rest pointer b w
        → serve policy w.pool.heap w.pool.core h.connections
          ≡ some (
            some (record m { submission = none }) ∷ rest,
            record w.pool.core {
              submitting_block = true;
              hash_block_submission = policy.hash_of b;
            },
            [],
          )
    unfolding serve submit
    serve_stale h m rest pointer b w v =
        ap (serve policy w.pool.heap w.pool.core) v.first ∙ rw (v.found, v.live, v.stale) refl

    -- The flag, and the hash of the block, are all that the shared state keeps of it.
    abbrev held : MiningBlock → World d → World d
    held b w =
        with_core d
          (record w.pool.core { submitting_block = true; hash_block_submission = policy.hash_of b })
          w

    free_work :
        (h : Handle) (w : World d)
        → IsFree h w.pool.core
        → handle_work d policy fl pool_fee h w ≡ serve_handle d policy fl pool_fee [] h w
    unfolding handle_work
    free_work h w free = rw (free.ready, free.answered, free.settled, free.free, free.served) refl

    work_stale :
        (h : Handle) (m : Session) (rest : List (Option Session)) (pointer : ℕ) (b : MiningBlock)
        (w : World d)
        → IsFree h w.pool.core
        → IsStale h m rest pointer b w
        → handle_work d policy fl pool_fee h w
          ≡ some (
            record h { connections = some (record m { submission = none }) ∷ rest },
            held b w,
            [],
          )
    unfolding serve_handle
    work_stale h m rest pointer b w free v =
        free_work h w free ∙ ap back (serve_stale h m rest pointer b w v)
      where
        back :
            Option (List (Option Session) × Core × List Packet)
            → Option (Handle × World d × List Packet)
        back r = elim r [
          | none ↦ none
          | some (slots, c', sent) ↦
              some (record h { connections = slots }, with_core d c' w, [] ++ sent)
        ]

    pass_stale :
        (i : ℕ) (h : Handle) (m : Session) (rest : List (Option Session)) (pointer : ℕ)
        (b : MiningBlock) (w : World d)
        → get_elem? w.handles i ≡ some h
        → IsFree h w.pool.core
        → IsStale h m rest pointer b w
        → Holds d (run_pass d policy fl pool_fee sort (handle_round i up false none) w)
    unfolding run_pass handle_pass handle_loop
    pass_stale i h m rest pointer b w at free v =
        subst (Holds d) (sym (ap put at ∙ ap back (work_stale h m rest pointer b w free v)))
          (refl, tt)
      where
        back : Option (Handle × World d × List Packet) → Option (World d × List Packet)
        back r =
            done d policy fl pool_fee i []
              (elim r [ none ↦ none | some (h', w', sent) ↦ some (h', w', [] ++ sent) ])

        put : Option Handle → Option (World d × List Packet)
        put r = elim r [
          | none ↦ none
          | some h ↦
              done d policy fl pool_fee i [] (handle_loop d policy fl pool_fee false none h w)
        ]

    -- When the first connection of a free handle has found a block of another height than the
    -- present one, the round of the handle sets the flag of the submission and submits nothing,
    -- and through every sequence of rounds without a new connection or an answer the flag stays
    -- set and nothing is submitted.
    pub stale_stalls :
        (i : ℕ) (h : Handle) (m : Session) (rest : List (Option Session)) (pointer : ℕ)
        (b : MiningBlock) (w w' : World d) (ps : List Pass) (sent : List Packet)
        → get_elem? w.handles i ≡ some h
        → IsFree h w.pool.core
        → IsStale h m rest pointer b w
        → All IsCalm ps
        → run d policy fl pool_fee sort (handle_round i up false none ∷ ps) w ≡ some (w', sent)
        → (w'.pool.core.submitting_block ≡ true) × NoSubmit sent
    stale_stalls i h m rest pointer b w w' ps sent at free v calm e = subst (Holds d) e (
        run_after d policy fl pool_fee sort (handle_round i up false none) ps w
          (pass_stale i h m rest pointer b w at free v)
          (λ w1. run-Holds d policy fl pool_fee sort ps w1 calm))
