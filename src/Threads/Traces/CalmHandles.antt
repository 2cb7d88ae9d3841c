-- ===== src/Threads/Traces/CalmHandles.antt =====
-- The rounds of the daemon handles (src/LLP/daemon.cpp) while a block waits for the server's answer.
use prime_pool_deprecated.Common.{
  ℕ, Bool, true, false, List, [], ◌∷◌, ◌++◌, Option, none, some, ◌==◌, ◌≡◌, refl, sym, subst, inl,
  inr, All-append, Bool-cases, if◌then◌else◌, get_elem?, arith,
}
use prime_pool_deprecated.Common.Order.{bytes_order, ℕ_order}
use prime_pool_deprecated.Packet.{Packet}
use prime_pool_deprecated.Core.{Floats}
use prime_pool_deprecated.Session.{MiningBlock, Difficulty, Policy}
use prime_pool_deprecated.Daemon.{Handle, deserialize_mining_block}
use prime_pool_deprecated.Threads.{
  submit_block_header, block_data, ping, request, coinbase_set, good, fail, coinbase_fail, Link, up,
  down, fresh, World,
}
use prime_pool_deprecated.Threads.Handles.{
  handle_packet, handle_work, handle_loop, handle_pass, receive_block, done,
}
use prime_pool_deprecated.Threads.Traces.Calm.{
  NoSubmit, reconnects, answers, IsSubmitting, Holds, HandleHolds,
}

module _ (d : Difficulty) (policy : Policy) (fl : Floats) (pool_fee : fl.F) where
  -- No flag may be set for the rest of a handle's round.
  handle_work_held :
      (h : Handle) (w : World d)
      → IsSubmitting d w
      → handle_work d policy fl pool_fee h w ≡ some (h, w, [])
  unfolding handle_work
  handle_work_held h w held = elim (Bool-cases w.pool.core.coinbase_pending) [
    | inl e ↦ rw e refl
    | inr e ↦ rw (e, held) refl
  ]

  blocks_each :
      (f : MiningBlock → Handle × World d × List Packet)
      → ((b : MiningBlock) → HandleHolds d (some (f b)))
      → (r : Option MiningBlock) → HandleHolds d (elim r [ none ↦ none | some b ↦ some (f b) ])
  blocks_each f h none = tt
  blocks_each f h (some b) = h b

  receive_block-Holds :
      (b : MiningBlock) (h : Handle) (w : World d)
      → IsSubmitting d w
      → HandleHolds d (some (receive_block d policy fl pool_fee b h w))
  unfolding receive_block
  receive_block-Holds b h w held = elim (Bool-cases (b.height == w.pool.core.best_height)) [
    | inl e ↦ rw e (held, tt)
    | inr e ↦ rw e (held, (refl, tt))
  ]

  handle_packet-Holds :
      (p : Packet) (h : Handle) (w : World d)
      → answers (some p) ≡ false
      → IsSubmitting d w
      → HandleHolds d (handle_packet d policy fl pool_fee p h w)
  unfolding handle_packet
  handle_packet-Holds p h w calm held = elim (Bool-cases (p.header == coinbase_set)) [
    | inl e ↦ rw (not_good, not_fail, e) (held, tt)
    | inr e ↦ (elim (Bool-cases (p.header == block_data)) [
      | inl g ↦
          rw (not_good, not_fail, e, not_failed, g)
            (blocks_each (λ b. receive_block d policy fl pool_fee b h w)
              (λ b. receive_block-Holds b h w held) (deserialize_mining_block p.content))
      | inr g ↦ rw (not_good, not_fail, e, not_failed, g) (held, tt)
    ])
  ]
    where
      not_good : (p.header == good) ≡ false
      not_good = ground (arith, calm)

      not_fail : (p.header == fail) ≡ false
      not_fail = ground (arith, calm)

      not_failed : (p.header == coinbase_fail) ≡ false
      not_failed = ground (arith, calm)

  -- The rest of the round changes nothing.
  after_packet :
      (pinged : Bool) (r : Option (Handle × World d × List Packet))
      → HandleHolds d r
      → HandleHolds d (elim r [
        | none ↦ none
        | some (h1, w1, sent1) ↦ (elim (handle_work d policy fl pool_fee h1 w1) [
          | none ↦ none
          | some (h2, w2, sent2) ↦
              some (h2, w2, (if pinged then request ping ∷ [] else []) ++ (sent1 ++ sent2))
        ])
      ])
  after_packet pinged none k = tt
  after_packet true (some (h, w, sent)) (k, n) =
      rw (handle_work_held h w k)
        (k, (refl, All-append (λ p. (p.header == submit_block_header) ≡ false) sent [] n tt))
  after_packet false (some (h, w, sent)) (k, n) =
      rw (handle_work_held h w k)
        (k, All-append (λ p. (p.header == submit_block_header) ≡ false) sent [] n tt)

  quiet_work :
      (start : List Packet) (r : Option (Handle × World d × List Packet))
      → NoSubmit start
      → HandleHolds d r
      → HandleHolds d (elim r [ none ↦ none | some (h, w, sent) ↦ some (h, w, start ++ sent) ])
  quiet_work start none n k = tt
  quiet_work start (some (h, w, sent)) n (k, m) =
      (k, All-append (λ p. (p.header == submit_block_header) ≡ false) start sent n m)

  handle_loop-Holds :
      (pinged : Bool) (incoming : Option Packet) (h : Handle) (w : World d)
      → answers incoming ≡ false
      → IsSubmitting d w
      → HandleHolds d (handle_loop d policy fl pool_fee pinged incoming h w)
  unfolding handle_loop
  handle_loop-Holds pinged none h w calm held =
      quiet_work (if pinged then request ping ∷ [] else []) (handle_work d policy fl pool_fee h w)
        (pings pinged) (subst (HandleHolds d) (sym (handle_work_held h w held)) (held, tt))
    where
      pings : (pinged : Bool) → NoSubmit (if pinged then request ping ∷ [] else [])
      pings true = (refl, tt)
      pings false = tt
  handle_loop-Holds pinged (some p) h w calm held =
      after_packet pinged (handle_packet d policy fl pool_fee p h w)
        (handle_packet-Holds p h w calm held)

  done-Holds :
      (i : ℕ) (r : Option (Handle × World d × List Packet))
      → HandleHolds d r
      → Holds d (done d policy fl pool_fee i [] r)
  done-Holds i none k = tt
  done-Holds i (some (h, w, sent)) k = k

  pub handle_pass-Holds :
      (i : ℕ) (link : Link) (pinged : Bool) (incoming : Option Packet) (w : World d)
      → reconnects link ≡ false
      → answers incoming ≡ false
      → IsSubmitting d w
      → Holds d (handle_pass d policy fl pool_fee i link pinged incoming w)
  unfolding handle_pass
  handle_pass-Holds i up pinged incoming w same calm held = by_handle (get_elem? w.handles i)
    where
      by_handle :
          (r : Option Handle)
          → Holds d (elim r [
            | none ↦ none
            | some h ↦
                done d policy fl pool_fee i []
                  (handle_loop d policy fl pool_fee pinged incoming h w)
          ])
      by_handle none = tt
      by_handle (some h) =
          done-Holds i (handle_loop d policy fl pool_fee pinged incoming h w)
            (handle_loop-Holds pinged incoming h w calm held)
  handle_pass-Holds i down pinged incoming w same calm held = by_handle (get_elem? w.handles i)
    where
      by_handle : (r : Option Handle) → Holds d (elim r [ none ↦ none | some h ↦ some (w, []) ])
      by_handle none = tt
      by_handle (some h) = (held, tt)
  handle_pass-Holds i fresh pinged incoming w same calm held = cc
