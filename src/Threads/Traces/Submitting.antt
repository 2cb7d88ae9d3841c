-- ===== src/Threads/Traces/Submitting.antt =====
-- While a block waits for the server's answer (`fSubmittingBlock` of src/core.cpp).
use prime_pool_deprecated.Common.{
  Bool, true, false, List, [], ◌∷◌, ◌++◌, Option, none, some, ◌==◌, ◌≡◌, refl, subst, inl, inr, All,
  All-append, Bool-cases,
}
use prime_pool_deprecated.Common.Order.{bytes_order, ℕ_order}
use prime_pool_deprecated.Packet.{Packet}
use prime_pool_deprecated.Coinbase.{Address}
use prime_pool_deprecated.Core.{Floats}
use prime_pool_deprecated.Core.Accounts.{Accounts}
use prime_pool_deprecated.Session.{Difficulty, Policy}
use prime_pool_deprecated.Threads.{submit_block_header, Link, World}
use prime_pool_deprecated.Threads.Master.{master_pass}
use prime_pool_deprecated.Threads.Traces.{
  Pass, master_round, orphan_round, handle_round, run_pass, run,
}
use prime_pool_deprecated.Threads.Traces.Calm.{
  NoSubmit, IsCalm, IsSubmitting, Holds, orphan_pass-Holds,
}
use prime_pool_deprecated.Threads.Traces.CalmHandles.{handle_pass-Holds}

module _ (d : Difficulty) (policy : Policy) (fl : Floats) (pool_fee : fl.F)
    (sort : Accounts → List Address → List Address) where
  master_pass-Holds :
      (link : Link) (ticked : Bool) (incoming : Option Packet) (w : World d)
      → IsSubmitting d w
      → Holds d (some (master_pass d fl pool_fee sort link ticked incoming w))
  unfolding master_pass
  master_pass-Holds link ticked incoming w h = elim (Bool-cases w.pool.core.new_round) [
    | inl e ↦ rw e (h, tt)
    | inr e ↦ rw (e, h) (refl, tt)
  ]

  run_pass-Holds :
      (p : Pass) (w : World d)
      → IsCalm p
      → IsSubmitting d w
      → Holds d (run_pass d policy fl pool_fee sort p w)
  unfolding run_pass
  run_pass-Holds (master_round link ticked incoming) w calm h =
      master_pass-Holds link ticked incoming w h
  run_pass-Holds (orphan_round link elapsed pinged incoming) w calm h =
      orphan_pass-Holds d link elapsed pinged incoming w calm h
  run_pass-Holds (handle_round i link pinged incoming) w calm h =
      handle_pass-Holds d policy fl pool_fee i link pinged incoming w calm.0 calm.1 h

  -- A round that holds the flag, and rounds behind it that do.
  pub run_after :
      (p : Pass) (ps : List Pass) (w : World d)
      → Holds d (run_pass d policy fl pool_fee sort p w)
      → ((w1 : World d) → IsSubmitting d w1 → Holds d (run d policy fl pool_fee sort ps w1))
      → Holds d (run d policy fl pool_fee sort (p ∷ ps) w)
  unfolding run
  run_after p ps w k next = then_run (run_pass d policy fl pool_fee sort p w) k
    where
      join :
          (sent1 : List Packet) (r : Option (World d × List Packet))
          → NoSubmit sent1
          → Holds d r
          → Holds d (elim r [ none ↦ none | some (w2, sent2) ↦ some (w2, sent1 ++ sent2) ])
      join sent1 none n k = tt
      join sent1 (some (w2, sent2)) n (k, m) =
          (k, All-append (λ p. (p.header == submit_block_header) ≡ false) sent1 sent2 n m)

      then_run :
          (r : Option (World d × List Packet))
          → Holds d r
          → Holds d (elim r [
            | none ↦ none
            | some (w1, sent1) ↦ (elim (run d policy fl pool_fee sort ps w1) [
              | none ↦ none
              | some (w2, sent2) ↦ some (w2, sent1 ++ sent2)
            ])
          ])
      then_run none k = tt
      then_run (some (w1, sent1)) (k, n) =
          join sent1 (run d policy fl pool_fee sort ps w1) n (next w1 k)

  pub run-Holds :
      (ps : List Pass) (w : World d)
      → All IsCalm ps
      → IsSubmitting d w
      → Holds d (run d policy fl pool_fee sort ps w)
  unfolding run
  run-Holds [] w calm h = (h, tt)
  run-Holds (p ∷ ps) w calm h =
      run_after p ps w (run_pass-Holds p w calm.0 h) (λ w1. run-Holds ps w1 calm.1)

  -- While a block waits for its answer, in any sequence of rounds of the threads in which no
  -- handle and not the orphan thread connects anew, and no handle receives GOOD, FAIL or
  -- COINBASE_FAIL, the flag of the submission stays set and no other block is submitted.
  pub run-NoSubmit :
      (ps : List Pass) (w w' : World d) (sent : List Packet)
      → All IsCalm ps
      → w.pool.core.submitting_block ≡ true
      → run d policy fl pool_fee sort ps w ≡ some (w', sent)
      → (w'.pool.core.submitting_block ≡ true) × NoSubmit sent
  run-NoSubmit ps w w' sent calm h e = subst (Holds d) e (run-Holds ps w calm h)
