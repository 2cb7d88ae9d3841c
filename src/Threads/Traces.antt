-- ===== src/Threads/Traces.antt =====
-- The threads of src/core.cpp and src/LLP/daemon.cpp together: sequences of rounds of their loops.
pub mod Calm
pub mod CalmHandles
pub mod Submitting
pub mod Rounds
pub mod Stale
use prime_pool_deprecated.Common.{
  ℕ, Bool, true, false, List, [], ◌∷◌, ◌++◌, Option, none, some, ◌||◌, ◌==◌,
}
use prime_pool_deprecated.Packet.{Packet}
use prime_pool_deprecated.Coinbase.{Address}
use prime_pool_deprecated.Core.{Floats}
use prime_pool_deprecated.Core.Accounts.{Accounts}
use prime_pool_deprecated.Session.{Difficulty, Policy}
use prime_pool_deprecated.Threads.{Link, World}
use prime_pool_deprecated.Threads.Master.{master_pass}
use prime_pool_deprecated.Threads.Orphan.{orphan_pass}
use prime_pool_deprecated.Threads.Handles.{handle_pass}

-- A round of a thread's loop, with what it meets.
pub data Pass : Type 0 where
  master_round : Link → Bool → Option Packet → Pass
  orphan_round : Link → Bool → Bool → Option Packet → Pass
  handle_round : ℕ → Link → Bool → Option Packet → Pass

module _ (d : Difficulty) (policy : Policy) (fl : Floats) (pool_fee : fl.F)
    (sort : Accounts → List Address → List Address) where
  unfoldable pub run_pass : Pass → World d → Option (World d × List Packet)
  run_pass (master_round link ticked incoming) w =
      some (master_pass d fl pool_fee sort link ticked incoming w)
  run_pass (orphan_round link elapsed pinged incoming) w =
      orphan_pass d link elapsed pinged incoming w
  run_pass (handle_round i link pinged incoming) w =
      handle_pass d policy fl pool_fee i link pinged incoming w

  -- The rounds one after the other, with all packets that are sent.
  unfoldable pub run : List Pass → World d → Option (World d × List Packet)
  unfolding run_pass
  run [] w = some (w, [])
  run (p ∷ ps) w = elim (run_pass p w) [
    | none ↦ none
    | some (w1, sent1) ↦ (elim (run ps w1) [
      | none ↦ none
      | some (w2, sent2) ↦ some (w2, sent1 ++ sent2)
    ])
  ]
