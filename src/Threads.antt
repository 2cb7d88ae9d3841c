-- ===== src/Threads.antt =====
-- The threads of the pool that talk to the wallet server: `MasterThread` and `OrphanThread` of
-- src/core.cpp, and `DaemonHandle::DaemonThread` of src/LLP/daemon.cpp. One round of a thread's loop
-- is a function: what the connection, the timers and the socket gave in it are arguments, and the
-- packets that it sends are a result. The statistics and the messages on the console are left out.
pub mod Master
pub mod Orphan
pub mod Handles
pub mod Traces
pub mod Start
mod Tests
use prime_pool_deprecated.Common.{ℕ, ◌+◌, max, Bool, true, false, List, [], ◌∷◌, map}
use prime_pool_deprecated.Common.StdMap.{StdMap}
use prime_pool_deprecated.Packet.{Packet}
use prime_pool_deprecated.Core.{Core}
use prime_pool_deprecated.Session.{MiningBlock, Difficulty, Pool}
use prime_pool_deprecated.Daemon.{Handle}

-- The headers of `DaemonConnection` (src/LLP/daemon.h).
abbrev pub block_data : ℕ
block_data = 0

abbrev pub submit_block_header : ℕ
submit_block_header = 1

abbrev pub block_height : ℕ
block_height = 2

abbrev pub block_reward : ℕ
block_reward = 4

abbrev pub good_block : ℕ
good_block = 6

abbrev pub orphan_block : ℕ
orphan_block = 7

abbrev pub get_block : ℕ
get_block = 129

abbrev pub get_height : ℕ
get_height = 130

abbrev pub get_reward : ℕ
get_reward = 131

abbrev pub clear_map : ℕ
clear_map = 132

abbrev pub get_round : ℕ
get_round = 133

abbrev pub good : ℕ
good = 200

abbrev pub fail : ℕ
fail = 201

abbrev pub coinbase_set : ℕ
coinbase_set = 202

abbrev pub coinbase_fail : ℕ
coinbase_fail = 203

abbrev pub new_round_header : ℕ
new_round_header = 204

abbrev pub ping : ℕ
ping = 253

-- A packet that is only a header.
abbrev pub request : ℕ → Packet
request header = record { header = header; length = 0; content = [] }

-- The connection of a thread in a round of its loop: it stands, it was lost and `Connect` fails, or
-- it was lost and `Connect` succeeds.
pub data Link : Type 0 where
  up down fresh : Link

-- What the threads share, with the files of the two databases.
pub record World (d : Difficulty) : Type 0 where
  pub pool : Pool d
  pub handles : List Handle
  pub account_file : List ℕ
  pub block_file : List ℕ

-- `ResetDaemons`.
pub reset_daemons : List Handle → List Handle
reset_daemons [] = []
reset_daemons (h ∷ hs) = record h { new_block = true } ∷ reset_daemons hs

-- A place in memory that is not in use, for a new block.
pub new_pointer : StdMap ℕ MiningBlock → ℕ
new_pointer [] = 0
new_pointer ((pointer, b) ∷ heap) = max (pointer + 1) (new_pointer heap)

module _ (d : Difficulty) where
  abbrev pub with_core : Core → World d → World d
  with_core c w = record w { pool = record w.pool { core = c } }
