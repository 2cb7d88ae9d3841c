-- ===== src/Daemon/Tests.antt =====
-- Concrete runs of a handle.
use prime_pool_deprecated.Common.{
  ◌≡◌, ◌≢◌, refl, true, false, [], ◌∷◌, none, some, arith, get_elem?,
}
use prime_pool_deprecated.Ddos.{Score}
use prime_pool_deprecated.Bytes.{IsU32}
use prime_pool_deprecated.Session.{Session}
use prime_pool_deprecated.Session.Events.{add_block}
use prime_pool_deprecated.Daemon.{Handle, assign_connection, hand_out, request_blocks}
use prime_pool_deprecated.Daemon.HandOut.{
  HandsOut, hand_out_lem, request_blocks_lem, assign_connection_lem,
}

abbrev quiet : Score
quiet = record { slots = (true, 0) ∷ []; started = 0; iterator = 0 }

-- Two requests, and one block that it waits for.
abbrev miner : Session
miner = record {
  map_blocks = [];
  new_blocks = [];
  block_requests = 2;
  blocks_waiting = 1;
  new_block = false;
  logged_in = true;
  address = [];
  submission = none;
  ddos = true;
  filter = record {
    started = 0;
    bantime = 0;
    totalbans = 0;
    requests = quiet;
    connections = quiet;
  };
  written = [];
}

abbrev idle : Session
idle = record miner { block_requests = 0; blocks_waiting = 0 }

abbrev handle : Handle
handle = record {
  connections = some idle ∷ none ∷ some miner ∷ [];
  total_connections = 2;
  new_block = false;
  coinbase_pending = false;
}

numbered : IsU32 idle.blocks_waiting × IsU32 miner.blocks_waiting
numbered = (omega arith, omega arith)

hand_out_lem_example :
    HandsOut 9
      (some idle ∷ none ∷ some miner ∷ [])
      (hand_out 9 (some idle ∷ none ∷ some miner ∷ []))
hand_out_lem_example =
    hand_out_lem 9 (some idle ∷ none ∷ some miner ∷ []) (numbered.0, (tt, (numbered.1, tt)))

hand_out_test :
    hand_out 9 (some idle ∷ none ∷ some miner ∷ [])
    ≡ some idle ∷ none ∷ some (record miner { new_blocks = 9 ∷ []; blocks_waiting = 0 }) ∷ []
unfolding hand_out add_block
hand_out_test = refl

request_blocks_lem_test :
    request_blocks 2 miner ≡ (record miner { block_requests = 0; blocks_waiting = 3 }, 2)
request_blocks_lem_test = request_blocks_lem 2 miner refl (omega arith)

assign_connection_lem_test :
    let (i, h) = assign_connection miner handle in
    (get_elem? h.connections i ≡ some (some miner))
    × (get_elem? h.connections 0 ≡ some (some idle))
    × (i ≢ 0)
assign_connection_lem_test = assign_connection_lem miner idle 0 handle refl
