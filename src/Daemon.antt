-- ===== src/Daemon.antt =====
-- The pool's side of the wallet server (src/LLP/daemon.cpp, src/LLP/daemon.h): the packets of
-- `DaemonConnection`, and the connections of a `DaemonHandle`. A connection of the pool is its
-- `Session`; the source keeps a pointer to it, and changes it through the pointer.
pub mod HandOut
pub mod Slots
mod Tests
use prime_pool_deprecated.Common.{
  ℕ, zero, suc, ◌+◌, ◌-◌, ◌%◌, ◌^◌, Bool, true, false, not, ◌&&◌, ◌||◌, List, [], ◌∷◌, ◌++◌, Option,
  none, some, ltb, ◌==◌, if◌then◌else◌, length, take, drop, set, get_elem?, replicate,
}
use mathlib.Core.Option
use prime_pool_deprecated.Bytes.{u32, uint2bytes, bytes2uint, uint2bytes64, bytes2uint64}
use prime_pool_deprecated.Uint.{get_bytes, set_bytes}
use prime_pool_deprecated.Packet.{Packet}
use prime_pool_deprecated.Coinbase.{Coinbase, serialize}
use prime_pool_deprecated.Session.{MiningBlock, Session}
use prime_pool_deprecated.Session.Events.{add_block}

-- A packet with data, whose length is that of the data.
abbrev data_packet : ℕ → List ℕ → Packet
data_packet header bytes = record { header = header; length = u32 (length bytes); content = bytes }

pub set_channel : ℕ → Packet
set_channel channel = record { header = 3; length = 4; content = uint2bytes channel }

pub set_coinbase : Coinbase → Packet
set_coinbase c = data_packet 5 (serialize c)

pub check_block : ℕ → Packet
check_block hash = data_packet 64 (get_bytes 32 hash)

-- A merkle root has 512 bits.
pub submit_block : ℕ → ℕ → Packet
submit_block merkle nonce = record {
  header = 1;
  length = 72;
  content = get_bytes 16 merkle ++ uint2bytes64 nonce;
}

-- The stream of a block: fixed parts at both ends, and the merkle root between them. A stream that
-- is too short for them is read out of bounds: `none`.
pub deserialize_mining_block : List ℕ → Option MiningBlock
deserialize_mining_block bytes =
    let last = length bytes - 20 in
    if ltb (length bytes) 152 then none else (elim (set_bytes 32 (take 128 (drop 4 bytes))) [
      | none ↦ none
      | some prev ↦ (elim (set_bytes 16 (take (last - 132) (drop 132 bytes))) [
        | none ↦ none
        | some merkle ↦ some (record {
          version = bytes2uint (take 4 bytes) 0;
          hash_prev_block = prev;
          hash_merkle_root = merkle;
          channel = bytes2uint (take 4 (drop last bytes)) 0;
          height = bytes2uint (take 4 (drop (last + 4) bytes)) 0;
          bits = bytes2uint (take 4 (drop (last + 8) bytes)) 0;
          nonce = bytes2uint64 (drop (last + 12) bytes) 0;
        })
      ])
    ])

-- The connection in a slot of a vector of pointers: `none` also where there is no slot.
abbrev pub slot_of : Option (Option Session) → Option Session
slot_of none = none
slot_of (some m) = m

-- `DaemonHandle`.
pub record Handle : Type 0 where
  pub connections : List (Option Session)
  pub total_connections : ℕ
  pub new_block : Bool
  pub coinbase_pending : Bool

-- `none` for -1.
unfoldable pub find_connection : List (Option Session) → Option ℕ
find_connection [] = none
find_connection (none ∷ slots) = some 0
find_connection (some m ∷ slots) = Option.map suc (find_connection slots)

-- The identifier is the slot.
unfoldable pub assign_at : Option ℕ → Session → Handle → ℕ × Handle
assign_at none m h = (
  length h.connections,
  record h {
    connections = set (h.connections ++ none ∷ []) (length h.connections) (some m);
    total_connections = u32 (h.total_connections + 1);
  },
)
assign_at (some i) m h = (
  i,
  record h {
    connections = set h.connections i (some m);
    total_connections = u32 (h.total_connections + 1);
  },
)

unfoldable pub assign_connection : Session → Handle → ℕ × Handle
unfolding find_connection assign_at
assign_connection m h = assign_at (find_connection h.connections) m h

unfoldable pub remove_connection : ℕ → Handle → Handle
remove_connection i h = record h {
  connections = set h.connections i none;
  total_connections = u32 (h.total_connections + 2 ^ 32 - 1);
}

-- `NewBlock`, but for the request that the server clear its map.
pub flag_connections : List (Option Session) → List (Option Session)
flag_connections [] = []
flag_connections (none ∷ slots) = none ∷ flag_connections slots
flag_connections (some m ∷ slots) = some (record m { new_block = true }) ∷ flag_connections slots

-- A block that has arrived goes to the first connection that waits for one.
pub hand_out : ℕ → List (Option Session) → List (Option Session)
hand_out pointer [] = []
hand_out pointer (none ∷ slots) = none ∷ hand_out pointer slots
hand_out pointer (some m ∷ slots) =
    let rest = hand_out pointer slots in
    if ltb 0 m.blocks_waiting then some (add_block pointer m) ∷ slots else some m ∷ rest

-- The requests of one connection: each is a GET_BLOCK to the server, of which the number is
-- returned, and a block that the connection waits for.
unfoldable pub request_blocks : ℕ → Session → Session × ℕ
request_blocks zero m = (m, 0)
request_blocks (suc requests) m =
    let (m', sent) =
      request_blocks requests
        (record m { block_requests = requests; blocks_waiting = u32 (m.blocks_waiting + 1) }) in
    (m', suc sent)
