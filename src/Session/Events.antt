-- ===== src/Session/Events.antt =====
-- `Event`, `Clear`, `AddBlock` and `SerializeBlock` of src/LLP/pool.cpp.
pub mod Cleared
use prime_pool_deprecated.Common.{
  ℕ, ◌+◌, ◌-◌, ◌%◌, ◌^◌, Bool, true, false, not, ◌&&◌, ◌||◌, List, [], ◌∷◌, ◌++◌, Option, none,
  some, ltb, ◌==◌, if◌then◌else◌, length,
}
use prime_pool_deprecated.Common.Order.{ℕ_order}
use prime_pool_deprecated.Common.StdMap.{StdMap, lookup, insert, erase}
use prime_pool_deprecated.Bytes.{u32, uint2bytes}
use prime_pool_deprecated.Uint.{get_bytes}
use prime_pool_deprecated.Packet.{Packet}
use prime_pool_deprecated.Ddos.{Filter, ban}
use prime_pool_deprecated.Session.{
  login_header, block_data, submit_share_header, account_balance_header, pending_payout, submit_pps,
  new_block_header, accept, reject, block_found, stale, MiningBlock, Difficulty, Policy, Session,
  Pool, write, respond,
}

-- `delete` of the blocks that the pointers name.
pub delete_stack : List ℕ → StdMap ℕ MiningBlock → StdMap ℕ MiningBlock
delete_stack [] heap = heap
delete_stack (pointer ∷ pointers) heap = delete_stack pointers (erase pointer heap)

pub delete_map : StdMap ℕ ℕ → StdMap ℕ MiningBlock → StdMap ℕ MiningBlock
delete_map [] heap = heap
delete_map ((hash, pointer) ∷ m) heap = delete_map m (erase pointer heap)

-- The conditions under which a header bans its sender, in the order of the source.
pub header_bans : Packet → List Bool
header_bans p =
    ltb 136 p.length
    ∷ ((p.header == submit_share_header) && not (p.length == 136))
    ∷ ((p.header == login_header) && ltb 55 p.length)
    ∷ ((p.header == submit_pps) && not (p.length == 16))
    ∷ (p.header == block_data)
    ∷ (p.header == account_balance_header)
    ∷ (p.header == pending_payout)
    ∷ (p.header == accept)
    ∷ (p.header == reject)
    ∷ (p.header == block_found)
    ∷ (p.header == stale)
    ∷ []

pub ban_each : ℕ → List Bool → Filter → Filter
ban_each now [] f = f
ban_each now (b ∷ bs) f = ban_each now bs (if b then ban now f else f)

-- `Event(EVENT_HEADER)`.
pub event_header : ℕ → Packet → Session → Session
unfolding header_bans ban_each
event_header now incoming m =
    if m.ddos then record m { filter = ban_each now (header_bans incoming) m.filter } else m

-- `AddBlock`, by the daemon handle. The source counts down without a test.
unfoldable pub add_block : ℕ → Session → Session
add_block pointer m = record m {
  new_blocks = pointer ∷ m.new_blocks;
  blocks_waiting = u32 (m.blocks_waiting + 2 ^ 32 - 1);
}

module _ (policy : Policy) where
  open policy use {hash_of}

  pub serialize_mining_block : ℕ → MiningBlock → List ℕ
  serialize_mining_block minimum_share b =
      get_bytes 32 (hash_of b)
      ++ (uint2bytes (u32 minimum_share) ++ (uint2bytes b.bits ++ uint2bytes b.height))

  -- The loop over the stack of new blocks.
  pub send_blocks : ℕ → StdMap ℕ MiningBlock → List ℕ → Session → Option Session
  unfolding serialize_mining_block
  send_blocks minimum_share heap [] m = some (record m { new_blocks = [] })
  send_blocks minimum_share heap (pointer ∷ pointers) m = elim (lookup pointer heap) [
    | none ↦ none
    | some b ↦ send_blocks minimum_share heap pointers (
        write block_data (serialize_mining_block minimum_share b)
          (record m { map_blocks = insert (hash_of b) pointer m.map_blocks }))
  ]

  module _ (d : Difficulty) where
    pub clear : Session → Pool d → Session × Pool d
    unfolding delete_stack delete_map
    clear m pool = (
      record m { block_requests = 0; blocks_waiting = 0; new_blocks = []; map_blocks = [] },
      record pool { heap = delete_map m.map_blocks (delete_stack m.new_blocks pool.heap) },
    )

    -- `Event(EVENT_GENERIC)`.
    pub event_generic : Session → Pool d → Option (Session × Pool d)
    unfolding clear send_blocks
    event_generic m pool =
        let (m1, pool1) =
          if m.new_block
          then (let (n, q) = clear (respond new_block_header m) pool in
              (record n { new_block = false }, q))
          else (m, pool) in
        if m.new_block && pool.core.submitting_block
        then some (m, pool)
        else (elim (send_blocks pool.minimum_share pool1.heap m1.new_blocks m1) [
          | none ↦ none
          | some m2 ↦ some (m2, pool1)
        ])
