-- ===== src/Session.antt =====
-- `PoolConnection` of src/LLP/pool.cpp and src/LLP/pool.h: the session of one miner. Blocks are
-- shared by pointers, so they stand in a heap; reading a deleted block, and a vector out of bounds,
-- is undefined in the source: `none`. The clock is an argument, `now`.
pub mod Request
pub mod Events
mod Tests
use prime_pool_deprecated.Common.{
  ℕ, ◌+◌, ◌-◌, ◌%◌, ◌^◌, Bool, true, false, not, ◌&&◌, ◌||◌, List, [], ◌∷◌, ◌++◌, Option, none,
  some, ltb, leb, ◌==◌, if◌then◌else◌, length, take, drop, set, get_or,
}
use mathlib.Core.Option
use prime_pool_deprecated.Common.Order.{ℕ_order, bytes_order}
use prime_pool_deprecated.Common.StdMap.{StdMap, lookup, has, insert}
use prime_pool_deprecated.Bytes.{u32, u64, uint2bytes, uint2bytes64, bytes2uint64, bytes2string}
use prime_pool_deprecated.Uint.{get_bytes, set_bytes}
use prime_pool_deprecated.Packet.{Packet}
use prime_pool_deprecated.Ddos.{Filter, add_score, ban}
use prime_pool_deprecated.Coinbase.{Address, amount_at}
use prime_pool_deprecated.Record.{Account, new_account}
use prime_pool_deprecated.Database.{accounts, has_key, get_record, update_record}
use prime_pool_deprecated.Core.{Core}

-- The headers.
abbrev pub login_header : ℕ
login_header = 0

abbrev pub block_data : ℕ
block_data = 1

abbrev pub submit_share_header : ℕ
submit_share_header = 2

abbrev pub account_balance_header : ℕ
account_balance_header = 3

abbrev pub pending_payout : ℕ
pending_payout = 4

abbrev pub submit_pps : ℕ
submit_pps = 5

abbrev pub get_block : ℕ
get_block = 129

abbrev pub new_block_header : ℕ
new_block_header = 130

abbrev pub get_balance : ℕ
get_balance = 131

abbrev pub get_payout : ℕ
get_payout = 132

abbrev pub accept : ℕ
accept = 200

abbrev pub reject : ℕ
reject = 201

abbrev pub block_found : ℕ
block_found = 202

abbrev pub stale : ℕ
stale = 203

abbrev pub ping : ℕ
ping = 253

-- `CBlock` of src/core.h.
pub record MiningBlock : Type 0 where
  pub version : ℕ
  pub hash_prev_block : ℕ
  pub hash_merkle_root : ℕ
  pub channel : ℕ
  pub height : ℕ
  pub bits : ℕ
  pub nonce : ℕ

-- The difficulties of src/prime.cpp, which are doubles, and what the session does with them.
pub record Difficulty : Type 1 where
  pub D : Type 0
  -- `GmpVerification`
  pub verify : ℕ → D
  -- `SetBits`
  pub set_bits : D → ℕ
  -- `nDifficulty >= GetDifficulty(nBits)`
  pub reaches : D → ℕ → Bool
  -- `nDifficulty < 8`, and `(unsigned int) floor(nDifficulty - 3)`
  pub below_eight : D → Bool
  pub channel_of : D → ℕ
  -- `pow(25.0, nDifficulty - 3.0)` as a `uint64`
  pub weight : D → ℕ

-- `GetHash` of a block, the check of an address, and the list of banned accounts.
pub record Policy : Type 0 where
  pub hash_of : MiningBlock → ℕ
  pub is_valid : Address → Bool
  pub is_banned : Address → Bool

pub record Session : Type 0 where
  pub map_blocks : StdMap ℕ ℕ
  pub new_blocks : List ℕ
  pub block_requests : ℕ
  pub blocks_waiting : ℕ
  pub new_block : Bool
  pub logged_in : Bool
  pub address : Address
  pub submission : Option ℕ
  pub ddos : Bool
  pub filter : Filter
  -- the packets written so far
  pub written : List Packet

-- What the sessions share.
pub record Pool (d : Difficulty) : Type 0 where
  pub core : Core
  pub heap : StdMap ℕ MiningBlock
  pub primes : StdMap ℕ (Difficulty.D d)
  pub difficulty_shares : List ℕ
  pub minimum_share : ℕ

abbrev pub write : ℕ → List ℕ → Session → Session
write header bytes m = record m {
  written =
      m.written ++ record { header = header; length = u32 (length bytes); content = bytes } ∷ [];
}

-- `Respond`.
abbrev pub respond : ℕ → Session → Session
respond header m = write header [] m

-- `DDOS->rSCORE += n`, if DDOS protection is on.
pub penalize : ℕ → ℕ → Session → Session
penalize now n m =
    if m.ddos
    then record m { filter = record m.filter { requests = add_score now n m.filter.requests } }
    else m
