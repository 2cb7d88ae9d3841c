-- ===== src/Server/Listen.antt =====
-- The listening loop of `Server` (src/LLP/server.h). The filters of the addresses are a part of the
-- world of the threads, and a connection knows its filter by the address. The four numbers of an
-- address are given: `sscanf` of the source writes them as unsigned ints into bytes.
pub mod Laws
mod Tests
use prime_pool_deprecated.Common.{
  ℕ, ◌+◌, ◌*◌, ◌^◌, Bool, ◌&&◌, List, [], ◌∷◌, Option, none, some, if◌then◌else◌, map, set,
  get_elem?,
}
use prime_pool_deprecated.Common.Order.{ℕ_order}
use prime_pool_deprecated.Common.StdMap.{StdMap, lookup, has, insert}
use prime_pool_deprecated.Bytes.{u32}
use prime_pool_deprecated.Ddos.{Filter, new_filter, banned, ban}
use prime_pool_deprecated.Server.{Protocol, DataThread, add_connection, find_thread}

abbrev pub Filters : Type 0
Filters = StdMap ℕ Filter

-- `IPADDRESS` and `BYTES`
pub record Peer : Type 0 where
  pub ip_address : List ℕ
  pub a : ℕ
  pub b : ℕ
  pub c : ℕ
  pub d : ℕ

abbrev pub address : Peer → ℕ
address peer = u32 (peer.a * 2 ^ 24 + peer.b * 2 ^ 16 + peer.c * 2 ^ 8 + peer.d)

-- `DDOS_MAP[ADDRESS]`, or the filter that it is given.
abbrev pub or_new : ℕ → Option Filter → Filter
or_new now none = new_filter 30 now
or_new now (some f) = f

abbrev pub filter_at : ℕ → ℕ → Filters → Filter
filter_at now k m = or_new now (lookup k m)

-- A new address has a new filter, and a listed one is banned.
pub register : Bool → Bool → ℕ → ℕ → Filters → Filters
register ddos listed now k m =
    let known = if has k m then m else insert k (new_filter 30 now) m in
    if ddos && listed then insert k (ban now (filter_at now k known)) known else known

-- A round of `ListeningThread` with a connection that is accepted: `none` where there is no thread.
-- The thread is chosen before the call of `accept`, which waits: the threads are given as they are
-- then and as they are when a connection has come.
module _ {C W : Type 0} (p : Protocol C (Filters × W)) (make : ℕ → C) where
  pub enlist :
      ℕ → C → List (DataThread C) → Filters × W → Option (List (DataThread C) × (Filters × W))
  enlist i c threads w = elim (get_elem? threads i) [
    | none ↦ none
    | some t ↦ let (t', w') = add_connection p c t w in some (set threads i t', w')
  ]

  pub choose : List (DataThread C) → ℕ
  choose [] = 0
  choose (t ∷ threads) = find_thread t.count (map (λ t. t.count) threads)

  pub listen :
      Bool
      → (List ℕ → Bool)
      → ℕ
      → List (DataThread C)
      → Peer
      → List (DataThread C)
      → Filters × W
      → Option (List (DataThread C) × (Filters × W))
  unfolding register enlist choose
  listen ddos listed now before peer threads (m, w) =
      let chosen = choose before in
      let k = address peer in
      let m' = register ddos (listed peer.ip_address) now k m in
      if ddos && banned now (filter_at now k m')
      then some (threads, (m', w))
      else enlist chosen (make k) threads (m', w)
