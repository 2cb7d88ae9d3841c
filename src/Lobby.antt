-- ===== src/Lobby.antt =====
-- How a connection of the pool comes and goes: the events CONNECT and DISCONNECT and the count at its
-- LOGIN (src/LLP/pool.cpp), with the handles of the daemons (src/core.cpp, src/LLP/daemon.cpp) and the
-- statistics. A connection is named by the index of its handle, which is the handle's ID, and its slot.
pub mod Text
pub mod Slots
pub mod Known
pub mod Invariant
mod Tests
use mathlib.Core.Option
use prime_pool_deprecated.Common.{
  ℕ, zero, suc, ◌+◌, ◌/◌, ◌%◌, List, [], ◌∷◌, ◌++◌, Option, none, some, ltb, if◌then◌else◌, map,
  set, get_elem?,
}
use prime_pool_deprecated.Common.Order.{bytes_order}
use prime_pool_deprecated.Common.StdMap.{same_key}
use prime_pool_deprecated.Coinbase.{Address}
use prime_pool_deprecated.Session.{Session}
use prime_pool_deprecated.Daemon.{Handle, slot_of, assign_connection, remove_connection}
use prime_pool_deprecated.Server.{find_thread}
use prime_pool_deprecated.Stats.{
  Rates, Guid, StatsCollector, inc_connection_count, dec_connection_count,
}

-- `to_string`, by so many rounds.
pub decimal : ℕ → ℕ → List ℕ
decimal zero n = []
decimal (suc rounds) n =
    let more = decimal rounds (n / 10) ++ (48 + n % 10) ∷ [] in
    if ltb n 10 then (48 + n) ∷ [] else more

pub to_string : ℕ → List ℕ
unfolding decimal
to_string n = decimal (suc n) n

-- `GUID`
pub guid : ℕ → ℕ → Guid
unfolding to_string
guid daemon slot = to_string daemon ++ (95 ∷ to_string slot)

-- `FindDaemon`, over the handles' `nTotalConnections`
pub find_daemon : List Handle → ℕ
find_daemon [] = 0
find_daemon (h ∷ hs) = find_thread h.total_connections (map (λ h. h.total_connections) hs)

pub record Lobby (rt : Rates) : Type 0 where
  pub handles : List Handle
  pub stats : StatsCollector rt

-- The connection in a slot, through the pointers: `none` where there is none.
abbrev pub slot_at : ℕ → Option Handle → Option Session
slot_at j none = none
slot_at j (some h) = slot_of (get_elem? h.connections j)

abbrev pub session_at : ℕ → ℕ → List Handle → Option Session
session_at i j handles = slot_at j (get_elem? handles i)

abbrev pub put_slot : ℕ → ℕ → Option Session → List Handle → Option Handle → List Handle
put_slot i j m handles none = handles
put_slot i j m handles (some h) = set handles i (record h { connections = set h.connections j m })

abbrev pub with_slot : ℕ → ℕ → Option Session → List Handle → List Handle
with_slot i j m handles = put_slot i j m handles (get_elem? handles i)

module _ (rt : Rates) where
  -- `Event(EVENT_CONNECT)`: the handle, the slot, and the lobby; `none` where there is no handle.
  pub connect : Session → Lobby rt → Option (ℕ × ℕ × Lobby rt)
  unfolding find_daemon
  connect m l =
      let i = find_daemon l.handles in
      elim (get_elem? l.handles i) [
        | none ↦ none
        | some h ↦
            let (j, h') = assign_connection m h in
            some (i, j, record l { handles = set l.handles i h' })
      ]

  -- The part of LOGIN that counts the connection under the address.
  pub sign_in : ℕ → ℕ → Address → Lobby rt → Option (Lobby rt)
  unfolding guid
  sign_in i j a l = elim (session_at i j l.handles) [
    | none ↦ none
    | some m ↦ some (record {
      handles = with_slot i j (some (record m { address = a })) l.handles;
      stats = inc_connection_count rt a (guid i j) l.stats;
    })
  ]

  -- `Event(EVENT_DISCONNECT)`, with what `RemoveConnection` tells the statistics.
  pub disconnect : ℕ → ℕ → ℕ → Lobby rt → Option (Lobby rt)
  unfolding guid
  disconnect now i j l = elim (get_elem? l.handles i) [
    | none ↦ none
    | some h ↦ (elim (slot_of (get_elem? h.connections j)) [
      | none ↦ none
      | some m ↦ some (record {
        handles = set l.handles i (remove_connection j h);
        stats =
            if same_key m.address []
            then l.stats
            else dec_connection_count rt now m.address (guid i j) l.stats;
      })
    ])
  ]
