-- ===== src/Server.antt =====
-- `DataThread` and `Server` of src/LLP/server.h. `ProtocolType` is the parameter `Protocol`: a
-- connection `C` and the rest of the world `W`, in which the DDOS filters are, since connections
-- of one address share theirs.
pub mod Slots
pub mod Balance
pub mod Listen
mod Tests
use prime_pool_deprecated.Common.{
  ℕ, zero, suc, ◌+◌, ◌-◌, ◌%◌, ◌^◌, Bool, true, false, List, [], ◌∷◌, ◌++◌, Option, none, some, ltb,
  ◌==◌, if◌then◌else◌, ◌||◌, ◌&&◌, not, length, set,
}
use prime_pool_deprecated.Bytes.{u32}

pub record Protocol (C W : Type 0) : Type 0 where
  -- `Timeout(TIMEOUT) || Errors()`
  pub failed : C → Bool
  pub connected : C → Bool
  -- the scores of the connection's filter against DDOS_rSCORE and DDOS_cSCORE
  pub over_limit : C → W → Bool
  pub ban : C → W → W
  pub banned : C → W → Bool
  -- `rSCORE += 1` and `cSCORE += 1`
  pub count_request : C → W → W
  pub count_connection : C → W → W
  -- `Event(EVENT_CONNECT)` and then `CONNECTED = true`
  pub connect : C → W → C × W
  -- `Event(EVENT_DISCONNECT)` and then `Disconnect()`
  pub disconnect : C → W → W
  -- `Event(EVENT_GENERIC)` and then `ReadPacket()`
  pub read : C → W → C × W
  pub complete : C → Bool
  pub process : C → W → Bool × (C × W)
  pub reset_packet : C → C

pub record DataThread {ℓ} (C : Type ℓ) : Type ℓ where
  pub ddos : Bool
  pub connections : List (Option C)
  pub count : ℕ
  pub requests : ℕ

-- The first slot that is free, or else the number of slots.
pub find_slot {ℓ} : {A : Type ℓ} → List (Option A) → ℕ
find_slot [] = 0
find_slot (none ∷ slots) = 0
find_slot (some c ∷ slots) = suc (find_slot slots)

-- The slots with one more at the end, if `i` is not one of them.
pub make_slot {ℓ} : {A : Type ℓ} → ℕ → List (Option A) → List (Option A)
make_slot i slots = if i == length slots then slots ++ none ∷ [] else slots

module _ {C W : Type 0} (p : Protocol C W) where
  open p use {
    failed, connected, over_limit, ban, banned, count_request, count_connection, connect,
    disconnect, read, complete, process, reset_packet,
  }

  pub add_connection : C → DataThread C → W → DataThread C × W
  unfolding find_slot make_slot
  add_connection c t w =
      let i = find_slot t.connections in
      let (c', w') = connect c (if t.ddos then count_connection c w else w) in
      (
        record t {
          connections = set (make_slot i t.connections) i (some c');
          count = u32 (t.count + 1);
        },
        w',
      )

  -- What one round of the loop makes of a connection: what is left in its slot, the world, and
  -- whether a request was counted.
  pub visit : Bool → C → W → Option C × W × Bool
  visit ddos c w =
      let w1 = if ddos && over_limit c w then ban c w else w in
      let (c2, w2) = read c w1 in
      let (ok, (c3, w3)) = process c2 w2 in
      if failed c
      then (none, disconnect c w, false)
      else (if not (connected c)
          then (some c, w, false)
          else (if ddos && banned c w1
              then (none, disconnect c w1, false)
              else (if not (complete c2)
                  then (some c2, w2, false)
                  else (if not ok then (none, disconnect c3 w3, false) else (
                    some (reset_packet c3),
                    if ddos then count_request c3 w3 else w3,
                    true,
                  )))))

  -- The counters after a visit.
  pub count_visit {ℓ} : {A : Type ℓ} → Option A → Bool → ℕ × ℕ → ℕ × ℕ
  count_visit none counted (n, requests) = (u32 (n + 2 ^ 32 - 1), requests)
  count_visit (some c) counted (n, requests) = (n, if counted then u32 (requests + 1) else requests)

  -- One pass over the slots: those of the thread, `count`, `requests`, and the world.
  pub pass : Bool → List (Option C) → ℕ × ℕ → W → List (Option C) × (ℕ × ℕ) × W
  pass ddos [] n w = ([], n, w)
  pass ddos (none ∷ slots) n w =
      let (slots', n', w') = pass ddos slots n w in (none ∷ slots', n', w')
  pass ddos (some c ∷ slots) n w =
      let (slot, w1, counted) = visit ddos c w in
      let (slots', n', w') = pass ddos slots (count_visit slot counted n) w1 in
      (slot ∷ slots', n', w')

  pub thread_pass : DataThread C → W → DataThread C × W
  unfolding pass
  thread_pass t w =
      let (slots, (n, requests), w') = pass t.ddos t.connections (t.count, t.requests) w in
      (record t { connections = slots; count = n; requests = requests }, w')

-- `RemoveConnection` of a slot that is in use, but for the events.
pub remove_connection {ℓ} : {C : Type ℓ} → ℕ → DataThread C → DataThread C
remove_connection i t = record t {
  connections = set t.connections i none;
  count = u32 (t.count + 2 ^ 32 - 1);
}

-- `FindThread`, and `FindDaemon` of src/core.cpp: the loop from `index` on, with the best so far.
unfoldable pub find_least : ℕ → ℕ × ℕ → List ℕ → ℕ × ℕ
find_least index best [] = best
find_least index (i, n) (m ∷ counts) =
    find_least (suc index) (if ltb m n then (index, m) else (i, n)) counts

-- There is at least one thread, or daemon.
unfoldable pub find_thread : ℕ → List ℕ → ℕ
unfolding find_least
find_thread first counts = (find_least 1 (0, first) counts).0
