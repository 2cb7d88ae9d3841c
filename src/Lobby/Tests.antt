-- ===== src/Lobby/Tests.antt =====
-- A pool with two handles, and a connection that comes, signs in and goes.
use prime_pool_deprecated.Common.{
  ℕ, zero, suc, ◌+◌, ◌≡◌, refl, sym, true, false, List, [], ◌∷◌, Option, none, some,
}
use prime_pool_deprecated.Coinbase.{Address}
use prime_pool_deprecated.Ddos.{Score}
use prime_pool_deprecated.Session.{Session}
use prime_pool_deprecated.Daemon.{
  Handle, find_connection, assign_at, assign_connection, remove_connection,
}
use prime_pool_deprecated.Server.{find_least, find_thread}
use prime_pool_deprecated.Stats.{
  Rates, inc_connection_count, dec_connection_count, get_connection_count,
}
use prime_pool_deprecated.Lobby.{
  Lobby, session_at, decimal, to_string, guid, find_daemon, connect, sign_in, disconnect,
}
use prime_pool_deprecated.Common.Order.{bytes_order}
use prime_pool_deprecated.Common.StdMap.{same_key}
use prime_pool_deprecated.Lobby.Known.{holds}
use prime_pool_deprecated.Lobby.Invariant.{
  here, next, joins, signs_in, leaves, IsLobby, Reach-IsLobby,
}

abbrev whole : Rates
whole = record { R = ℕ; none_yet = 0; add = λ x y. x + y }

abbrev quiet : Score
quiet = record { slots = (true, 0) ∷ []; started = 0; iterator = 0 }

abbrev visitor : Session
visitor = record {
  map_blocks = [];
  new_blocks = [];
  block_requests = 0;
  blocks_waiting = 0;
  new_block = true;
  logged_in = false;
  address = [];
  submission = none;
  ddos = false;
  filter = record {
    started = 0;
    bantime = 0;
    totalbans = 0;
    requests = quiet;
    connections = quiet;
  };
  written = [];
}

abbrev alice : Address
alice = 50 ∷ []

abbrev handle : List (Option Session) → ℕ → Handle
handle slots n = record {
  connections = slots;
  total_connections = n;
  new_block = false;
  coinbase_pending = false;
}

abbrev quiet_lobby : Lobby whole
quiet_lobby = record {
  handles = handle (some visitor ∷ []) 1 ∷ handle [] 0 ∷ [];
  stats = record { connections = []; saved = []; updated = [] };
}

abbrev joined : Lobby whole
joined = record quiet_lobby {
  handles = handle (some visitor ∷ []) 1 ∷ handle (some visitor ∷ []) 1 ∷ [];
}

connect_test : connect whole visitor quiet_lobby ≡ some (1, 0, joined)
unfolding connect find_daemon find_thread find_least assign_connection assign_at find_connection
connect_test = refl

abbrev signed : Lobby whole
signed = record {
  handles =
      handle (some visitor ∷ []) 1 ∷ handle (some (record visitor { address = alice }) ∷ []) 1 ∷ [];
  stats = inc_connection_count whole alice (guid 1 0) joined.stats;
}

sign_in_test : sign_in whole 1 0 alice joined ≡ some signed
unfolding sign_in
sign_in_test = refl

abbrev gone : Lobby whole
gone = record {
  handles = handle (some visitor ∷ []) 1 ∷ handle (none ∷ []) 0 ∷ [];
  stats = dec_connection_count whole 7 alice (guid 1 0) signed.stats;
}

disconnect_test : disconnect whole 7 1 0 signed ≡ some gone
unfolding disconnect remove_connection
disconnect_test = refl

quiet_lobby-IsLobby : IsLobby whole quiet_lobby
quiet_lobby-IsLobby = record {
  counted = (refl, (refl, tt));
  known = λ i j a named. sym (nobody i j a named);
}
  where
    nobody :
        (i j : ℕ) (a : Address)
        → same_key a [] ≡ false
        → holds a (session_at i j quiet_lobby.handles) ≡ false
    nobody zero zero a named = named
    nobody zero (suc j) a named = refl
    nobody (suc zero) j a named = refl
    nobody (suc (suc i)) j a named = refl

Reach-IsLobby_example : IsLobby whole gone
Reach-IsLobby_example =
    Reach-IsLobby whole
      (next
        (next (next here (joins visitor 1 0 refl connect_test))
          (signs_in 1 0 visitor alice refl refl refl sign_in_test))
        (leaves 7 1 0 disconnect_test))
      quiet_lobby-IsLobby

guid_test : guid 12 7 ≡ 49 ∷ 50 ∷ 95 ∷ 55 ∷ []
unfolding guid to_string decimal
guid_test = refl

count_test : (get_connection_count whole alice signed.stats).0 ≡ 1
unfolding get_connection_count inc_connection_count guid to_string decimal
count_test = refl
