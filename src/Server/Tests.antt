-- ===== src/Server/Tests.antt =====
-- Concrete runs of a data thread, with a protocol whose connections are numbers: 0 has failed, and
-- the world is the number of requests, of which more than 2 get a peer banned.
use prime_pool_deprecated.Common.{
  ℕ, suc, ◌≤◌, ◌≡◌, refl, true, false, [], ◌∷◌, none, some, arith, ltb, ◌==◌, length, get_elem?,
  All,
}
use prime_pool_deprecated.Server.{
  Protocol, DataThread, add_connection, remove_connection, visit, pass, count_visit, thread_pass,
  find_thread,
}
use prime_pool_deprecated.Server.Slots.{
  IsThread, remove_connection-IsThread, add_connection-IsThread, thread_pass-IsThread, visit_banned,
}
use prime_pool_deprecated.Server.Balance.{find_thread_lem}

abbrev counting : Protocol ℕ ℕ
counting = record {
  failed = λ c. c == 0;
  connected = λ c. true;
  over_limit = λ c w. ltb 2 w;
  ban = λ c w. 100;
  banned = λ c w. w == 100;
  count_request = λ c w. suc w;
  count_connection = λ c w. w;
  connect = λ c w. (c, w);
  disconnect = λ c w. w;
  read = λ c w. (c, w);
  complete = λ c. true;
  process = λ c w. (true, (c, w));
  reset_packet = λ c. c;
}

abbrev thread : DataThread ℕ
thread = record {
  ddos = true;
  connections = some 5 ∷ none ∷ some 0 ∷ some 7 ∷ [];
  count = 3;
  requests = 0;
}

thread_pass_test : thread_pass counting thread 2 ≡ (
  record { ddos = true; connections = some 5 ∷ none ∷ none ∷ none ∷ []; count = 1; requests = 1 },
  100,
)
unfolding thread_pass pass visit count_visit
thread_pass_test = refl

thread-IsThread : IsThread thread
thread-IsThread = record { counted = refl; fits = omega arith }

add_connection-IsThread_test :
    IsThread (add_connection counting 8 thread 0).0
    × ((add_connection counting 8 thread 0).0.count ≡ 4)
add_connection-IsThread_test =
    add_connection-IsThread counting 8 thread 0 thread-IsThread (omega arith)

remove_connection-IsThread_test :
    IsThread (remove_connection 3 thread)
    × (get_elem? (remove_connection 3 thread).connections 3 ≡ some none)
    × (suc (remove_connection 3 thread).count ≡ 3)
remove_connection-IsThread_test = remove_connection-IsThread thread 3 7 thread-IsThread refl

thread_pass-IsThread_example :
    IsThread (thread_pass counting thread 2).0
    × (length (thread_pass counting thread 2).0.connections ≡ 4)
thread_pass-IsThread_example = thread_pass-IsThread counting thread 2 thread-IsThread

visit_banned_test : visit counting true 5 3 ≡ (none, 100, false)
visit_banned_test = visit_banned counting 5 3 refl refl refl

find_thread_lem_test :
    (m : ℕ) × (get_elem? (4 ∷ 2 ∷ 3 ∷ []) (find_thread 4 (2 ∷ 3 ∷ [])) ≡ some m)
    × All (λ k. m ≤ k) (4 ∷ 2 ∷ 3 ∷ [])
find_thread_lem_test = find_thread_lem 4 (2 ∷ 3 ∷ [])
