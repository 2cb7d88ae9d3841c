-- ===== src/Server/Listen/Tests.antt =====
-- Runs of the listening loop (src/LLP/server.h), with a protocol whose connections are addresses.
use prime_pool_deprecated.Common.{
  ℕ, ◌+◌, ◌*◌, ◌≡◌, refl, inl, Bool, true, false, List, [], ◌∷◌, none, some, arith, ◌==◌,
}
use prime_pool_deprecated.Common.Order.{ℕ_order}
use prime_pool_deprecated.Common.StdMap.{lookup, same_key}
use prime_pool_deprecated.Bytes.{IsU32}
use prime_pool_deprecated.Ddos.{new_filter, banned}
use prime_pool_deprecated.Server.{Protocol, DataThread}
use prime_pool_deprecated.Server.Listen.{Filters, Peer, address, filter_at, listen}
use prime_pool_deprecated.Server.Listen.Laws.{listen_refused}

abbrev quiet : Protocol ℕ (Filters × ℕ)
quiet = record {
  failed = λ c. false;
  connected = λ c. true;
  over_limit = λ c w. false;
  ban = λ c w. w;
  banned = λ c w. false;
  count_request = λ c w. w;
  count_connection = λ c w. w;
  connect = λ c w. (c, w);
  disconnect = λ c w. w;
  read = λ c w. (c, w);
  complete = λ c. true;
  process = λ c w. (true, (c, w));
  reset_packet = λ c. c;
}

abbrev busy : DataThread ℕ
busy = record { ddos = true; connections = some 3 ∷ none ∷ []; count = 1; requests = 4 }

abbrev idle : DataThread ℕ
idle = record { ddos = true; connections = []; count = 0; requests = 0 }

abbrev home : Peer
home = record { ip_address = 55 ∷ []; a = 127; b = 0; c = 0; d = 1 }

abbrev on_list : List ℕ → Bool
on_list ip = elim ip [ [] ↦ false | c ∷ cs ↦ c == 55 ]

first_ban : IsU32 (((filter_at 100 (address home) []).totalbans + 1) * 1200)
unfolding new_filter
first_ban = omega arith

-- A listed address, seen for the first time.
listen_refused_example :
    (m' : Filters) × (listen quiet
        (λ k. k)
        true
        on_list
        100
        (busy ∷ idle ∷ [])
        home
        (busy ∷ idle ∷ [])
        ([], 0)
      ≡ some (busy ∷ idle ∷ [], (m', 0)))
    × (banned 100 (filter_at 100 (address home) m') ≡ true)
    × ((j : ℕ) → same_key j (address home) ≡ false → lookup j m' ≡ lookup j [])
listen_refused_example =
    listen_refused quiet (λ k. k) on_list 100 (busy ∷ idle ∷ []) home (busy ∷ idle ∷ []) [] 0
      (inl (refl, first_ban))
