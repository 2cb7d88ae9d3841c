-- ===== src/Stats/Tests.antt =====
-- A miner that comes and goes, with numbers for the rates.
use prime_pool_deprecated.Common.{ℕ, ◌+◌, ◌≡◌, refl, [], ◌∷◌, none, length}
use prime_pool_deprecated.Common.Order.{bytes_order}
use prime_pool_deprecated.Coinbase.{Address}
use prime_pool_deprecated.Stats.{
  Rates, ConnectionData, StatsCollector, inc_connection_count, dec_connection_count, total_of,
  total_pps,
}
use prime_pool_deprecated.Stats.Counts.{miners_at, dec_connection_count-inc_connection_count}

abbrev whole : Rates
whole = record { R = ℕ; none_yet = 0; add = λ x y. x + y }

abbrev alice : Address
alice = 50 ∷ []

abbrev one_miner : ConnectionData whole
one_miner = record {
  address = alice;
  miner_data = (1 ∷ [], record { guid = 1 ∷ []; pps = 10; wps = 20 }) ∷ [];
  last_save = none;
}

abbrev stats : StatsCollector whole
stats = record { connections = (alice, one_miner) ∷ []; saved = []; updated = [] }

dec_connection_count-inc_connection_count_test :
    (length (miners_at whole alice (inc_connection_count whole alice (2 ∷ []) stats)) ≡ 2)
    × (miners_at whole alice (
          dec_connection_count whole 7 alice
            (2 ∷ [])
            (inc_connection_count whole alice (2 ∷ []) stats))
        ≡ miners_at whole alice stats)
dec_connection_count-inc_connection_count_test =
    dec_connection_count-inc_connection_count whole 7 alice alice (2 ∷ []) stats (tt, tt) refl

-- The last miner of an address is saved without a miner.
last_test :
    (dec_connection_count whole 7 alice (1 ∷ []) stats).saved
    ≡ record one_miner { miner_data = [] } ∷ []
unfolding dec_connection_count
last_test = refl

pps_test : total_pps whole one_miner ≡ 10
unfolding total_pps total_of
pps_test = refl
