-- ===== src/Stats/Counts.antt =====
-- How the operations of `StatsCollector` (src/statscollector.cpp) change the number of connections.
use prime_pool_deprecated.Common.{
  ℕ, suc, ◌≡◌, refl, sym, ap, ◌∙◌, inl, inr, false, List, [], ◌∷◌, ◌++◌, none, some, ◌==◌,
  if◌then◌else◌, length, arith, Bool-cases,
}
use Prim.Native.Nat.{Ordering}
use prime_pool_deprecated.Common.Order.{KeyOrder, bytes_order}
use prime_pool_deprecated.Common.StdMap.{
  StdMap, same_key, same_key_refl, lookup, has, insert, erase, same_key→eq, IsSorted, Above-trans,
  lookup-Above, lookup-insert,
}
use prime_pool_deprecated.Coinbase.{Address}
use prime_pool_deprecated.Stats.{
  Rates, Guid, MinerData, ConnectionData, StatsCollector, connection_at, inc_connection_count,
  dec_connection_count,
}

module _ {K V : Type 0} ⦃o : KeyOrder K⦄ where
  erase_missing : (k : K) (m : StdMap K V) → has k m ≡ false → erase k m ≡ m
  erase_missing k [] h = refl
  erase_missing k ((j, w) ∷ m) h = ground (arith, h, erase_missing k m)

  -- A key that comes and goes leaves the map as it was.
  erase-insert : (k : K) (v : V) (m : StdMap K V) → has k m ≡ false → erase k (insert k v m) ≡ m
  erase-insert k v [] h = ground (arith, same_key_refl k)
  erase-insert k v ((j, w) ∷ m) h =
      ground (arith, h, erase-insert k v m, erase_missing k m, same_key_refl k, o.cmp_eq k j)

  length-insert :
      (k : K) (v : V) (m : StdMap K V)
      → IsSorted m
      → length (insert k v m) ≡ (if has k m then length m else suc (length m))
  length-insert k v [] s = refl
  length-insert k v ((j, w) ∷ m) s =
      ground (arith, length-insert k v m s.1, below, o.cmp_eq k j, o.cmp_refl j)
    where
      below : o.cmp k j ≡ Ordering.lt → lookup k m ≡ none
      below e = lookup-Above k m (Above-trans k j m e s.0)

module _ (rt : Rates) where
  -- The miners of an address.
  abbrev pub miners_at : Address → StatsCollector rt → StdMap Guid (MinerData rt)
  miners_at a s = (connection_at rt a s).miner_data

  connection_at-insert :
      (a j : Address) (c : ConnectionData rt) (s : StatsCollector rt)
      (saved : List (ConnectionData rt))
      → miners_at j (record s { connections = insert a c s.connections; saved = saved })
        ≡ (if same_key j a then c.miner_data else miners_at j s)
  connection_at-insert a j c s saved = ground (arith, lookup-insert a j c s.connections)

  abbrev new_miner : Guid → MinerData rt
  new_miner g = record { guid = g; pps = rt.none_yet; wps = rt.none_yet }

  pub miners-inc :
      (a j : Address) (g : Guid) (s : StatsCollector rt)
      → miners_at j (inc_connection_count rt a g s)
        ≡ (if same_key j a then insert g (new_miner g) (miners_at a s) else miners_at j s)
  unfolding inc_connection_count
  miners-inc a j g s =
      connection_at-insert a j
        (record (connection_at rt a s) {
          address = a;
          miner_data = insert g (new_miner g) (miners_at a s);
        })
        s s.saved

  pub miners-dec :
      (now : ℕ) (a j : Address) (g : Guid) (s : StatsCollector rt)
      → miners_at j (dec_connection_count rt now a g s)
        ≡ (if same_key j a then erase g (miners_at a s) else miners_at j s)
  unfolding dec_connection_count
  miners-dec now a j g s = elim (Bool-cases (length (erase g (miners_at a s)) == 0)) [
    | inl last ↦ rw last (
        connection_at-insert a j
          (record (connection_at rt a s) {
            miner_data = erase g (miners_at a s);
            last_save = some now;
          })
          s
          (s.saved ++ record (connection_at rt a s) { miner_data = erase g (miners_at a s) } ∷ []))
    | inr more ↦ rw more (
        connection_at-insert a j
          (record (connection_at rt a s) { miner_data = erase g (miners_at a s) }) s s.saved)
  ]

  -- A connection with a new GUID raises the number of connections of its address by one, and
  -- when it has gone again the miners of every address are what they were.
  pub dec_connection_count-inc_connection_count :
      (now : ℕ) (a j : Address) (g : Guid) (s : StatsCollector rt)
      → IsSorted (miners_at a s)
      → has g (miners_at a s) ≡ false
      → (length (miners_at a (inc_connection_count rt a g s)) ≡ suc (length (miners_at a s)))
        × (miners_at j (dec_connection_count rt now a g (inc_connection_count rt a g s))
            ≡ miners_at j s)
  dec_connection_count-inc_connection_count now a j g s sorted new = (
    ap length (miners-inc a a g s)
        ∙ rw (same_key_refl a) (length-insert g (new_miner g) (miners_at a s) sorted ∙ rw new refl),
    miners-dec now a j g (inc_connection_count rt a g s) ∙ left,
  )
    where
      back : erase g (miners_at a (inc_connection_count rt a g s)) ≡ miners_at a s
      back =
          ap (erase g) (miners-inc a a g s)
          ∙ rw (same_key_refl a) (erase-insert g (new_miner g) (miners_at a s) new)

      left :
          (if same_key j a
            then erase g (miners_at a (inc_connection_count rt a g s))
            else miners_at j (inc_connection_count rt a g s))
          ≡ miners_at j s
      left = elim (Bool-cases (same_key j a)) [
        | inl same ↦ rw same (back ∙ ap (λ i. miners_at i s) (sym (same_key→eq j a same)))
        | inr other ↦ rw other (miners-inc a j g s ∙ rw other refl)
      ]
