-- ===== src/Lobby/Known.antt =====
-- What the statistics know of the connections (src/LLP/pool.cpp, src/LLP/daemon.cpp).
use prime_pool_deprecated.Common.{
  ℕ, ◌≡◌, ◌⊎◌, refl, ◌∙◌, inl, inr, Bool, true, false, List, [], Option, none, some, arith, ◌==◌,
  Bool-cases,
}
use prime_pool_deprecated.Common.Order.{bytes_order}
use prime_pool_deprecated.Common.StdMap.{
  StdMap, same_key, same_key_refl, same_key→eq, has, insert, erase, lookup-insert, lookup-erase,
}
use prime_pool_deprecated.Coinbase.{Address}
use prime_pool_deprecated.Session.{Session}
use prime_pool_deprecated.Daemon.{Handle}
use prime_pool_deprecated.Stats.{
  Rates, Guid, StatsCollector, inc_connection_count, dec_connection_count,
}
use prime_pool_deprecated.Stats.Counts.{miners_at, miners-inc, miners-dec}
use prime_pool_deprecated.Lobby.{guid, session_at}
use prime_pool_deprecated.Lobby.Text.{guid_injective}
use prime_pool_deprecated.Lobby.Slots.{WrittenAt}

-- The connection of a slot has signed in under the address.
abbrev pub holds : Address → Option Session → Bool
holds a none = false
holds a (some m) = same_key a m.address

written_cases :
    (i j : ℕ) (x : Option Session) (handles handles' : List Handle)
    → WrittenAt i j x handles handles'
    → (p q : ℕ)
    → ((p ≡ i) × (q ≡ j) × (session_at p q handles' ≡ x))
      ⊎ (¬ ((p ≡ i) × (q ≡ j)) × (session_at p q handles' ≡ session_at p q handles))
written_cases i j x handles handles' written p q = elim (Bool-cases (i == p)) [
  | inr other ↦ inr (λ e. ground (arith, other, e.0), written p q ∙ rw other refl)
  | inl same ↦ (elim (Bool-cases (j == q)) [
    | inr other ↦ inr (λ e. ground (arith, other, e.1), written p q ∙ rw (same, other) refl)
    | inl alike ↦
        inl (ground (arith, same), ground (arith, alike), written p q ∙ rw (same, alike) refl)
  ])
]

guid_apart : (i j p q : ℕ) → ¬ ((p ≡ i) × (q ≡ j)) → same_key (guid p q) (guid i j) ≡ false
guid_apart i j p q apart = elim (Bool-cases (same_key (guid p q) (guid i j))) [
  | inl same ↦ absurd (apart (guid_injective p q i j (same_key→eq (guid p q) (guid i j) same)))
  | inr other ↦ other
]

module _ {V : Type 0} (g : Guid) where
  has-insert_self : (v : V) (m : StdMap Guid V) → has g (insert g v m) ≡ true
  has-insert_self v m = ground (arith, lookup-insert g g v m, same_key_refl g)

  has-insert_other :
      (h : Guid) (v : V) (m : StdMap Guid V) → same_key h g ≡ false → has h (insert g v m) ≡ has h m
  has-insert_other h v m apart = ground (arith, lookup-insert g h v m, apart)

  has-erase_self : (m : StdMap Guid V) → has g (erase g m) ≡ false
  has-erase_self m = ground (arith, lookup-erase g g m, same_key_refl g)

  has-erase_other :
      (h : Guid) (m : StdMap Guid V) → same_key h g ≡ false → has h (erase g m) ≡ has h m
  has-erase_other h m apart = ground (arith, lookup-erase g h m, apart)

module _ (rt : Rates) where
  -- The statistics know the connections that have signed in under an address, and no others.
  abbrev pub IsKnown : List Handle → StatsCollector rt → Type 0
  IsKnown handles stats =
      (i j : ℕ) (a : Address)
      → same_key a [] ≡ false
      → has (guid i j) (miners_at rt a stats) ≡ holds a (session_at i j handles)

  module _ (handles handles' : List Handle) (stats : StatsCollector rt) (i j : ℕ) where
    -- An event that writes one slot changes what the statistics know of its GUID only.
    change :
        (x : Option Session) (stats' : StatsCollector rt)
        → WrittenAt i j x handles handles'
        → ((a : Address)
            → same_key a [] ≡ false
            → has (guid i j) (miners_at rt a stats') ≡ holds a x)
        → ((g : Guid) (a : Address)
            → same_key g (guid i j) ≡ false
            → has g (miners_at rt a stats') ≡ has g (miners_at rt a stats))
        → IsKnown handles stats
        → IsKnown handles' stats'
    change x stats' written at others k p q a named =
        elim (written_cases i j x handles handles' written p q) [
          | inl (pi, qj, e) ↦ rw (e, pi, qj) (at a named)
          | inr (apart, e) ↦ rw e (others (guid p q) a (guid_apart i j p q apart) ∙ k p q a named)
        ]

    pub join-IsKnown :
        (m : Session)
        → m.address ≡ []
        → session_at i j handles ≡ none
        → WrittenAt i j (some m) handles handles'
        → IsKnown handles stats
        → IsKnown handles' stats
    join-IsKnown m e free written k =
        change (some m) stats written (λ a named. k i j a named ∙ rw (free, e, named) refl)
          (λ g a apart. refl) k

    pub sign_in-IsKnown :
        (m : Session) (b : Address)
        → m.address ≡ []
        → session_at i j handles ≡ some m
        → WrittenAt i j (some (record m { address = b })) handles handles'
        → IsKnown handles stats
        → IsKnown handles' (inc_connection_count rt b (guid i j) stats)
    sign_in-IsKnown m b e present written k =
        change (some (record m { address = b })) (inc_connection_count rt b (guid i j) stats)
          written
          (λ a named. rw (miners-inc rt b a (guid i j) stats) (elim (Bool-cases (same_key a b)) [
            | inl same ↦ rw same (has-insert_self (guid i j) _ (miners_at rt b stats))
            | inr other ↦ rw other (k i j a named ∙ rw (present, e) named)
          ]))
          (λ g a apart. rw (miners-inc rt b a (guid i j) stats) (elim (Bool-cases (same_key a b)) [
            | inl same ↦
                rw (same, same_key→eq a b same)
                  (has-insert_other (guid i j) g _ (miners_at rt b stats) apart)
            | inr other ↦ rw other refl
          ]))
          k

    pub leave-IsKnown :
        (now : ℕ) (m : Session)
        → session_at i j handles ≡ some m
        → WrittenAt i j none handles handles'
        → IsKnown handles stats
        → IsKnown handles' (dec_connection_count rt now m.address (guid i j) stats)
    leave-IsKnown now m present written k =
        change none (dec_connection_count rt now m.address (guid i j) stats) written
          (λ a named.
            rw (miners-dec rt now m.address a (guid i j) stats)
              (elim (Bool-cases (same_key a m.address)) [
                | inl same ↦ rw same (has-erase_self (guid i j) (miners_at rt m.address stats))
                | inr other ↦ rw other (k i j a named ∙ rw present other)
              ]))
          (λ g a apart.
            rw (miners-dec rt now m.address a (guid i j) stats)
              (elim (Bool-cases (same_key a m.address)) [
                | inl same ↦
                    rw (same, same_key→eq a m.address same)
                      (has-erase_other (guid i j) g (miners_at rt m.address stats) apart)
                | inr other ↦ rw other refl
              ]))
          k

    pub part-IsKnown :
        (m : Session)
        → m.address ≡ []
        → session_at i j handles ≡ some m
        → WrittenAt i j none handles handles'
        → IsKnown handles stats
        → IsKnown handles' stats
    part-IsKnown m e present written k =
        change none stats written (λ a named. k i j a named ∙ rw (present, e, named) refl)
          (λ g a apart. refl) k
