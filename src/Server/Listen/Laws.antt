-- ===== src/Server/Listen/Laws.antt =====
-- What the listening loop (src/LLP/server.h) does with a connection.
use prime_pool_deprecated.Common.{
  ℕ, ◌+◌, ◌*◌, ◌≡◌, ◌⊎◌, inl, inr, refl, ap, ◌∙◌, Bool, true, false, ◌&&◌, List, Option, none, some,
  arith, if◌then◌else◌, Bool-cases,
}
use prime_pool_deprecated.Common.Order.{ℕ_order}
use prime_pool_deprecated.Common.StdMap.{
  lookup, has, insert, lookup-insert, same_key, same_key_refl, same_key→eq,
}
use prime_pool_deprecated.Bytes.{IsU32}
use prime_pool_deprecated.Ddos.{Filter, new_filter, banned, ban}
use prime_pool_deprecated.Ddos.Bans.{ban_lasts, ban_held}
use prime_pool_deprecated.Server.{Protocol, DataThread}
use prime_pool_deprecated.Server.Listen.{
  Filters, Peer, address, or_new, filter_at, register, listen,
}

-- The map once the address has a filter.
abbrev known : ℕ → ℕ → Filters → Filters
known now k m = if has k m then m else insert k (new_filter 30 now) m

lookup-known :
    (now k j : ℕ) (m : Filters)
    → lookup j (known now k m) ≡ (if same_key j k then some (filter_at now k m) else lookup j m)
lookup-known now k j m = by_entry (lookup k m) refl
  where
    is_some : Option Filter → Bool
    is_some r = elim r [ none ↦ false | some _ ↦ true ]

    by_entry :
        (r : Option Filter)
        → lookup k m ≡ r
        → lookup j (if is_some r then m else insert k (new_filter 30 now) m)
          ≡ (if same_key j k then some (or_new now r) else lookup j m)
    by_entry none e = lookup-insert k j (new_filter 30 now) m
    by_entry (some f) e = elim (Bool-cases (same_key j k)) [
      | inl same ↦ rw same (ap (λ i. lookup i m) (same_key→eq j k same) ∙ e)
      | inr other ↦ rw other refl
    ]

filter_at-known : (now k : ℕ) (m : Filters) → filter_at now k (known now k m) ≡ filter_at now k m
filter_at-known now k m = ap (or_new now) (lookup-known now k k m) ∙ rw (same_key_refl k) refl

-- The filter after the registration, and that of every other address.
pub register_lem :
    (ddos listed : Bool) (now k j : ℕ) (m : Filters)
    → lookup j (register ddos listed now k m) ≡ (
        if same_key j k
        then some (if ddos && listed then ban now (filter_at now k m) else filter_at now k m)
        else lookup j m)
unfolding register
register_lem ddos listed now k j m = elim (Bool-cases (ddos && listed)) [
  | inl hit ↦
      rw (hit, filter_at-known now k m)
        (lookup-insert k j (ban now (filter_at now k m)) (known now k m)
          ∙ elim (Bool-cases (same_key j k)) [
            | inl same ↦ rw same refl
            | inr other ↦ rw other (lookup-known now k j m ∙ rw other refl)
          ])
  | inr miss ↦ rw miss (lookup-known now k j m)
]

filter_at-register :
    (ddos listed : Bool) (now k : ℕ) (m : Filters)
    → filter_at now k (register ddos listed now k m)
      ≡ (if ddos && listed then ban now (filter_at now k m) else filter_at now k m)
filter_at-register ddos listed now k m =
    ap (or_new now) (register_lem ddos listed now k k m) ∙ rw (same_key_refl k) refl

-- An address on the list is banned by its registration.
listed_banned :
    (now : ℕ) (f : Filter) → IsU32 ((f.totalbans + 1) * 1200) → banned now (ban now f) ≡ true
listed_banned now f fits = elim (Bool-cases (banned now f)) [
  | inl held ↦ rw (ban_held now f held) held
  | inr free ↦ (ban_lasts f now now free fits (omega arith) (omega arith)).0
]

module _ {C W : Type 0} (p : Protocol C (Filters × W)) (make : ℕ → C) where
  -- With DDOS protection, a connection from an address whose filter is banned, or that is on the
  -- list of banned addresses, if the first term of its ban fits 32 bits, is closed: no thread is
  -- given it, the filter is banned afterwards, and those of the other addresses stay.
  pub listen_refused :
      (listed : List ℕ → Bool) (now : ℕ) (before : List (DataThread C)) (peer : Peer)
      (threads : List (DataThread C)) (m : Filters) (w : W)
      → ((listed peer.ip_address ≡ true)
          × IsU32 (((filter_at now (address peer) m).totalbans + 1) * 1200))
        ⊎ (banned now (filter_at now (address peer) m) ≡ true)
      → (m' : Filters) × (listen p make true listed now before peer threads (m, w)
          ≡ some (threads, (m', w)))
        × (banned now (filter_at now (address peer) m') ≡ true)
        × ((j : ℕ) → same_key j (address peer) ≡ false → lookup j m' ≡ lookup j m)
  unfolding listen
  listen_refused listed now before peer threads m w why =
      let k = address peer in
      (
        register true (listed peer.ip_address) now k m,
        rw (held why) refl,
        held why,
        λ j other. register_lem true (listed peer.ip_address) now k j m ∙ rw other refl,
      )
    where
      why_banned :
          (b : Bool) (f : Filter)
          → ((b ≡ true) × IsU32 ((f.totalbans + 1) * 1200)) ⊎ (banned now f ≡ true)
          → banned now (if b then ban now f else f) ≡ true
      why_banned true f (inl (e, fits)) = listed_banned now f fits
      why_banned true f (inr e) = rw (ban_held now f e) e
      why_banned false f (inl (e, fits)) = cc
      why_banned false f (inr e) = e

      held :
          ((listed peer.ip_address ≡ true)
              × IsU32 (((filter_at now (address peer) m).totalbans + 1) * 1200))
            ⊎ (banned now (filter_at now (address peer) m) ≡ true)
          → banned now (
              filter_at now
                (address peer)
                (register true (listed peer.ip_address) now (address peer) m))
            ≡ true
      held why =
          ap (banned now) (filter_at-register true (listed peer.ip_address) now (address peer) m)
          ∙ why_banned (listed peer.ip_address) (filter_at now (address peer) m) why
