-- ===== src/Threads/Start.antt =====
-- `StartPool` of src/core.cpp: accounts with an invalid address are erased, and the round is one that
-- no block has. (The threads that it starts, and the messages, are left out.)
use prime_pool_deprecated.Common.{
  ℕ, ◌+◌, ◌-◌, ◌^◌, ◌<◌, ◌≤◌, Bool, true, false, not, ◌||◌, List, [], ◌∷◌, ◌++◌, none, leb, ◌≡◌,
  sym, ap, subst, ◌∙◌, inl, inr, Bool-cases, All, if◌then◌else◌, arith, append_assoc,
}
use prime_pool_deprecated.Common.Order.{bytes_order, ℕ_order}
use prime_pool_deprecated.Common.StdMap.{
  StdMap, same_key, same_key→eq, same_key_refl, lookup, has, IsSorted, lookup-erase, lookup-middle,
}
use prime_pool_deprecated.Bytes.{u32}
use prime_pool_deprecated.Coinbase.{Address}
use prime_pool_deprecated.Record.{Block}
use prime_pool_deprecated.Database.{accounts, blocks, get_keys, erase_record, get_record}
use prime_pool_deprecated.Database.Keys.{get_record_old}
use prime_pool_deprecated.Core.Accounts.{Accounts}

-- The loop over the keys of the blocks.
pub round_loop : List ℕ → StdMap ℕ Block → ℕ → ℕ
round_loop [] db round = round
round_loop (k ∷ ks) db round =
    let (db', b) = get_record blocks k db in
    round_loop ks db' (if leb round b.round then u32 (b.round + 1) else round)

-- The round with which the pool starts, where it had the given one.
pub start_round_number : StdMap ℕ Block → ℕ → ℕ
unfolding round_loop
start_round_number db round = round_loop (get_keys db) db round

-- The loop over the accounts.
pub erase_invalid : (Address → Bool) → List Address → Accounts → Accounts
erase_invalid is_valid [] db = db
erase_invalid is_valid (k ∷ ks) db =
    let erased = erase_invalid is_valid ks (erase_record k db) in
    let kept = erase_invalid is_valid ks (get_record accounts k db).0 in
    if not (is_valid k) then erased else kept

-- The blocks' rounds are below a number.
abbrev pub RoundsBelow : ℕ → StdMap ℕ Block → Type 0
RoundsBelow n db = All (λ (e : ℕ × Block). e.1.round < n) db

abbrev Rises : ℕ → StdMap ℕ Block → ℕ → Type 0
Rises round db result = (round ≤ result) × RoundsBelow result db

round_loop-middle :
    (front rest : StdMap ℕ Block) (round : ℕ)
    → IsSorted (front ++ rest)
    → RoundsBelow (2 ^ 32 - 1) rest
    → Rises round rest (round_loop (get_keys rest) (front ++ rest) round)
unfolding round_loop get_keys
round_loop-middle front [] round s h = (omega arith, tt)
round_loop-middle front ((k, b) ∷ rest) round s (hb, h) =
    let read = get_record_old blocks k (front ++ (k, b) ∷ rest) (lookup-middle front rest k b s) in
    let same = append_assoc front ((k, b) ∷ []) rest in
    let raised = if leb round b.round then u32 (b.round + 1) else round in
    let (up, below) =
      round_loop-middle (front ++ (k, b) ∷ []) rest raised (subst IsSorted (sym same) s) h in
    let step =
      ap
        (λ r.
          round_loop (get_keys rest) r.0
            (if leb round r.1.round then u32 (r.1.round + 1) else round))
        read
      ∙ ap (λ m. round_loop (get_keys rest) m raised) (sym same) in
    let (first, found) = higher round b.round hb in
    subst (Rises round ((k, b) ∷ rest)) (sym step)
      (omega (arith, first, up), (omega (arith, found, up), below))
  where
    higher :
        (n m : ℕ)
        → m < 2 ^ 32 - 1
        → (n ≤ (if leb n m then u32 (m + 1) else n)) × (m < (if leb n m then u32 (m + 1) else n))
    higher n m h = (ground arith, ground arith)

-- The round with which the pool starts is at least the given one and above the round of every
-- block of a sorted database whose rounds are below 2 ^ 32 - 1.
pub start_round_number_lem :
    (db : StdMap ℕ Block) (round : ℕ)
    → IsSorted db
    → RoundsBelow (2 ^ 32 - 1) db
    → (round ≤ start_round_number db round) × RoundsBelow (start_round_number db round) db
unfolding start_round_number
start_round_number_lem db round s h = round_loop-middle [] db round s h

abbrev pub contains : Address → List Address → Bool
contains k [] = false
contains k (j ∷ js) = same_key k j || contains k js

get_record_present :
    (k : Address) (db : Accounts) → has k db ≡ true → (get_record accounts k db).0 ≡ db
unfolding get_record
get_record_present k db h = ground arith

same_validity :
    (is_valid : Address → Bool) (j k : Address) → same_key j k ≡ true → is_valid j ≡ is_valid k
same_validity is_valid j k e = ap is_valid (same_key→eq j k e)

lookup-erase_record :
    (j k : Address) (db : Accounts)
    → lookup j (erase_record k db) ≡ (if same_key j k then none else lookup j db)
unfolding erase_record
lookup-erase_record j k db = lookup-erase k j db

-- A valid key is not the invalid one that is erased.
erased_has :
    (is_valid : Address → Bool) (i k : Address) (db : Accounts)
    → is_valid i ≡ true
    → is_valid k ≡ false
    → has i db ≡ true
    → has i (erase_record k db) ≡ true
erased_has is_valid i k db v bad h =
    ground (arith, v, bad, h, same_validity is_valid i k, lookup-erase_record i k db)

-- The start of the pool erases the accounts of the listed addresses that are invalid and keeps
-- every other one as it is, if the valid addresses of the list have accounts.
pub erase_invalid_lem :
    (is_valid : Address → Bool) (ks : List Address) (db : Accounts) (j : Address)
    → ((k : Address) → is_valid k ≡ true → contains k ks ≡ true → has k db ≡ true)
    → lookup j (erase_invalid is_valid ks db)
      ≡ (if is_valid j || not (contains j ks) then lookup j db else none)
unfolding erase_invalid
erase_invalid_lem is_valid [] db j h = ground arith
erase_invalid_lem is_valid (k ∷ ks) db j h = elim (Bool-cases (is_valid k)) [
  | inl good ↦
      rw (good, get_record_present k db (h k good (ground (arith, same_key_refl k))))
        (erase_invalid_lem is_valid ks db j (λ i v c. h i v (ground (arith, c)))
          ∙ ground (arith, good, same_validity is_valid j k))
  | inr bad ↦ rw bad (
      erase_invalid_lem is_valid ks (erase_record k db) j
        (λ i v c. erased_has is_valid i k db v bad (h i v (ground (arith, c))))
      ∙ ground (arith, bad, same_validity is_valid j k, lookup-erase_record j k db))
]
