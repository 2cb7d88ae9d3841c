-- ===== src/Threads/Orphan/Checks.antt =====
-- Which blocks `OrphanThread` of src/core.cpp has checked.
use prime_pool_deprecated.Common.{
  ℕ, ◌+◌, ◌-◌, ◌^◌, ◌<◌, ◌≤◌, Bool, false, ◌&&◌, List, [], ◌∷◌, ◌++◌, ltb, leb, ◌≡◌, refl, sym, ap,
  subst, ◌∙◌, All, if◌then◌else◌, arith, append_assoc,
}
use prime_pool_deprecated.Common.Order.{ℕ_order}
use prime_pool_deprecated.Common.StdMap.{StdMap, IsSorted, lookup-middle}
use prime_pool_deprecated.Bytes.{u32}
use prime_pool_deprecated.Packet.{Packet}
use prime_pool_deprecated.Record.{Block}
use prime_pool_deprecated.Database.{blocks, get_keys}
use prime_pool_deprecated.Database.Keys.{get_record_old}
use prime_pool_deprecated.Daemon.{check_block}
use prime_pool_deprecated.Threads.Orphan.{is_checked, check_loop}

-- The checks of the blocks that satisfy a test, in the order of the map.
abbrev pub checks_of : (Block → Bool) → StdMap ℕ Block → List Packet
checks_of test [] = []
checks_of test ((k, b) ∷ db) =
    if test b then check_block k ∷ checks_of test db else checks_of test db

check_loop-middle :
    (round : ℕ) (front rest : StdMap ℕ Block)
    → IsSorted (front ++ rest)
    → check_loop round (get_keys rest) (front ++ rest) ≡ checks_of (is_checked round) rest
unfolding check_loop get_keys
check_loop-middle round front [] s = refl
check_loop-middle round front ((k, b) ∷ rest) s =
    let read = get_record_old blocks k (front ++ (k, b) ∷ rest) (lookup-middle front rest k b s) in
    let same = append_assoc front ((k, b) ∷ []) rest in
    let next =
      ap (check_loop round (get_keys rest)) (sym same)
      ∙ check_loop-middle round (front ++ (k, b) ∷ []) rest (subst IsSorted (sym same) s) in
    rw (read, next) refl

-- The test of the last five rounds.
abbrev pub is_recent : ℕ → Block → Bool
is_recent round b = leb round (b.round + 5) && ltb 0 b.coinbase_value

checks_of-cong :
    (f g : Block → Bool) (db : StdMap ℕ Block)
    → All (λ (e : ℕ × Block). f e.1 ≡ g e.1) db
    → checks_of f db ≡ checks_of g db
checks_of-cong f g [] h = refl
checks_of-cong f g ((k, b) ∷ db) (e, h) = rw (e, checks_of-cong f g db h) refl

-- From the fifth round on, for a round number of 32 bits, the loop over the keys of a sorted
-- block database asks for a check of the blocks that are not refunded and at most five rounds
-- old, each once and in the order of the keys.
pub check_loop-recent :
    (round : ℕ) (db : StdMap ℕ Block)
    → IsSorted db
    → 5 ≤ round
    → round < 2 ^ 32
    → check_loop round (get_keys db) db ≡ checks_of (is_recent round) db
check_loop-recent round db s low high =
    check_loop-middle round [] db s
    ∙ checks_of-cong (is_checked round) (is_recent round) db (same db)
  where
    recent : (n : ℕ) → leb (u32 (round + 2 ^ 32 - 5)) n ≡ leb round (n + 5)
    recent n = ground arith

    same :
        (m : StdMap ℕ Block) → All (λ (e : ℕ × Block). is_checked round e.1 ≡ is_recent round e.1) m
    same [] = tt
    same ((k, b) ∷ m) = (ap (λ t. t && ltb 0 b.coinbase_value) (recent b.round), same m)

late_round : (round : ℕ) (b : Block) → round < 5 → b.round < round → is_checked round b ≡ false
late_round round b low h = ap (λ t. t && ltb 0 b.coinbase_value) late
  where
    late : leb (u32 (round + 2 ^ 32 - 5)) b.round ≡ false
    late = ground arith

-- In the first four rounds no block is checked, if the blocks are of earlier rounds, since the
-- difference of the rounds wraps.
pub check_loop_early :
    (round : ℕ) (db : StdMap ℕ Block)
    → IsSorted db
    → round < 5
    → All (λ (e : ℕ × Block). e.1.round < round) db
    → check_loop round (get_keys db) db ≡ []
check_loop_early round db s low h = check_loop-middle round [] db s ∙ nothing db h
  where
    nothing :
        (m : StdMap ℕ Block)
        → All (λ (e : ℕ × Block). e.1.round < round) m
        → checks_of (is_checked round) m ≡ []
    nothing [] h = refl
    nothing ((k, b) ∷ m) (h, hs) = rw (late_round round b low h) (nothing m hs)
