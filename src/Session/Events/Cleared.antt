-- ===== src/Session/Events/Cleared.antt =====
-- What `Clear` leaves behind.
use prime_pool_deprecated.Common.{ℕ, ◌≡◌, inl, inr, [], ◌∷◌, none, some, arith, Bool-cases}
use prime_pool_deprecated.Common.Order.{ℕ_order}
use prime_pool_deprecated.Common.StdMap.{StdMap, lookup, same_key, erase, lookup-erase}
use prime_pool_deprecated.Session.{MiningBlock, Difficulty, Policy, Session, Pool}
use prime_pool_deprecated.Session.Events.{delete_stack, delete_map, clear}

delete_map-gone :
    (m : StdMap ℕ ℕ) (heap : StdMap ℕ MiningBlock) (pointer : ℕ)
    → lookup pointer heap ≡ none
    → lookup pointer (delete_map m heap) ≡ none
unfolding delete_map
delete_map-gone [] heap pointer h = h
delete_map-gone ((hash, q) ∷ m) heap pointer h =
    delete_map-gone m (erase q heap) pointer (ground (arith, lookup-erase q pointer heap))

delete_map-deletes :
    (m : StdMap ℕ ℕ) (heap : StdMap ℕ MiningBlock) (hash pointer : ℕ)
    → lookup hash m ≡ some pointer
    → lookup pointer (delete_map m heap) ≡ none
unfolding delete_map
delete_map-deletes [] heap hash pointer e = ground arith
delete_map-deletes ((k, q) ∷ m) heap hash pointer e = elim (Bool-cases (same_key hash k)) [
  | inl same ↦
      delete_map-gone m (erase q heap) pointer
        (ground (arith, lookup-erase q pointer heap, e, same))
  | inr other ↦ delete_map-deletes m (erase q heap) hash pointer (ground (arith, e, other))
]

-- When a session is cleared while one of its mapped blocks waits for submission, the submission
-- pointer still names the block, which is deleted.
pub clear_dangles :
    (policy : Policy) (d : Difficulty) (m : Session) (pool : Pool d) (hash pointer : ℕ)
    → lookup hash m.map_blocks ≡ some pointer
    → m.submission ≡ some pointer
    → let (m', pool') = clear policy d m pool in
      (m'.submission ≡ some pointer) × (lookup pointer pool'.heap ≡ none)
unfolding clear
clear_dangles policy d m pool hash pointer e s =
    (s, delete_map-deletes m.map_blocks (delete_stack m.new_blocks pool.heap) hash pointer e)
