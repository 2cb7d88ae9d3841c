-- ===== src/Server/Balance.antt =====
-- The choice of the thread, or daemon, for a new connection.
use prime_pool_deprecated.Common.{
  ℕ, zero, suc, ◌-◌, ◌<◌, ◌≤◌, ◌≡◌, ◌⊎◌, inl, inr, refl, ap, ◌∙◌, List, [], ◌∷◌, Option, some,
  arith, ltb, if◌then◌else◌, get_elem?, All,
}
use prime_pool_deprecated.Server.{find_least, find_thread}

-- What the loop makes of the best so far: a least count, and the first index that has it.
abbrev IsLeast : ℕ → ℕ × ℕ → List ℕ → ℕ × ℕ → Type 0
IsLeast index best counts r =
    (r.1 ≤ best.1)
    × All (λ k. r.1 ≤ k) counts
    × (((r.0 ≡ best.0) × (r.1 ≡ best.1))
        ⊎ ((index ≤ r.0) × (r.1 < best.1) × (get_elem? counts (r.0 - index) ≡ some r.1)))

get_elem?-first :
    (index k j m : ℕ) (counts : List ℕ)
    → j ≡ index
    → m ≡ k
    → get_elem? (k ∷ counts) (j - index) ≡ some m
get_elem?-first index k j m counts e f =
    ap (get_elem? (k ∷ counts)) zero_of ∙ ap {B = Option ℕ} some (omega arith)
  where
    zero_of : j - index ≡ 0
    zero_of = omega arith

get_elem?-later :
    (index k j m : ℕ) (counts : List ℕ)
    → suc index ≤ j
    → get_elem? counts (j - suc index) ≡ some m
    → get_elem? (k ∷ counts) (j - index) ≡ some m
get_elem?-later index k j m counts h e = ap (get_elem? (k ∷ counts)) shift ∙ e
  where
    shift : j - index ≡ suc (j - suc index)
    shift = omega arith

IsLeast-cons :
    (index k i n : ℕ) (counts : List ℕ) (j m : ℕ)
    → IsLeast (suc index) (if ltb k n then (index, k) else (i, n)) counts (j, m)
    → IsLeast index (i, n) (k ∷ counts) (j, m)
IsLeast-cons index k i n counts j m h =
    ground (arith, h, get_elem?-first index k j m counts, get_elem?-later index k j m counts)

find_least-IsLeast :
    (index : ℕ) (best : ℕ × ℕ) (counts : List ℕ)
    → IsLeast index best counts (find_least index best counts)
unfolding find_least
find_least-IsLeast index best [] = (omega arith, tt, inl (refl, refl))
find_least-IsLeast index (i, n) (k ∷ counts) =
    IsLeast-cons index k i n counts _ _
      (find_least-IsLeast (suc index) (if ltb k n then (index, k) else (i, n)) counts)

-- FindThread returns the index of a thread whose number of connections is the least of all.
pub find_thread_lem :
    (first : ℕ) (counts : List ℕ)
    → (m : ℕ) × (get_elem? (first ∷ counts) (find_thread first counts) ≡ some m)
      × All (λ k. m ≤ k) (first ∷ counts)
unfolding find_thread
find_thread_lem first counts =
    found (find_least 1 (0, first) counts) (find_least-IsLeast 1 (0, first) counts)
  where
    found :
        (r : ℕ × ℕ)
        → IsLeast 1 (0, first) counts r
        → (m : ℕ) × (get_elem? (first ∷ counts) r.0 ≡ some m) × All (λ k. m ≤ k) (first ∷ counts)
    found (j, m) (low, all, inl (e, f)) = (m, ground (arith, e, f), (low, all))
    found (zero, m) (low, all, inr (h, l, e)) = ground arith
    found (suc j, m) (low, all, inr (h, l, e)) =
        (m, ap (get_elem? counts) (omega arith) ∙ e, (low, all))
