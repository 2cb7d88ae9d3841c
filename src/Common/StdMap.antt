-- ===== src/Common/StdMap.antt =====
-- `std::map`: an association list in key order. `m[k] = v` is `insert`, `m.count(k)` is `has`,
-- `m.erase(k)` is `erase`, and iteration is in the order of the list.
use Prim.Native.Nat.{ℕ, ◌+◌, ◌≤◌, Ordering}
use mathlib.Core.Path.{◌≡◌, refl}
use mathlib.Core.Bool.{Bool, true, false}
use mathlib.Core.List.{List, [], ◌∷◌, ◌++◌}
use mathlib.Core.Option.{Option, none, some}
use native.Mathlib.Omega.{arith}
use prime_pool_deprecated.Common.Tests.{if◌then◌else◌}
use prime_pool_deprecated.Common.Order.{KeyOrder}

abbrev pub StdMap {ℓ κ} : Type ℓ → Type κ → Type (ℓ ⊔ κ)
StdMap K V = List (K × V)

module _ {ℓ} {K : Type ℓ} ⦃o : KeyOrder K⦄ where
  abbrev pub same_key : K → K → Bool
  same_key a b = elim (o.cmp a b) [ Ordering.eq ↦ true | _ ↦ false ]

  pub same_key→eq : (a b : K) → same_key a b ≡ true → a ≡ b
  same_key→eq a b h = ground (arith, o.cmp_eq a b)

  pub same_key_refl : (a : K) → same_key a a ≡ true
  same_key_refl a = ground (arith, o.cmp_refl a)

module _ {ℓ κ} {K : Type ℓ} {V : Type κ} ⦃o : KeyOrder K⦄ where
  abbrev pub lookup : K → StdMap K V → Option V
  lookup k [] = none
  lookup k ((j, v) ∷ m) = if same_key k j then some v else lookup k m

  abbrev pub has : K → StdMap K V → Bool
  has k m = elim (lookup k m) [ none ↦ false | some _ ↦ true ]

  abbrev pub insert : K → V → StdMap K V → StdMap K V
  insert k v [] = (k, v) ∷ []
  insert k v ((j, w) ∷ m) = elim (o.cmp k j) [
    | Ordering.lt ↦ (k, v) ∷ (j, w) ∷ m
    | Ordering.eq ↦ (k, v) ∷ m
    | Ordering.gt ↦ (j, w) ∷ insert k v m
  ]

  abbrev pub erase : K → StdMap K V → StdMap K V
  erase k [] = []
  erase k ((j, w) ∷ m) = let rest = erase k m in if same_key k j then rest else (j, w) ∷ rest

  pub lookup-insert :
      (k j : K) (v : V) (m : StdMap K V)
      → lookup j (insert k v m) ≡ (if same_key j k then some v else lookup j m)
  lookup-insert k j v [] = refl
  lookup-insert k j v ((i, w) ∷ m) =
      ground (arith, lookup-insert k j v m, o.cmp_eq k i, o.cmp_eq j k, o.cmp_eq j i, o.cmp_refl i)

  pub lookup-erase :
      (k j : K) (m : StdMap K V)
      → lookup j (erase k m) ≡ (if same_key j k then none else lookup j m)
  lookup-erase k j [] = ground arith
  lookup-erase k j ((i, w) ∷ m) =
      ground (arith, lookup-erase k j m, o.cmp_eq k i, o.cmp_eq j k, o.cmp_eq j i, o.cmp_refl i)

  -- `k` comes before every key.
  abbrev pub Above : K → StdMap K V → Type 0
  Above k [] = Unit
  Above k ((j, w) ∷ m) = (o.cmp k j ≡ Ordering.lt) × Above k m

  abbrev pub IsSorted : StdMap K V → Type 0
  IsSorted [] = Unit
  IsSorted ((k, v) ∷ m) = Above k m × IsSorted m

  pub Above-trans : (k j : K) (m : StdMap K V) → o.cmp k j ≡ Ordering.lt → Above j m → Above k m
  Above-trans k j [] h a = tt
  Above-trans k j ((i, w) ∷ m) h a = (o.cmp_trans k j i h a.0, Above-trans k j m h a.1)

  pub lookup-Above : (k : K) (m : StdMap K V) → Above k m → lookup k m ≡ none
  lookup-Above k [] a = refl
  lookup-Above k ((i, w) ∷ m) a = ground (arith, lookup-Above k m a.1)

  pub Above-insert :
      (i k : K) (v : V) (m : StdMap K V)
      → o.cmp i k ≡ Ordering.lt
      → Above i m
      → Above i (insert k v m)
  Above-insert i k v [] h a = (h, tt)
  Above-insert i k v ((j, w) ∷ m) h a = ground (arith, Above-insert i k v m h a.1)

  pub insert-IsSorted : (k : K) (v : V) (m : StdMap K V) → IsSorted m → IsSorted (insert k v m)
  insert-IsSorted k v [] s = (tt, tt)
  insert-IsSorted k v ((j, w) ∷ m) s = ground (
    arith,
    insert-IsSorted k v m s.1,
    Above-insert j k v m,
    o.cmp_swap k j,
    o.cmp_eq k j,
    Above-trans k j m,
  )

  Above-erase : (i k : K) (m : StdMap K V) → Above i m → Above i (erase k m)
  Above-erase i k [] a = tt
  Above-erase i k ((j, w) ∷ m) a = ground (arith, Above-erase i k m a.1)

  pub erase-IsSorted : (k : K) (m : StdMap K V) → IsSorted m → IsSorted (erase k m)
  erase-IsSorted k [] s = tt
  erase-IsSorted k ((j, w) ∷ m) s = ground (arith, erase-IsSorted k m s.1, Above-erase j k m)

  -- The sum of a measure over the values.
  abbrev pub total : (V → ℕ) → StdMap K V → ℕ
  total f [] = 0
  total f ((k, v) ∷ m) = f v + total f m

  abbrev pub measure_at : (V → ℕ) → K → StdMap K V → ℕ
  measure_at f k m = elim (lookup k m) [ none ↦ 0 | some v ↦ f v ]

  pub total-insert :
      (f : V → ℕ) (k : K) (v : V) (m : StdMap K V)
      → IsSorted m
      → total f (insert k v m) + measure_at f k m ≡ total f m + f v
  total-insert f k v [] s = omega arith
  total-insert f k v ((j, w) ∷ m) s =
      ground (arith, total-insert f k v m s.1, lookup-Above k m, Above-trans k j m)

  pub measure_at-le-total : (f : V → ℕ) (k : K) (m : StdMap K V) → measure_at f k m ≤ total f m
  measure_at-le-total f k [] = omega arith
  measure_at-le-total f k ((j, w) ∷ m) = ground (arith, measure_at-le-total f k m)

  Above-middle :
      (i k : K) (v : V) (xs ys : StdMap K V) → Above i (xs ++ (k, v) ∷ ys) → o.cmp i k ≡ Ordering.lt
  Above-middle i k v [] ys a = a.0
  Above-middle i k v (x ∷ xs) ys a = Above-middle i k v xs ys a.1

  -- A key above all others goes to the end.
  pub insert-last :
      (acc rest : StdMap K V) (k : K) (v : V)
      → IsSorted (acc ++ (k, v) ∷ rest)
      → insert k v acc ≡ acc ++ (k, v) ∷ []
  insert-last [] rest k v s = refl
  insert-last ((j, w) ∷ acc) rest k v s = ground (
    arith,
    insert-last acc rest k v s.1,
    Above-middle j k v acc rest s.0,
    o.cmp_swap k j,
    o.cmp_eq k j,
    o.cmp_trans k j k,
    o.cmp_refl k,
  )

  -- The entry in the middle of a map in key order: reading, writing, and who comes before whom.
  pub lookup-middle :
      (front rest : StdMap K V) (k : K) (v : V)
      → IsSorted (front ++ (k, v) ∷ rest)
      → lookup k (front ++ (k, v) ∷ rest) ≡ some v
  lookup-middle [] rest k v s = ground (arith, same_key_refl k)
  lookup-middle ((j, w) ∷ front) rest k v s = ground (
    arith,
    lookup-middle front rest k v s.1,
    Above-middle j k v front rest s.0,
    o.cmp_eq k j,
    o.cmp_refl k,
  )

  pub insert-middle :
      (front rest : StdMap K V) (k : K) (v w : V)
      → IsSorted (front ++ (k, v) ∷ rest)
      → insert k w (front ++ (k, v) ∷ rest) ≡ front ++ (k, w) ∷ rest
  insert-middle [] rest k v w s = ground (arith, o.cmp_refl k)
  insert-middle ((j, u) ∷ front) rest k v w s = ground (
    arith,
    insert-middle front rest k v w s.1,
    Above-middle j k v front rest s.0,
    o.cmp_swap k j,
    o.cmp_eq k j,
    o.cmp_refl k,
    o.cmp_trans j k j,
    o.cmp_refl j,
  )

  Above-replace :
      (i k : K) (v w : V) (xs ys : StdMap K V)
      → Above i (xs ++ (k, v) ∷ ys)
      → Above i (xs ++ (k, w) ∷ ys)
  Above-replace i k v w [] ys a = a
  Above-replace i k v w (x ∷ xs) ys a = (a.0, Above-replace i k v w xs ys a.1)

  pub IsSorted-replace :
      (front rest : StdMap K V) (k : K) (v w : V)
      → IsSorted (front ++ (k, v) ∷ rest)
      → IsSorted (front ++ (k, w) ∷ rest)
  IsSorted-replace [] rest k v w s = s
  IsSorted-replace ((j, u) ∷ front) rest k v w s =
      (Above-replace j k v w front rest s.0, IsSorted-replace front rest k v w s.1)
