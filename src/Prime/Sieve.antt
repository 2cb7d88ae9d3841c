-- ===== src/Prime/Sieve.antt =====
-- The sieve marks the composite numbers (`Eratosthenes` of src/prime.cpp).
use native.Mathlib.Nat.{mul-le-mul, mul-le-mul_right, mul-le-mul_left}
use prime_pool_deprecated.Common.{
  ℕ, zero, suc, ◌+◌, ◌-◌, ◌*◌, ◌^◌, ◌<◌, ◌≤◌, ◌≡◌, inl, inr, refl, ap, ◌∙◌, Bool, true, false, not,
  ◌&&◌, ◌||◌, ◌↔◌, List, [], ◌∷◌, arith, ltb, leb, ◌==◌, if◌then◌else◌, length, get_or, set,
  replicate, length-set, Bool-cases,
}
use prime_pool_deprecated.Bytes.{u32}
use prime_pool_deprecated.Prime.{mark_multiples, mark_all, collect, eratosthenes}

-- A product of two numbers from 2 on.
abbrev pub Composite : ℕ → Type 0
Composite k = (a b : ℕ) × (2 ≤ a) × (2 ≤ b) × (a * b ≡ k)

get_or-set :
    (xs : List Bool) (i k : ℕ) (v : Bool)
    → get_or (set xs i v) k false ≡ (if (k == i) && ltb i (length xs) then v else get_or xs k false)
get_or-set [] i k v = ground arith
get_or-set (x ∷ xs) zero zero v = ground arith
get_or-set (x ∷ xs) zero (suc k) v = ground arith
get_or-set (x ∷ xs) (suc i) zero v = ground arith
get_or-set (x ∷ xs) (suc i) (suc k) v = ground (arith, get_or-set xs i k v)

get_or-replicate : (n k : ℕ) → get_or (replicate n false) k false ≡ false
get_or-replicate zero k = refl
get_or-replicate (suc n) zero = refl
get_or-replicate (suc n) (suc k) = get_or-replicate n k

length-replicate : (n : ℕ) → length (replicate n false) ≡ n
length-replicate zero = refl
length-replicate (suc n) = ap suc (length-replicate n)

-- No product of the loops wraps.
abbrev pub max_sieve : ℕ
max_sieve = 2 ^ 15

product_fits :
    (composite index : ℕ)
    → composite ≤ 2 ^ 16
    → index ≤ 2 ^ 15
    → u32 (composite * index) ≡ composite * index
product_fits composite index hc hi = omega (arith, mul-le-mul hc hi)

-- Everything marked is composite.
abbrev MarksComposite : List Bool → Type 0
MarksComposite table = (k : ℕ) → get_or table k false ≡ true → Composite k

set-MarksComposite :
    (index composite : ℕ) (table : List Bool)
    → 2 ≤ index
    → 2 ≤ composite
    → MarksComposite table
    → MarksComposite (set table (composite * index) true)
set-MarksComposite index composite table hi hc m k e =
    elim (Bool-cases (k == (composite * index))) [
      | inl same ↦ (composite, index, hc, hi, ground (arith, same))
      | inr other ↦ m k (ground (arith, e, other, get_or-set table (composite * index) k true))
    ]

mark_multiples-MarksComposite :
    (rounds size index composite : ℕ) (table : List Bool)
    → 2 ≤ index
    → index ≤ max_sieve
    → 2 ≤ composite
    → composite + rounds ≤ 2 ^ 16
    → MarksComposite table
    → MarksComposite (mark_multiples rounds size index composite table)
unfolding mark_multiples
mark_multiples-MarksComposite zero size index composite table hi hs hc hr m = m
mark_multiples-MarksComposite (suc rounds) size index composite table hi hs hc hr m =
    rw (product_fits composite index (omega arith) hs)
      (elim (Bool-cases (ltb (composite * index) size)) [
        | inl more ↦ rw more (
            mark_multiples-MarksComposite rounds size index (composite + 1)
              (set table (composite * index) true) hi hs (omega arith) (omega arith)
              (set-MarksComposite index composite table hi hc m))
        | inr done ↦ rw done m
      ])

mark_all-MarksComposite :
    (count size index : ℕ) (table : List Bool)
    → 2 ≤ index
    → index + count ≤ max_sieve
    → size ≤ max_sieve
    → MarksComposite table
    → MarksComposite (mark_all count size index table)
unfolding mark_all
mark_all-MarksComposite zero size index table hi hc hs m = m
mark_all-MarksComposite (suc count) size index table hi hc hs m =
    mark_all-MarksComposite count size (index + 1) (mark_multiples size size index 2 table)
      (omega arith) (omega arith) hs
      (mark_multiples-MarksComposite size size index 2 table hi (omega arith) (omega arith)
        (omega arith) m)

-- What is marked stays marked, and the table keeps its length.
mark_multiples-keeps :
    (rounds size index composite k : ℕ) (table : List Bool)
    → get_or table k false ≡ true
    → get_or (mark_multiples rounds size index composite table) k false ≡ true
unfolding mark_multiples
mark_multiples-keeps zero size index composite k table e = e
mark_multiples-keeps (suc rounds) size index composite k table e = ground (
  arith,
  get_or-set table (u32 (composite * index)) k true,
  mark_multiples-keeps rounds size index (composite + 1) k
      (set table (u32 (composite * index)) true),
)

length-mark_multiples :
    (rounds size index composite : ℕ) (table : List Bool)
    → length (mark_multiples rounds size index composite table) ≡ length table
unfolding mark_multiples
length-mark_multiples zero size index composite table = refl
length-mark_multiples (suc rounds) size index composite table = ground (
  arith,
  length-set table (u32 (composite * index)) true,
  length-mark_multiples rounds size index (composite + 1)
      (set table (u32 (composite * index)) true),
)

-- A multiple from the loop's present one on is marked: `more` further rounds reach it.
mark_multiples-marks :
    (more rounds size index composite k : ℕ) (table : List Bool)
    → index ≤ max_sieve
    → more < rounds
    → composite + rounds ≤ 2 ^ 16
    → length table ≡ size
    → (composite + more) * index ≡ k
    → k < size
    → get_or (mark_multiples rounds size index composite table) k false ≡ true
unfolding mark_multiples
mark_multiples-marks more zero size index composite k table hs hm hr len e h = absurd (omega arith)
mark_multiples-marks zero (suc rounds) size index composite k table hs hm hr len e h =
    let here : composite * index ≡ k = ap (λ (n : ℕ). n * index) (omega arith) ∙ e in
    rw (product_fits composite index (omega arith) hs) (
      ground (
        arith,
        here,
        get_or-set table (composite * index) k true,
        mark_multiples-keeps rounds size index (composite + 1) k
            (set table (composite * index) true),
      ))
mark_multiples-marks (suc more) (suc rounds) size index composite k table hs hm hr len e h =
    let next : (composite + 1 + more) * index ≡ k = ap (λ (n : ℕ). n * index) (omega arith) ∙ e in
    let below : composite * index ≤ (composite + 1 + more) * index =
      mul-le-mul_right index (omega arith) in
    rw (product_fits composite index (omega arith) hs) (
      ground (
        arith,
        next,
        below,
        length-set table (composite * index) true,
        mark_multiples-marks more rounds size index (composite + 1) k
            (set table (composite * index) true) hs (omega arith) (omega arith),
      ))

mark_all-keeps :
    (count size index k : ℕ) (table : List Bool)
    → get_or table k false ≡ true
    → get_or (mark_all count size index table) k false ≡ true
unfolding mark_all
mark_all-keeps zero size index k table e = e
mark_all-keeps (suc count) size index k table e =
    mark_all-keeps count size (index + 1) k (mark_multiples size size index 2 table)
      (mark_multiples-keeps size size index 2 k table e)

mark_all-marks :
    (j count size index a k : ℕ) (table : List Bool)
    → j < count
    → index + count ≤ max_sieve
    → size ≤ max_sieve
    → length table ≡ size
    → 2 ≤ a
    → 1 ≤ index
    → a * (index + j) ≡ k
    → k < size
    → get_or (mark_all count size index table) k false ≡ true
unfolding mark_all
mark_all-marks j zero size index a k table hj hc hs len ha hi e h = absurd (omega arith)
mark_all-marks zero (suc count) size index a k table hj hc hs len ha hi e h =
    let here : (2 + (a - 2)) * index ≡ k =
      ap (λ (n : ℕ). n * index) (omega arith) ∙ ap (λ (n : ℕ). a * n) (omega arith) ∙ e in
    let low : a * 1 ≤ a * (index + 0) = mul-le-mul_left a (omega arith) in
    mark_all-keeps count size (index + 1) k (mark_multiples size size index 2 table) (
      mark_multiples-marks (a - 2) size size index 2 k table (omega arith) (omega arith)
        (omega arith) len here h)
mark_all-marks (suc j) (suc count) size index a k table hj hc hs len ha hi e h =
    mark_all-marks j count size (index + 1) a k (mark_multiples size size index 2 table)
      (omega arith) (omega arith) hs (length-mark_multiples size size index 2 table ∙ len) ha
      (omega arith) (ap (λ (n : ℕ). a * n) (omega arith) ∙ e) h

-- What is collected is what is not marked.
abbrev pub contains : ℕ → List ℕ → Bool
contains k [] = false
contains k (x ∷ xs) = k == x || contains k xs

contains-collect :
    (count index k : ℕ) (table : List Bool)
    → contains k (collect count index table)
      ≡ ((leb index k && ltb k (index + count)) && not (get_or table k false))
unfolding collect
contains-collect zero index k table = ground arith
contains-collect (suc count) index k table = elim (Bool-cases (k == index)) [
  | inl e ↦ ground (arith, e, contains-collect count (index + 1) k table, same k index)
  | inr e ↦ ground (arith, e, contains-collect count (index + 1) k table)
]
  where
    same : (a b : ℕ) → a ≡ b → get_or table a false ≡ get_or table b false
    same a b e = ap (λ (n : ℕ). get_or table n false) e

-- A prime: from 2 on, and no product of two numbers from 2 on.
abbrev pub IsPrime : ℕ → Type 0
IsPrime k = (2 ≤ k) × (Composite k → ⊥)

sieved : ℕ → List Bool
sieved size = mark_all (size - 2) size 2 (replicate size false)

sieved-MarksComposite : (size : ℕ) → size ≤ max_sieve → MarksComposite (sieved size)
unfolding sieved
sieved-MarksComposite size h =
    mark_all-MarksComposite (size - 2) size 2 (replicate size false) (omega arith) (omega arith) h
      (λ k e. cc (get_or-replicate size k, e))

sieved-marks :
    (size k : ℕ) → size ≤ max_sieve → k < size → Composite k → get_or (sieved size) k false ≡ true
unfolding sieved
sieved-marks size k hs h (a, b, ha, hb, e) =
    let low : 2 * b ≤ a * b = mul-le-mul_right b ha in
    mark_all-marks (b - 2) (size - 2) size 2 a k (replicate size false) (omega arith) (omega arith)
      hs (length-replicate size) ha (omega arith) (ap (λ (n : ℕ). a * n) (omega arith) ∙ e) h

-- The sieve of a size up to 2 ^ 15 holds a number exactly if it is a prime below the size.
pub contains-eratosthenes :
    (size k : ℕ)
    → size ≤ max_sieve
    → (contains k (eratosthenes size) ≡ true) ↔ ((k < size) × IsPrime k)
unfolding eratosthenes sieved
contains-eratosthenes size k hs = (
  λ e. (bound e, (from_two e, λ c. cc (unmarked e, sieved-marks size k hs (bound e) c))),
  λ (h, (two, prime)). elim (Bool-cases (get_or (sieved size) k false)) [
    | inl marked ↦ absurd (prime (sieved-MarksComposite size hs k marked))
    | inr free ↦ ground (arith, free, contains-collect (size - 2) 2 k (sieved size))
  ],
)
  where
    bound : contains k (eratosthenes size) ≡ true → k < size
    bound e = ground (arith, e, contains-collect (size - 2) 2 k (sieved size))

    from_two : contains k (eratosthenes size) ≡ true → 2 ≤ k
    from_two e = ground (arith, e, contains-collect (size - 2) 2 k (sieved size))

    unmarked : contains k (eratosthenes size) ≡ true → get_or (sieved size) k false ≡ false
    unmarked e = ground (arith, e, contains-collect (size - 2) 2 k (sieved size))
