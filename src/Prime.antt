-- ===== src/Prime.antt =====
-- The prime clusters of src/prime.cpp. GMP and OpenSSL are the parameter `Bignum`, doubles are the
-- parameter `Doubles`; a `CBigNum` and an `mpz_t` are numbers here, since none is negative.
pub mod Sieve
pub mod Search
pub mod Agree
pub mod Concrete
mod Tests
use prime_pool_deprecated.Common.{
  ℕ, zero, suc, ◌+◌, ◌-◌, ◌*◌, ◌/◌, ◌%◌, ◌^◌, ◌<◌, ◌≤◌, ◌≡◌, ◌↔◌, Bool, true, false, not, ◌&&◌,
  ◌||◌, List, [], ◌∷◌, ◌++◌, take, Option, none, some, ltb, leb, ◌==◌, if◌then◌else◌, get_or, set,
  replicate, min,
}
use mathlib.Core.Option
use prime_pool_deprecated.Bytes.{u32}

-- The loop over `nComposite`, with a count of the rounds that are left.
pub mark_multiples : ℕ → ℕ → ℕ → ℕ → List Bool → List Bool
mark_multiples zero size index composite table = table
mark_multiples (suc rounds) size index composite table =
    let rest =
      mark_multiples rounds size index (composite + 1) (set table (u32 (composite * index)) true) in
    if ltb (u32 (composite * index)) size then rest else table

-- The loop over `nIndex`, for `count` values from `index` on.
pub mark_all : ℕ → ℕ → ℕ → List Bool → List Bool
unfolding mark_multiples
mark_all zero size index table = table
mark_all (suc count) size index table =
    mark_all count size (index + 1) (mark_multiples size size index 2 table)

-- The loop that collects what is not marked.
pub collect : ℕ → ℕ → List Bool → List ℕ
collect zero index table = []
collect (suc count) index table =
    let rest = collect count (index + 1) table in
    if not (get_or table index false) then index ∷ rest else rest

-- `Eratosthenes`.
pub eratosthenes : ℕ → List ℕ
unfolding mark_all collect
eratosthenes size = collect (size - 2) 2 (mark_all (size - 2) size 2 (replicate size false))

-- `InitializePrimes`: PRIME_SIEVE.
pub prime_sieve : List ℕ
unfolding eratosthenes
prime_sieve = eratosthenes 80

-- The calls of GMP and OpenSSL, with their documented behaviour.
pub record Bignum : Type 0 where
  pub mpz_divisible_ui : ℕ → ℕ → Bool
  pub mpz_powm : ℕ → ℕ → ℕ → ℕ
  pub bn_mod_exp : ℕ → ℕ → ℕ → ℕ
  pub bn_is_prime : ℕ → ℕ → Bool
  pub divisible_iff : (n d : ℕ) → 0 < d → (mpz_divisible_ui n d ≡ true) ↔ (n % d ≡ 0)
  pub powm_exp : (a e n : ℕ) → 1 < n → mpz_powm a e n ≡ bn_mod_exp a e n
  pub mod_exp_lt : (a e n : ℕ) → 0 < n → bn_mod_exp a e n < n

-- The doubles of a difficulty.
pub record Doubles : Type 1 where
  pub D : Type 0
  pub of_u32 : ℕ → D
  pub add : D → D → D
  pub div : D → D → D
  pub gtb : D → D → Bool
  -- 1000000.0
  pub million : D

-- The rounds that are enough: see Prime/Search.
unfoldable pub max_rounds : ℕ
max_rounds = 1163

module _ (bn : Bignum) where
  open bn use {mpz_divisible_ui, mpz_powm, bn_mod_exp, bn_is_prime}

  -- `FermatTest`.
  pub fermat_test : ℕ → ℕ → ℕ
  fermat_test n a = bn_mod_exp a (n - 1) n

  -- `DivisorCheck` and `GmpDivisor`, over the primes that are left.
  pub divisor_check : ℕ → List ℕ → Bool
  divisor_check n [] = true
  divisor_check n (p ∷ ps) = let rest = divisor_check n ps in if n % p == 0 then false else rest

  pub gmp_divisor : ℕ → List ℕ → Bool
  gmp_divisor n [] = true
  gmp_divisor n (p ∷ ps) =
      let rest = gmp_divisor n ps in if mpz_divisible_ui n p then false else rest

  pub gmp_fermat : ℕ → Bool
  gmp_fermat n = mpz_powm 2 (n - 1) n == 1

  pub gmp_prime_test : ℕ → Bool
  unfolding gmp_divisor gmp_fermat
  gmp_prime_test n = if not (gmp_divisor n prime_sieve) then false else gmp_fermat n

  -- The loop of `GmpVerification`: the candidate, the cluster's size, the gap and the offset. The
  -- result is the cluster's size and the last offset; `none` where the rounds run out.
  pub gmp_search : ℕ → ℕ → ℕ → ℕ → ℕ → Option (ℕ × ℕ)
  gmp_search zero n cluster gap offset = none
  gmp_search (suc rounds) n cluster gap offset =
      let missed = gmp_search rounds (n + 2) cluster (u32 (gap + 2)) (u32 (offset + 2)) in
      let found = gmp_search rounds (n + 2) (u32 (cluster + 1)) 2 (u32 (offset + 2)) in
      if leb gap 12
      then (if gmp_prime_test (n + 2) then found else missed)
      else some (cluster, offset)

  -- The loop of `CheckPrimeDifficulty`: `next` and `lastPrime`. The result is the cluster's size and
  -- the number behind the cluster.
  pub check_search : ℕ → ℕ → ℕ → ℕ → Option (ℕ × ℕ)
  unfolding divisor_check fermat_test
  check_search zero next last cluster = none
  check_search (suc rounds) next last cluster =
      let missed = check_search rounds (next + 2) last cluster in
      let found = check_search rounds (next + 2) next (u32 (cluster + 1)) in
      if leb next (last + 12)
      then (if not (divisor_check next prime_sieve)
          then missed
          else (if fermat_test next 2 == 1 then found else missed))
      else some (cluster, next)

  -- `GetFractionalDifficulty`: `composite - FermatTest(composite, 2) << 24` shifts the difference.
  pub get_fractional_difficulty : ℕ → ℕ
  unfolding fermat_test
  get_fractional_difficulty composite =
      u32 ((composite - fermat_test composite 2) * 2 ^ 24 / composite)

  -- The small divisors, and the bases, of `PrimeCheck`.
  pub fermat_bases : ℕ → ℕ → ℕ → Bool
  unfolding fermat_test
  fermat_bases zero n a = true
  fermat_bases (suc rounds) n a =
      let rest = fermat_bases rounds n (a + 1) in if not (fermat_test n a == 1) then false else rest

  pub prime_check : ℕ → ℕ → Bool
  unfolding divisor_check fermat_bases
  prime_check n checks =
      if not (divisor_check n (take checks (2 ∷ 3 ∷ 5 ∷ 7 ∷ [])))
      then false
      else (if not (bn_is_prime n checks) then false else fermat_bases checks n 2)

  module _ (fl : Doubles) where
    open fl use {D, of_u32, add, div, gtb, million}

    -- A cluster and the composite behind it; the fraction is 0 if it is out of [0, 1].
    pub difficulty_of : ℕ → ℕ → D
    unfolding get_fractional_difficulty
    difficulty_of cluster composite =
        let fraction = div million (of_u32 (get_fractional_difficulty composite)) in
        add (of_u32 cluster)
          (if gtb fraction (of_u32 1) || gtb (of_u32 0) fraction then of_u32 0 else fraction)

    -- `GmpVerification`.
    pub gmp_verification : ℕ → Option D
    unfolding gmp_search difficulty_of
    gmp_verification prime =
        let search = gmp_search max_rounds prime 1 2 0 in
        if not (gmp_prime_test prime)
        then some (of_u32 0)
        else Option.map (λ (r : ℕ × ℕ). difficulty_of r.0 (prime + r.1 + 2)) search

    -- `CheckPrimeDifficulty`.
    pub check_prime_difficulty : ℕ → Option D
    unfolding check_search difficulty_of
    check_prime_difficulty prime =
        let search = check_search max_rounds (prime + 2) prime 1 in
        if not (fermat_test prime 2 == 1)
        then some (of_u32 0)
        else Option.map (λ (r : ℕ × ℕ). difficulty_of r.0 r.1) search
