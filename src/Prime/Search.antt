-- ===== src/Prime/Search.antt =====
-- The search for a cluster ends (`GmpVerification` of src/prime.cpp): among 1155 candidates that
-- follow one another there is one from which on six in a row have a divisor among 3, 5, 7 and 11.
use prime_pool_deprecated.Common.{
  ℕ, zero, suc, ◌+◌, ◌-◌, ◌*◌, ◌%◌, ◌^◌, ◌<◌, ◌≤◌, ◌≡◌, inl, inr, refl, sym, ap, ◌∙◌, true, false,
  List, [], ◌∷◌, Option, some, arith, leb, ◌==◌, Bool-cases,
}
use prime_pool_deprecated.Bytes.{u32}
use prime_pool_deprecated.Prime.{
  mark_multiples, mark_all, collect, eratosthenes, prime_sieve, Bignum, gmp_divisor, gmp_prime_test,
  gmp_search, max_rounds,
}
use prime_pool_deprecated.Prime.Sieve.{contains}

pub small_primes :
    (contains 3 prime_sieve ≡ true)
    × (contains 5 prime_sieve ≡ true)
    × (contains 7 prime_sieve ≡ true)
    × (contains 11 prime_sieve ≡ true)
unfolding prime_sieve eratosthenes mark_all mark_multiples collect
small_primes = (refl, refl, refl, refl)

-- Enough rounds for the 1155 candidates and the six behind them, and no offset that wraps.
pub max_rounds_enough : (1154 + 6 < max_rounds) × (2 * max_rounds < 2 ^ 32)
unfolding max_rounds
max_rounds_enough = (omega arith, omega arith)

module _ (bn : Bignum) where
  gmp_divisor-divides :
      (n p : ℕ) (ps : List ℕ)
      → 0 < p
      → n % p ≡ 0
      → contains p ps ≡ true
      → gmp_divisor bn n ps ≡ false
  unfolding gmp_divisor
  gmp_divisor-divides n p [] hp e c = cc
  gmp_divisor-divides n p (q ∷ ps) hp e c = elim (Bool-cases (p == q)) [
    | inl same ↦
        ground (arith, same, hits q (ground (arith, same)), gmp_divisor-divides n p ps hp e)
    | inr other ↦ ground (arith, other, c, gmp_divisor-divides n p ps hp e)
  ]
    where
      hits : (r : ℕ) → p ≡ r → bn.mpz_divisible_ui n r ≡ true
      hits r h = ap (bn.mpz_divisible_ui n) (sym h) ∙ (bn.divisible_iff n p hp).1 e

  -- A number with a divisor in the sieve is no candidate.
  pub gmp_prime_test-divides :
      (n p : ℕ) → 0 < p → n % p ≡ 0 → contains p prime_sieve ≡ true → gmp_prime_test bn n ≡ false
  unfolding gmp_prime_test
  gmp_prime_test-divides n p hp e c = rw (gmp_divisor-divides n p prime_sieve hp e c)

  -- The next `m` candidates behind `n` fail.
  Fails : ℕ → ℕ → Type 0
  Fails zero n = Unit
  Fails (suc m) n = (gmp_prime_test bn (n + 2) ≡ false) × Fails m (n + 2)

  -- 5, 3, 7, 11, 3 and 5 are divisors of the six candidates.
  desert : (n : ℕ) → n % 1155 ≡ 113 → Fails 6 n
  unfolding Fails
  desert n e =
      let (c3, c5, c7, c11) = small_primes in
      (
        gmp_prime_test-divides (n + 2) 5 (omega arith) (omega arith) c5,
        (
          gmp_prime_test-divides (n + 2 + 2) 3 (omega arith) (omega arith) c3,
          (
            gmp_prime_test-divides (n + 2 + 2 + 2) 7 (omega arith) (omega arith) c7,
            (
              gmp_prime_test-divides (n + 2 + 2 + 2 + 2) 11 (omega arith) (omega arith) c11,
              (
                gmp_prime_test-divides (n + 2 + 2 + 2 + 2 + 2) 3 (omega arith) (omega arith) c3,
                (
                  gmp_prime_test-divides (n + 2 + 2 + 2 + 2 + 2 + 2) 5 (omega arith) (omega arith)
                      c5,
                  tt,
                ),
              ),
            ),
          ),
        ),
      )

  -- A search ends within the candidates that fail, once the gap exceeds 12.
  unfoldable pub Ends : Option (ℕ × ℕ) → Type 0
  Ends result = (cluster offset : ℕ) × (result ≡ some (cluster, offset))

  Ends-in_desert :
      (m rounds n cluster gap offset : ℕ)
      → m < rounds
      → gap ≤ 14
      → 12 < gap + 2 * m
      → Fails m n
      → Ends (gmp_search bn rounds n cluster gap offset)
  unfolding gmp_search Fails Ends
  Ends-in_desert m zero n cluster gap offset h g e f = absurd (omega arith)
  Ends-in_desert zero (suc rounds) n cluster gap offset h g e f = (cluster, offset, ground arith)
  Ends-in_desert (suc m) (suc rounds) n cluster gap offset h g e f =
      elim (Bool-cases (leb gap 12)) [
        | inl more ↦
            rw (more, f.0)
              (Ends-in_desert m rounds (n + 2) cluster (u32 (gap + 2)) (u32 (offset + 2))
                (omega arith) (ground arith) (ground arith) f.1)
        | inr done ↦ (cluster, offset, rw done refl)
      ]

  Ends-before :
      (k rounds n cluster gap offset : ℕ)
      → k + 6 < rounds
      → 2 ≤ gap
      → gap ≤ 14
      → (n + 2 * k) % 1155 ≡ 113
      → Ends (gmp_search bn rounds n cluster gap offset)
  unfolding gmp_search Ends
  Ends-before k zero n cluster gap offset h low g e = absurd (omega arith)
  Ends-before zero (suc rounds) n cluster gap offset h low g e =
      Ends-in_desert 6 (suc rounds) n cluster gap offset (omega arith) g (omega arith)
        (desert n (omega arith))
  Ends-before (suc k) (suc rounds) n cluster gap offset h low g e = elim (Bool-cases (leb gap 12)) [
    | inl more ↦ (elim (Bool-cases (gmp_prime_test bn (n + 2))) [
      | inl hit ↦
          rw (more, hit)
            (Ends-before k rounds (n + 2) (u32 (cluster + 1)) 2 (u32 (offset + 2)) (omega arith)
              (omega arith) (omega arith) (omega arith))
      | inr miss ↦
          rw (more, miss)
            (Ends-before k rounds (n + 2) cluster (u32 (gap + 2)) (u32 (offset + 2)) (omega arith)
              (ground arith) (ground arith) (omega arith))
    ])
    | inr done ↦ (cluster, offset, rw done refl)
  ]

  pub gmp_search-Ends : (n cluster offset : ℕ) → Ends (gmp_search bn max_rounds n cluster 2 offset)
  gmp_search-Ends n cluster offset =
      Ends-before ((113 + 1155 - n % 1155) * 578 % 1155) max_rounds n cluster 2 offset
        (omega (arith, max_rounds_enough.0)) (omega arith) (omega arith) (omega arith)
