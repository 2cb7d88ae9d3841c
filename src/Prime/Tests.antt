-- ===== src/Prime/Tests.antt =====
-- Concrete runs of the prime clusters of src/prime.cpp.
use prime_pool_deprecated.Common.{ℕ, ◌<◌, ◌≡◌, ◌↔◌, refl, true, some, arith}
use prime_pool_deprecated.Prime.{
  mark_multiples, mark_all, collect, eratosthenes, prime_sieve, divisor_check, gmp_search,
  gmp_prime_test, max_rounds, gmp_verification, check_prime_difficulty,
}
use prime_pool_deprecated.Prime.Sieve.{contains, IsPrime, contains-eratosthenes}
use prime_pool_deprecated.Prime.Search.{Ends, gmp_search-Ends}
use prime_pool_deprecated.Prime.Agree.{check_prime_difficulty-agrees, gmp_verification_total}
use prime_pool_deprecated.Prime.Concrete.{computed, fractions}

contains-eratosthenes_example : (contains 79 (eratosthenes 80) ≡ true) ↔ ((79 < 80) × IsPrime 79)
contains-eratosthenes_example = contains-eratosthenes 80 79 (omega arith)

gmp_search-Ends_example : Ends computed (gmp_search computed max_rounds 101 1 2 0)
gmp_search-Ends_example = gmp_search-Ends computed 101 1 0

-- 101, 103, 107, 109 and 113 are a cluster, and 127 is too far from 113.
cluster_test : gmp_search computed 20 101 1 2 0 ≡ some (5, 24)
unfolding gmp_search gmp_prime_test prime_sieve
cluster_test = refl

clean : divisor_check computed 101 prime_sieve ≡ true
unfolding divisor_check prime_sieve eratosthenes mark_all mark_multiples collect
clean = refl

check_prime_difficulty-agrees_example :
    check_prime_difficulty computed fractions 101 ≡ gmp_verification computed fractions 101
check_prime_difficulty-agrees_example =
    check_prime_difficulty-agrees computed fractions 101 (omega arith) clean

gmp_verification_total_example :
    (difficulty : ℕ × ℕ) × (gmp_verification computed fractions 101 ≡ some difficulty)
gmp_verification_total_example = gmp_verification_total computed fractions 101
