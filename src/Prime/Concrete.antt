-- ===== src/Prime/Concrete.antt =====
-- An instance of the numbers and doubles of src/prime.cpp: powers that are computed, and fractions.
use prime_pool_deprecated.Common.{ℕ, ◌+◌, ◌-◌, ◌*◌, ◌%◌, ◌^◌, ◌≡◌, refl, false, arith, ltb, ◌==◌}
use native.Mathlib.Nat.{mod-lt}
use prime_pool_deprecated.Prime.{Bignum, Doubles, prime_sieve, gmp_prime_test}

abbrev pub computed : Bignum
computed = record {
  mpz_divisible_ui = λ n d. n % d == 0;
  mpz_powm = λ a e n. a ^ e % n;
  bn_mod_exp = λ a e n. a ^ e % n;
  bn_is_prime = λ n checks. 2 ^ (n - 1) % n == 1;
  divisible_iff = λ n d h. (λ e. ground (arith, e), λ e. ground (arith, e));
  powm_exp = λ a e n h. refl;
  mod_exp_lt = λ a e n h. mod-lt (a ^ e) h;
}

-- A fraction is a pair of its numerator and its denominator.
abbrev pub fractions : Doubles
fractions = record {
  D = ℕ × ℕ;
  of_u32 = λ n. (n, 1);
  add = λ x y. (x.0 * y.1 + y.0 * x.1, x.1 * y.1);
  div = λ x y. (x.0 * y.1, x.1 * y.0);
  gtb = λ x y. ltb (y.0 * x.1) (x.0 * y.1);
  million = (1000000, 1);
}

-- 1003 is 17 * 59.
pub untested : gmp_prime_test computed 1003 ≡ false
unfolding gmp_prime_test prime_sieve
untested = refl
