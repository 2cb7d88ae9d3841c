-- ===== src/Prime/Agree.antt =====
-- The two ways to the difficulty of a prime cluster in src/prime.cpp: `CheckPrimeDifficulty`, on
-- OpenSSL's numbers, and `GmpVerification`, on GMP's.
use prime_pool_deprecated.Common.{
  ℕ, zero, suc, ◌+◌, ◌-◌, ◌*◌, ◌%◌, ◌^◌, ◌<◌, ◌≤◌, ◌≡◌, inl, inr, refl, sym, ◌∙◌, Bool, true, false,
  not, ◌&&◌, List, [], ◌∷◌, Option, none, some, arith, ltb, leb, ◌==◌, if◌then◌else◌, Bool-cases,
}
use mathlib.Core.Option
use prime_pool_deprecated.Bytes.{u32}
use prime_pool_deprecated.Prime.{
  mark_multiples, mark_all, collect, eratosthenes, prime_sieve, Bignum, Doubles, fermat_test,
  divisor_check, gmp_divisor, gmp_fermat, gmp_prime_test, gmp_search, check_search, max_rounds,
  difficulty_of, gmp_verification, check_prime_difficulty,
}
use prime_pool_deprecated.Prime.Search.{Ends, max_rounds_enough, gmp_search-Ends}

all_positive : List ℕ → Bool
all_positive [] = true
all_positive (p ∷ ps) = ltb 0 p && all_positive ps

prime_sieve_positive : all_positive prime_sieve ≡ true
unfolding prime_sieve eratosthenes mark_all mark_multiples collect all_positive
prime_sieve_positive = refl

module _ (bn : Bignum) where
  divides-agree : (n p : ℕ) → 0 < p → bn.mpz_divisible_ui n p ≡ (n % p == 0)
  divides-agree n p h = elim (Bool-cases (n % p == 0)) [
    | inl hit ↦ (bn.divisible_iff n p h).1 (ground (arith, hit)) ∙ sym hit
    | inr other ↦ (elim (Bool-cases (bn.mpz_divisible_ui n p)) [
      | inl divides ↦ absurd (ground (arith, other, (bn.divisible_iff n p h).0 divides))
      | inr miss ↦ miss ∙ sym other
    ])
  ]

  divisors-agree :
      (n : ℕ) (ps : List ℕ) → all_positive ps ≡ true → gmp_divisor bn n ps ≡ divisor_check bn n ps
  unfolding gmp_divisor divisor_check all_positive
  divisors-agree n [] h = refl
  divisors-agree n (p ∷ ps) h = ground (arith, divides-agree n p, divisors-agree n ps, h)

  fermat-agree : (n : ℕ) → 1 < n → gmp_fermat bn n ≡ (fermat_test bn n 2 == 1)
  unfolding gmp_fermat fermat_test
  fermat-agree n h = rw (bn.powm_exp 2 (n - 1) n h) refl

  -- The test of a candidate, in both ways.
  candidate-agree :
      (n : ℕ)
      → 1 < n
      → gmp_prime_test bn n ≡ (divisor_check bn n prime_sieve && (fermat_test bn n 2 == 1))
  unfolding gmp_prime_test
  candidate-agree n h =
      rw (divisors-agree n prime_sieve prime_sieve_positive, fermat-agree n h)
        (elim (Bool-cases (divisor_check bn n prime_sieve)) [
          | inl hit ↦ rw hit refl
          | inr other ↦ rw other refl
        ])

  behind : ℕ → ℕ × ℕ → ℕ × ℕ
  behind prime r = (r.0, prime + r.1 + 2)

  guard_chain :
      {A : Type 0}
      → (a b : Bool) (hit miss : A)
      → (if not a then miss else (if b then hit else miss)) ≡ (if a && b then hit else miss)
  guard_chain true b hit miss = refl
  guard_chain false b hit miss = refl

  gap_test : (next last gap : ℕ) → next ≡ last + gap → leb next (last + 12) ≡ leb gap 12
  gap_test next last gap e = ground arith

  -- The two searches, step by step: the gap is the next candidate's distance from the last prime.
  search-agree :
      (rounds prime n offset last gap cluster : ℕ)
      → 1 < n
      → n ≡ prime + offset
      → n + 2 ≡ last + gap
      → gap ≤ 14
      → offset + 2 * rounds < 2 ^ 32
      → check_search bn rounds (n + 2) last cluster
        ≡ Option.map (behind prime) (gmp_search bn rounds n cluster gap offset)
  unfolding check_search gmp_search behind Option.map
  search-agree zero prime n offset last gap cluster hn at inv small room = refl
  search-agree (suc rounds) prime n offset last gap cluster hn at inv small room =
      rw
        (
          gap_test (n + 2) last gap inv,
          guard_chain (divisor_check bn (n + 2) prime_sieve) (fermat_test bn (n + 2) 2 == 1)
              (check_search bn rounds (n + 2 + 2) (n + 2) (u32 (cluster + 1)))
              (check_search bn rounds (n + 2 + 2) last cluster),
          sym (candidate-agree (n + 2) (omega arith)),
        )
        (elim (Bool-cases (leb gap 12)) [
          | inl more ↦ (elim (Bool-cases (gmp_prime_test bn (n + 2))) [
            | inl hit ↦
                rw (more, hit)
                  (search-agree rounds prime (n + 2) (u32 (offset + 2)) (n + 2) 2
                    (u32 (cluster + 1)) (omega arith) (omega arith) refl (omega arith)
                    (omega arith))
            | inr miss ↦
                rw (more, miss)
                  (search-agree rounds prime (n + 2) (u32 (offset + 2)) last (u32 (gap + 2)) cluster
                    (omega arith) (omega arith) (ground (arith, more)) (ground (arith, more))
                    (omega arith))
          ])
          | inr done ↦ rw (done, at) refl
        ])

  module _ (fl : Doubles) where
    -- For a number above 1 without a divisor in the sieve, the search with numbers of OpenSSL
    -- and that with numbers of GMP, whose gap and offset are unsigned int, give the same
    -- difficulty.
    pub check_prime_difficulty-agrees :
        (prime : ℕ)
        → 1 < prime
        → divisor_check bn prime prime_sieve ≡ true
        → check_prime_difficulty bn fl prime ≡ gmp_verification bn fl prime
    unfolding check_prime_difficulty gmp_verification behind
    check_prime_difficulty-agrees prime h clean =
        rw
          (
            candidate-agree prime h,
            clean,
            search-agree max_rounds prime prime 0 prime 2 1 h (omega arith) refl (omega arith)
                (omega (arith, max_rounds_enough.1)),
          )
          (elim (Bool-cases (fermat_test bn prime 2 == 1)) [
            | inl hit ↦ rw (hit, composed (gmp_search bn max_rounds prime 1 2 0)) refl
            | inr miss ↦ rw miss refl
          ])
      where
        composed :
            (r : Option (ℕ × ℕ))
            → Option.map (λ (s : ℕ × ℕ). difficulty_of bn fl s.0 s.1) (Option.map (behind prime) r)
              ≡ Option.map (λ (s : ℕ × ℕ). difficulty_of bn fl s.0 (prime + s.1 + 2)) r
        composed none = refl
        composed (some s) = refl

    -- A number that fails the test has the difficulty 0.
    pub gmp_verification-fails :
        (prime : ℕ)
        → gmp_prime_test bn prime ≡ false
        → gmp_verification bn fl prime ≡ some (fl.of_u32 0)
    unfolding gmp_verification
    gmp_verification-fails prime h = rw h refl

    -- The cluster search always ends, whatever the primality test answers about numbers without
    -- small divisors: 1163 rounds are enough for every number.
    pub gmp_verification_total :
        (prime : ℕ) → (difficulty : fl.D) × (gmp_verification bn fl prime ≡ some difficulty)
    unfolding gmp_verification Ends
    gmp_verification_total prime = go (gmp_search-Ends bn prime 1 0)
      where
        go :
            Ends bn (gmp_search bn max_rounds prime 1 2 0)
            → (difficulty : fl.D) × (gmp_verification bn fl prime ≡ some difficulty)
        go (cluster, offset, e) = elim (Bool-cases (gmp_prime_test bn prime)) [
          | inl hit ↦ (difficulty_of bn fl cluster (prime + offset + 2), rw (hit, e) refl)
          | inr miss ↦ (fl.of_u32 0, rw miss refl)
        ]
