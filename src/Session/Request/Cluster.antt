-- ===== src/Session/Request/Cluster.antt =====
-- The session with the difficulty of src/prime.cpp: the shares of `ProcessPacket` (src/LLP/pool.cpp)
-- are numbers that `GmpVerification` tests.
use prime_pool_deprecated.Common.{
  ℕ, ◌+◌, ◌%◌, ◌^◌, ◌<◌, ◌≡◌, inl, inr, refl, sym, ap, ◌∙◌, Bool, true, false, not, Option, none,
  some, arith, leb, ◌==◌, if◌then◌else◌, Bool-cases,
}
use mathlib.Core.Option
use prime_pool_deprecated.Common.Order.{ℕ_order, bytes_order}
use prime_pool_deprecated.Common.StdMap.{lookup, has}
use prime_pool_deprecated.Prime.{
  Bignum, Doubles, gmp_prime_test, gmp_search, max_rounds, gmp_verification,
}
use prime_pool_deprecated.Prime.Agree.{gmp_verification-fails, gmp_verification_total}
use prime_pool_deprecated.Session.{
  MiningBlock, Difficulty, Session, Pool, reject, respond, penalize,
}
use prime_pool_deprecated.Session.Request.{check_share, find_block}
mod Tests

module _ (bn : Bignum) (fl : Doubles) (bits : fl.D → ℕ) (reached : fl.D → ℕ → Bool)
    (low : fl.D → Bool) (channel weighed : fl.D → ℕ) where
  -- The sessions' difficulty, with the verification of src/prime.cpp.
  abbrev pub verified : Difficulty
  verified = record {
    D = fl.D;
    verify = λ n. (gmp_verification_total bn fl n).0;
    set_bits = bits;
    reaches = reached;
    below_eight = low;
    channel_of = channel;
    weight = weighed;
  }

  pub verify-fails :
      (n : ℕ) → gmp_prime_test bn n ≡ false → (gmp_verification_total bn fl n).0 ≡ fl.of_u32 0
  verify-fails n h =
      ap value (sym (gmp_verification_total bn fl n).1 ∙ gmp_verification-fails bn fl n h)
    where
      value : Option fl.D → fl.D
      value none = fl.of_u32 0
      value (some x) = x

  pool_of : Option (Session × Pool verified) → Pool verified → Pool verified
  pool_of none pool = pool
  pool_of (some r) pool = r.1

  check_share_untested :
      (now origin pointer : ℕ) (b : MiningBlock) (nonce : ℕ) (m : Session) (pool : Pool verified)
      → gmp_prime_test bn ((origin + nonce) % 2 ^ 1024) ≡ false
      → bits (fl.of_u32 0) < pool.minimum_share
      → pool_of (check_share verified now origin pointer b nonce m pool) pool ≡ pool
  unfolding check_share pool_of
  check_share_untested now origin pointer b nonce m pool h low =
      elim (Bool-cases (has ((origin + nonce) % 2 ^ 1024) pool.primes)) [
        | inl known ↦ rw known refl
        | inr fresh ↦ rw (fresh, refused) refl
      ]
    where
      refused :
          leb pool.minimum_share
            (bits (gmp_verification_total bn fl ((origin + nonce) % 2 ^ 1024)).0)
          ≡ false
      refused = rw (verify-fails ((origin + nonce) % 2 ^ 1024) h) (ground arith)

  -- With the cluster search as verification, and a minimum above the bits of the difficulty 0, a
  -- share whose number fails the primality test changes nothing of the pool, whatever branch is
  -- taken.
  pub find_block_untested :
      (now origin nonce : ℕ) (m m' : Session) (pool pool' : Pool verified)
      → gmp_prime_test bn ((origin + nonce) % 2 ^ 1024) ≡ false
      → bits (fl.of_u32 0) < pool.minimum_share
      → find_block verified now origin nonce m pool ≡ some (m', pool')
      → pool' ≡ pool
  unfolding pool_of find_block
  find_block_untested now origin nonce m m' pool pool' h low run =
      ap (λ r. pool_of r pool) (sym run) ∙ unchanged
    where
      by_block :
          (pointer : ℕ) (found : Option MiningBlock)
          → lookup origin m.map_blocks ≡ some pointer
          → lookup pointer pool.heap ≡ found
          → pool_of (find_block verified now origin nonce m pool) pool ≡ pool
      by_block pointer none e f = ground (arith, e, f)
      by_block pointer (some b) e f = elim (Bool-cases (b.height == pool.core.best_height)) [
        | inl g ↦
            ground (arith, e, f, g, check_share_untested now origin pointer b nonce m pool h low)
        | inr g ↦ ground (arith, e, f, g)
      ]

      by_pointer :
          (found : Option ℕ)
          → lookup origin m.map_blocks ≡ found
          → pool_of (find_block verified now origin nonce m pool) pool ≡ pool
      by_pointer none e = ground (arith, e)
      by_pointer (some pointer) e = by_block pointer (lookup pointer pool.heap) e refl

      unchanged : pool_of (find_block verified now origin nonce m pool) pool ≡ pool
      unchanged = by_pointer (lookup origin m.map_blocks) refl
