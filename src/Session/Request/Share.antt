-- ===== src/Session/Request/Share.antt =====
-- The branch SUBMIT_SHARE of `ProcessPacket` (src/LLP/pool.cpp).
use prime_pool_deprecated.Common.{
  ℕ, ◌+◌, ◌%◌, ◌^◌, ◌≡◌, inl, inr, refl, sym, Bool, none, ap, ◌∙◌, true, false, Option, some, arith,
  ltb, leb, ◌&&◌, not, if◌then◌else◌, length, set, get_or, Bool-cases,
}
use prime_pool_deprecated.Common.Order.{ℕ_order, bytes_order}
use prime_pool_deprecated.Common.StdMap.{
  lookup, has, insert, same_key, same_key_refl, lookup-insert,
}
use prime_pool_deprecated.Bytes.{u32, u64}
use prime_pool_deprecated.Coinbase.{Address}
use prime_pool_deprecated.Record.{Account}
use prime_pool_deprecated.Database.{accounts, get_record, update_record}
use prime_pool_deprecated.Core.{Core}
use prime_pool_deprecated.Core.Accounts.{
  Accounts, IsAccounts, lookup-IsKeyed, update_record-known, get_record-known,
}
use prime_pool_deprecated.Session.{
  MiningBlock, Difficulty, Session, Pool, accept, reject, respond, penalize,
}
use prime_pool_deprecated.Session.Request.{hand_on, count_share, check_share, find_block}

module _ (d : Difficulty) where
  -- A prime that is known is rejected, whoever sends it.
  check_share-known :
      (now origin pointer : ℕ) (b : MiningBlock) (nonce : ℕ) (m : Session) (pool : Pool d)
      → has ((origin + nonce) % 2 ^ 1024) pool.primes ≡ true
      → check_share d now origin pointer b nonce m pool
        ≡ some (penalize now 5 (respond reject m), pool)
  unfolding check_share
  check_share-known now origin pointer b nonce m pool h = rw h refl

  -- The accounts after a share of `n` for the address.
  abbrev shared : Address → ℕ → Accounts → Accounts
  shared address n db =
      let (db', account) = get_record accounts address db in
      update_record accounts (record account { round_shares = u64 (account.round_shares + n) }) db'

  -- A share that is counted, with the pool that it leaves.
  abbrev Counts : ℕ → Session → Pool d → Option (Session × Pool d) → Type 0
  Counts prime m pool result =
      (m' : Session) × (pool' : Pool d) × (result ≡ some (m', pool'))
      × (pool'.primes ≡ insert prime (d.verify prime) pool.primes)
      × (pool'.core ≡ (record pool.core {
        account_db = shared m.address (d.weight (d.verify prime)) pool.core.account_db;
      }))

  count_share-Counts :
      (prime pointer : ℕ) (b : MiningBlock) (nonce : ℕ) (m : Session) (pool : Pool d)
      → (d.below_eight (d.verify prime)
          && not (ltb (d.channel_of (d.verify prime)) (length pool.difficulty_shares)))
        ≡ false
      → Counts prime m pool (count_share d prime pointer b nonce m pool)
  unfolding count_share
  count_share-Counts prime pointer b nonce m pool h = elim (Bool-cases (d.reaches found b.bits)) [
    | inl e ↦ (
      hand_on pointer m.submission m,
      record pool' { heap = insert pointer (record b { nonce = nonce }) pool.heap },
      rw (h, e) refl,
      refl,
      refl,
    )
    | inr e ↦ (respond accept m, pool', rw (h, e) refl, refl, refl)
  ]
    where
      found : d.D
      found = d.verify prime

      i : ℕ
      i = d.channel_of found

      pool' : Pool d
      pool' = record pool {
        core = record pool.core {
          account_db = shared m.address (d.weight found) pool.core.account_db;
        };
        primes = insert prime found pool.primes;
        difficulty_shares =
            if d.below_eight found
            then set pool.difficulty_shares i (u32 (get_or pool.difficulty_shares i 0 + 1))
            else pool.difficulty_shares;
      }

  -- The conditions of a share that counts.
  pub record IsShare (origin nonce pointer : ℕ) (b : MiningBlock) (m : Session) (pool : Pool d)
      : Type 0 where
    pub known_block : lookup origin m.map_blocks ≡ some pointer
    pub live : lookup pointer pool.heap ≡ some b
    pub current : b.height ≡ pool.core.best_height

  find_block_current :
      (now origin nonce pointer : ℕ) (b : MiningBlock) (m : Session) (pool : Pool d)
      → IsShare origin nonce pointer b m pool
      → find_block d now origin nonce m pool ≡ check_share d now origin pointer b nonce m pool
  unfolding find_block
  find_block_current now origin nonce pointer b m pool v =
      ground (arith, v.known_block, v.live, v.current)

  -- What a share is worth, and that the table of difficulties has a place for it.
  pub record IsNew (origin nonce : ℕ) (pool : Pool d) : Type 0 where
    pub unknown : has ((origin + nonce) % 2 ^ 1024) pool.primes ≡ false
    pub enough : leb pool.minimum_share (d.set_bits (d.verify ((origin + nonce) % 2 ^ 1024))) ≡ true
    pub placed :
        (d.below_eight (d.verify ((origin + nonce) % 2 ^ 1024))
          && not (
              ltb
                (d.channel_of (d.verify ((origin + nonce) % 2 ^ 1024)))
                (length pool.difficulty_shares)))
        ≡ false

  -- A share on a live block of the session at the present height, whose prime is new and reaches
  -- the minimum difficulty, and for whose difficulty the table has a place, is accepted: its
  -- prime is kept, its weight is added to the shares of the session's account, which is in the
  -- well-formed database, and every other account finds what it found.
  pub find_block_counts :
      (now origin nonce pointer : ℕ) (b : MiningBlock) (m : Session) (pool : Pool d) (a : Account)
      (j : Address)
      → IsShare origin nonce pointer b m pool
      → IsNew origin nonce pool
      → IsAccounts pool.core.account_db
      → lookup m.address pool.core.account_db ≡ some a
      → (m' : Session) × (pool' : Pool d) × (find_block d now origin nonce m pool
          ≡ some (m', pool'))
        × (has ((origin + nonce) % 2 ^ 1024) pool'.primes ≡ true)
        × (lookup j pool'.core.account_db ≡ (
            if same_key j m.address
            then some (record a {
              round_shares =
                  u64 (a.round_shares + d.weight (d.verify ((origin + nonce) % 2 ^ 1024)));
            })
            else lookup j pool.core.account_db))
  unfolding check_share
  find_block_counts now origin nonce pointer b m pool a j v n va e =
      let prime = (origin + nonce) % 2 ^ 1024 in
      let (m', pool', run, kept, same) = count_share-Counts prime pointer b nonce m pool n.placed in
      let a' = record a { round_shares = u64 (a.round_shares + d.weight (d.verify prime)) } in
      (
        m',
        pool',
        find_block_current now origin nonce pointer b m pool v ∙ rw (n.unknown, n.enough) run,
        ap (has prime) kept
            ∙ ground (
              arith,
              lookup-insert prime prime (d.verify prime) pool.primes,
              same_key_refl prime,
            ),
        ap (λ (c : Core). lookup j c.account_db) same
            ∙ ap
                (λ (r : Accounts × Account). lookup j (
                  update_record accounts
                    (record r.1 {
                      round_shares = u64 (r.1.round_shares + d.weight (d.verify prime));
                    })
                    r.0))
                (get_record-known m.address pool.core.account_db e)
            ∙ ap (lookup j)
                (update_record-known m.address a a' pool.core.account_db va
                  (lookup-IsKeyed m.address pool.core.account_db a va.keyed e)).0
            ∙ lookup-insert m.address j a' pool.core.account_db,
      )

  -- A share on a live block at the present height whose prime is kept already is rejected with a
  -- penalty, and changes nothing of the pool.
  pub find_block_repeated :
      (now origin nonce pointer : ℕ) (b : MiningBlock) (m : Session) (pool : Pool d)
      → IsShare origin nonce pointer b m pool
      → has ((origin + nonce) % 2 ^ 1024) pool.primes ≡ true
      → find_block d now origin nonce m pool ≡ some (penalize now 5 (respond reject m), pool)
  find_block_repeated now origin nonce pointer b m pool v h =
      find_block_current now origin nonce pointer b m pool v
      ∙ check_share-known now origin pointer b nonce m pool h

  -- What is known of the result of a counted share holds of the pool that it leaves.
  known_after :
      (prime : ℕ) (r r1 : Session × Pool d)
      → some r ≡ some r1
      → has prime r.1.primes ≡ true
      → has prime r1.1.primes ≡ true
  known_after prime r r1 e h = sym (ap known e) ∙ h
    where
      known : Option (Session × Pool d) → Bool
      known none = true
      known (some r) = has prime r.1.primes

  -- After a share on a live block at the present height, new and of the minimum difficulty, has
  -- been counted, every share of the same prime on a live block at the present height, of any
  -- session, is rejected with a penalty and changes nothing of the pool.
  pub share_once :
      (now later origin nonce pointer origin' nonce' pointer' : ℕ) (b b' : MiningBlock)
      (m m1 n : Session) (pool pool1 : Pool d)
      → IsShare origin nonce pointer b m pool
      → IsNew origin nonce pool
      → find_block d now origin nonce m pool ≡ some (m1, pool1)
      → IsShare origin' nonce' pointer' b' n pool1
      → (origin' + nonce') % 2 ^ 1024 ≡ (origin + nonce) % 2 ^ 1024
      → find_block d later origin' nonce' n pool1
        ≡ some (penalize later 5 (respond reject n), pool1)
  unfolding check_share
  share_once now later origin nonce pointer origin' nonce' pointer' b b' m m1 n pool pool1 v new e w
        same =
      let prime = (origin + nonce) % 2 ^ 1024 in
      let (m', pool', run, kept, rest) =
        count_share-Counts prime pointer b nonce m pool new.placed in
      let first =
        find_block_current now origin nonce pointer b m pool v ∙ rw (new.unknown, new.enough) run in
      let here =
        ap (has prime) kept
        ∙ ground
            (arith, lookup-insert prime prime (d.verify prime) pool.primes, same_key_refl prime) in
      find_block_repeated later origin' nonce' pointer' b' n pool1 w
        (rw same (known_after prime (m', pool') (m1, pool1) (sym first ∙ e) here))
