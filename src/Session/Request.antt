-- ===== src/Session/Request.antt =====
-- `ProcessPacket` of src/LLP/pool.cpp, branch by branch.
pub mod Share
pub mod Login
mod Cluster
use prime_pool_deprecated.Common.{
  ℕ, ◌+◌, ◌-◌, ◌%◌, ◌^◌, Bool, true, false, not, ◌&&◌, ◌||◌, List, [], ◌∷◌, ◌++◌, Option, none,
  some, ltb, leb, ◌==◌, if◌then◌else◌, length, take, drop, set, get_or,
}
use mathlib.Core.Option
use prime_pool_deprecated.Common.Order.{ℕ_order, bytes_order}
use prime_pool_deprecated.Common.StdMap.{StdMap, lookup, has, insert}
use prime_pool_deprecated.Bytes.{u32, u64, uint2bytes, uint2bytes64, bytes2uint64, bytes2string}
use prime_pool_deprecated.Uint.{get_bytes, set_bytes}
use prime_pool_deprecated.Packet.{Packet}
use prime_pool_deprecated.Ddos.{Filter, add_score, ban}
use prime_pool_deprecated.Coinbase.{Address, amount_at}
use prime_pool_deprecated.Record.{Account, new_account}
use prime_pool_deprecated.Database.{accounts, has_key, get_record, update_record}
use prime_pool_deprecated.Core.{Core}
use prime_pool_deprecated.Session.{
  login_header, submit_share_header, account_balance_header, pending_payout, submit_pps, get_block,
  new_block_header, get_balance, get_payout, accept, reject, block_found, stale, ping, MiningBlock,
  Difficulty, Policy, Session, Pool, write, respond, penalize,
}

-- `if(!SUBMISSION_BLOCK)`: one block at a time waits for its submission.
unfoldable pub hand_on : ℕ → Option ℕ → Session → Session
hand_on pointer none m = respond block_found (record m { submission = some pointer })
hand_on pointer (some other) m = m

module _ (d : Difficulty) where
  open d use {D, verify, set_bits, reaches, below_eight, channel_of, weight}

  -- A share that is new and reaches the minimum: its prime is kept, its weight counts for the
  -- account, and a share that reaches the block's difficulty is handed on for submission.
  unfoldable pub count_share :
      ℕ → ℕ → MiningBlock → ℕ → Session → Pool d → Option (Session × Pool d)
  unfolding hand_on
  count_share prime pointer b nonce m pool =
      let found = verify prime in
      let (db, account) = get_record accounts m.address pool.core.account_db in
      let db' =
        update_record accounts
          (record account { round_shares = u64 (account.round_shares + weight found) }) db in
      let i = channel_of found in
      let pool' = record pool {
        core = record pool.core { account_db = db' };
        primes = insert prime found pool.primes;
        difficulty_shares =
            if below_eight found
            then set pool.difficulty_shares i (u32 (get_or pool.difficulty_shares i 0 + 1))
            else pool.difficulty_shares;
      } in
      let m' = hand_on pointer m.submission m in
      if below_eight found && not (ltb i (length pool.difficulty_shares))
      then none
      else (if reaches found b.bits
          then some
              (m', record pool' { heap = insert pointer (record b { nonce = nonce }) pool.heap })
          else some (respond accept m, pool'))

  -- A share on a block of the present height.
  unfoldable pub check_share :
      ℕ → ℕ → ℕ → MiningBlock → ℕ → Session → Pool d → Option (Session × Pool d)
  unfolding count_share penalize
  check_share now origin pointer b nonce m pool =
      let prime = (origin + nonce) % 2 ^ 1024 in
      let counted = count_share prime pointer b nonce m pool in
      if has prime pool.primes
      then some (penalize now 5 (respond reject m), pool)
      else (if leb pool.minimum_share (set_bits (verify prime))
          then counted
          else some (respond reject (penalize now 5 m), pool))

  -- The block that a share is for.
  unfoldable pub find_block : ℕ → ℕ → ℕ → Session → Pool d → Option (Session × Pool d)
  unfolding check_share penalize
  find_block now origin nonce m pool = elim (lookup origin m.map_blocks) [
    | none ↦ some (penalize now 1 (respond new_block_header (respond reject m)), pool)
    | some pointer ↦ (elim (lookup pointer pool.heap) [
      | none ↦ none
      | some b ↦
          if b.height == pool.core.best_height
          then check_share now origin pointer b nonce m pool
          else some (penalize now 2 (respond new_block_header (respond stale m)), pool)
    ])
  ]

  -- The branch SUBMIT_SHARE.
  pub submit_share : ℕ → List ℕ → Session → Pool d → Option (Session × Pool d)
  unfolding find_block
  submit_share now bytes m pool =
      let n = length bytes - 8 in
      if ltb (length bytes) 8 then none else (elim (set_bytes 32 (take n bytes)) [
        | none ↦ none
        | some origin ↦ find_block now origin (bytes2uint64 (drop n bytes) 0) m pool
      ])

  -- The branch LOGIN, with the result of the packet. (The addresses of banned accounts are kept in
  -- a file, and the counters of connections in the statistics.)
  pub login : Policy → ℕ → List ℕ → Session → Pool d → Bool × Session × Pool d
  unfolding penalize
  login policy now bytes m pool =
      let address = bytes2string bytes 0 in
      let named = record m { address = address } in
      let db = pool.core.account_db in
      let db' =
        if has_key address db then db else update_record accounts (new_account address) db in
      let pool' = record pool { core = record pool.core { account_db = db' } } in
      if m.logged_in
      then (true, penalize now 10 m, pool)
      else (if not (policy.is_valid address)
          then (false, (if m.ddos then record named { filter = ban now m.filter } else named), pool)
          else (if policy.is_banned address
              then (true, record named { filter = ban now m.filter; logged_in = false }, pool')
              else (true, record named { logged_in = true }, pool')))

  -- The branches after the check of the login, but for SUBMIT_SHARE.
  pub answer : ℕ → ℕ → Session → Pool d → Bool × Session × Pool d
  unfolding penalize
  answer now header m pool =
      let (db, account) = get_record accounts m.address pool.core.account_db in
      if header == get_block
      then (true, penalize now 1 (record m { block_requests = u32 (m.block_requests + 1) }), pool)
      else (if header == get_balance
          then (
            true,
            write account_balance_header (uint2bytes64 account.account_balance) m,
            record pool { core = record pool.core { account_db = db } },
          )
          else (if header == get_payout
              then (
                true,
                write pending_payout (uint2bytes64 (amount_at m.address pool.core.coinbase.outputs))
                    m,
                pool,
              )
              else (if header == ping || header == submit_pps
                  then (true, respond ping m, pool)
                  else (false, m, pool))))

  -- `ProcessPacket`: false has the data thread remove the connection.
  pub process_packet : Policy → ℕ → Packet → Session → Pool d → Option (Bool × Session × Pool d)
  unfolding submit_share login answer penalize
  process_packet policy now packet m pool =
      let bytes = packet.content in
      if packet.header == login_header
      then some (login policy now bytes m pool)
      else (if not m.logged_in
          then some (false, penalize now 10 m, pool)
          else (if packet.header == submit_share_header
              then Option.map (λ (r : Session × Pool d). (true, r.0, r.1))
                  (submit_share now bytes m pool)
              else (if packet.header == submit_pps && ltb (length bytes) 8
                  then none
                  else some (answer now packet.header m pool))))
