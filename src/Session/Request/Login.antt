-- ===== src/Session/Request/Login.antt =====
-- What a session may do before and after its login.
use prime_pool_deprecated.Common.{
  ℕ, ◌≡◌, ◌≢◌, refl, inl, inr, true, false, List, some, arith, if◌then◌else◌, Bool-cases,
}
use prime_pool_deprecated.Common.Order.{bytes_order}
use prime_pool_deprecated.Common.StdMap.{lookup, has, same_key, lookup-insert}
use prime_pool_deprecated.Bytes.{bytes2string}
use prime_pool_deprecated.Packet.{Packet}
use prime_pool_deprecated.Coinbase.{Address}
use prime_pool_deprecated.Record.{new_account}
use prime_pool_deprecated.Database.{has_key, update_record}
use prime_pool_deprecated.Session.{login_header, Difficulty, Policy, Session, Pool, penalize}
use prime_pool_deprecated.Session.Request.{login, process_packet}

module _ (d : Difficulty) (policy : Policy) where
  -- Before the login every packet but a login is refused with a penalty, and nothing of the pool
  -- changes.
  pub process_packet_refused :
      (now : ℕ) (packet : Packet) (m : Session) (pool : Pool d)
      → m.logged_in ≡ false
      → packet.header ≢ login_header
      → process_packet d policy now packet m pool ≡ some (false, penalize now 10 m, pool)
  unfolding process_packet
  process_packet_refused now packet m pool out h = ground arith

  -- The first login with a valid address that is not banned logs the session in under that
  -- address; the address has its account then, a new one where there was none, and every other
  -- account is as it was.
  pub login_accepts :
      (now : ℕ) (bytes : List ℕ) (m : Session) (pool : Pool d) (j : Address)
      → let address = bytes2string bytes 0 in
        m.logged_in ≡ false
        → policy.is_valid address ≡ true
        → policy.is_banned address ≡ false
        → let (ok, m', pool') = login d policy now bytes m pool in
          (ok ≡ true)
          × (m'.logged_in ≡ true)
          × (m'.address ≡ address)
          × (lookup j pool'.core.account_db ≡ (
              if has address pool.core.account_db
              then lookup j pool.core.account_db
              else (if same_key j address
                  then some (new_account address)
                  else lookup j pool.core.account_db)))
  unfolding login has_key update_record
  login_accepts now bytes m pool j out valid free =
      let address = bytes2string bytes 0 in
      elim (Bool-cases (has address pool.core.account_db)) [
        | inl e ↦ rw (out, valid, free) (refl, refl, refl, rw e refl)
        | inr e ↦
            rw (out, valid, free)
              (
                refl,
                refl,
                refl,
                rw e (lookup-insert address j (new_account address) pool.core.account_db),
              )
      ]

  -- A first login with an invalid address fails: the session stays out, and the pool as it was.
  pub login_rejects :
      (now : ℕ) (bytes : List ℕ) (m : Session) (pool : Pool d)
      → m.logged_in ≡ false
      → policy.is_valid (bytes2string bytes 0) ≡ false
      → let (ok, m', pool') = login d policy now bytes m pool in
        (ok ≡ false) × (m'.logged_in ≡ false) × (pool' ≡ pool)
  unfolding login
  login_rejects now bytes m pool out bad = ground arith
