-- ===== src/Core/Reward/Conserve.antt =====
-- The sums of the balances before and after a settlement (`UpdateBalances` of src/core.cpp).
use prime_pool_deprecated.Common.{
  ℕ, ◌+◌, ◌-◌, ◌^◌, ◌≤◌, ◌<◌, ◌≡◌, ◌≢◌, refl, sym, ap, subst, ◌∙◌, [], ◌∷◌, ◌++◌, some, arith, min,
  max, if◌then◌else◌,
}
use prime_pool_deprecated.Common.Order.{bytes_order, ℕ_order}
use prime_pool_deprecated.Common.StdMap.{
  same_key, same_key→eq, same_key_refl, lookup, total-insert, measure_at-le-total, lookup-insert,
}
use mathlib.Core.Option
use prime_pool_deprecated.Bytes.{u64}
use prime_pool_deprecated.Coinbase.{Address, amount_at, add_credit}
use prime_pool_deprecated.Record.{Account}
use prime_pool_deprecated.Database.{get_keys}
use prime_pool_deprecated.Core.{Floats, Core, earning, total_weight}
use prime_pool_deprecated.Core.Accounts.{
  Accounts, IsAccounts, map_accounts, total_balance, lookup-IsKeyed, update_record-known,
  get_record-known, IsAccounts-map, lookup-map_accounts,
}
use prime_pool_deprecated.Core.Reward.{
  Settlement, credit, net_reward, finder_bonus, pay_finder, pay_remainder, settlement, settle_all,
}
use prime_pool_deprecated.Core.Reward.Settle.{settle_account, total_earned, Fits, settle_all_lem}

-- A credit to an account that is there, without wrap-around, keeps the database well-formed and
-- adds to its balance, and so to the sum of the balances, and to nothing else.
pub credit_lem :
    (k j : Address) (n : ℕ) (db : Accounts) (a : Account)
    → IsAccounts db
    → lookup k db ≡ some a
    → a.account_balance + n < 2 ^ 64
    → IsAccounts (credit k n db)
      × (total_balance (credit k n db) ≡ total_balance db + n)
      × (lookup j (credit k n db) ≡ (
          if same_key j k
          then some (record a { account_balance = a.account_balance + n })
          else lookup j db))
unfolding credit
credit_lem k j n db a v e h =
    let b = record a { account_balance = u64 (a.account_balance + n) } in
    let known = lookup-IsKeyed k db a v.keyed e in
    ground (
      arith,
      get_record-known k db e,
      update_record-known k a b db v known,
      total-insert (λ (x : Account). x.account_balance) k b db v.sorted,
      lookup-insert k j b db,
    )

balance-le-total :
    (k : Address) (db : Accounts) (a : Account)
    → lookup k db ≡ some a
    → a.account_balance ≤ total_balance db
balance-le-total k db a e =
    ground (arith, measure_at-le-total (λ (x : Account). x.account_balance) k db)

-- What the accounts pay for their outputs of the coinbase: no more than they hold.
abbrev pub total_charged : Core → Accounts → ℕ
total_charged c [] = 0
total_charged c ((k, a) ∷ db) =
    min a.account_balance (amount_at k c.coinbase.outputs) + total_charged c db

module _ (fl : Floats) (c : Core) (weight reward : ℕ) where
  -- The loop moves the balances by what is paid and what is earned.
  pub total_balance-settle_account :
      (db : Accounts)
      → total_balance db + total_earned fl c weight reward db < 2 ^ 64
      → total_balance (map_accounts (settle_account fl c weight reward) db) + total_charged c db
        ≡ total_balance db + total_earned fl c weight reward db
  unfolding settle_account
  total_balance-settle_account [] h = omega arith
  total_balance-settle_account ((k, a) ∷ db) h = ground (arith, total_balance-settle_account db)

  Fits-of_total : (db : Accounts) → total_balance db < 2 ^ 64 → Fits fl c weight reward db
  Fits-of_total [] h = tt
  Fits-of_total ((k, a) ∷ db) h = (omega arith, Fits-of_total db (omega arith))

  settle_account-IsAccounts :
      (db : Accounts)
      → IsAccounts db
      → IsAccounts (map_accounts (settle_account fl c weight reward) db)
  unfolding settle_account
  settle_account-IsAccounts db v = IsAccounts-map _ db (λ k a. refl) v

  -- The remainder goes to the block finder's account.
  pay_remainder-total :
      (s : Settlement) (a : Account)
      → IsAccounts s.db
      → lookup c.last_blockfinder s.db ≡ some a
      → total_balance s.db + (reward - s.total_reward) < 2 ^ 64
      → total_balance (pay_remainder fl c reward s).db
        ≡ total_balance s.db + (reward - s.total_reward)
  unfolding pay_remainder
  pay_remainder-total s a v e h = ground (
    arith,
    credit_lem c.last_blockfinder c.last_blockfinder (reward - s.total_reward) s.db a v e,
    balance-le-total c.last_blockfinder s.db a e,
  )

-- The law of doubles that the bonus relies on: of an integer that a double holds exactly, a part
-- below one is no more than the integer.
pub record IsPart (fl : Floats) : Type 0 where
  pub bonus_le : (n : ℕ) → n < 2 ^ 53 → finder_bonus fl n ≤ n

-- The state of the loop when the bonus has been paid.
abbrev after_bonus : Floats → Core → ℕ → Settlement
after_bonus fl c net =
    let bonus = finder_bonus fl net in
    record {
      db = credit c.last_blockfinder bonus c.account_db;
      credits = add_credit c.last_blockfinder bonus [];
      total_reward = 0;
      stats = c.stats ++ earning c.last_blockfinder c.current_round c.best_height 0 bonus ∷ [];
    }

pay_finder-after_bonus :
    (fl : Floats) (c : Core) (net : ℕ)
    → c.last_blockfinder ≢ []
    → net < 2 ^ 53
    → finder_bonus fl net ≤ net
    → pay_finder fl c net ≡ (after_bonus fl c net, net - finder_bonus fl net)
unfolding pay_finder
pay_finder-after_bonus fl c net ne small le = ground (arith, same_key→eq c.last_blockfinder [])

-- On a well-formed account database in which the block finder has an account, for a net reward
-- below 2 ^ 53 of which the bonus is a part, and without wrap-around, a settlement changes the
-- sum of the balances by the payments it charges, the bonus, and the larger of the rest of the
-- net reward and the sum of what the shares earn.
pub settlement-total :
    (fl : Floats) (c : Core) (pool_fee : Floats.F fl) (reward net left : ℕ) (a : Account)
    → IsPart fl
    → IsAccounts c.account_db
    → c.last_blockfinder ≢ []
    → lookup c.last_blockfinder c.account_db ≡ some a
    → net_reward fl pool_fee reward ≡ net
    → net < 2 ^ 53
    → left ≡ net - finder_bonus fl net
    → let db = credit c.last_blockfinder (finder_bonus fl net) c.account_db in
      let earned_sum = total_earned fl c (total_weight db) left db in
      total_balance c.account_db + net + earned_sum < 2 ^ 64
      → total_balance (settlement fl pool_fee reward c).db + total_charged c db
        ≡ total_balance c.account_db + finder_bonus fl net + max left earned_sum
unfolding settlement
settlement-total fl c pool_fee reward net left a part v ne e en small el bound =
    ap (λ (n : ℕ). total_balance (finish (pay_finder fl c n)).db + total_charged c db) en
    ∙ ap (λ (r : Settlement × ℕ). total_balance (finish r).db + total_charged c db)
        (pay_finder-after_bonus fl c net ne small le)
    ∙ ap (λ (n : ℕ). total_balance (finish (after_bonus fl c net, n)).db + total_charged c db)
        (sym el)
    ∙ omega (arith, credited.1, settled.1, moved, remainder)
  where
    bonus : ℕ
    bonus = finder_bonus fl net

    le : bonus ≤ net
    le = part.bonus_le net small

    finish : Settlement × ℕ → Settlement
    finish (s, n) = pay_remainder fl c n (settle_all fl c (total_weight s.db) n (get_keys s.db) s)

    db : Accounts
    db = credit c.last_blockfinder bonus c.account_db

    weight : ℕ
    weight = total_weight db

    s2 : Settlement
    s2 = settle_all fl c weight left (get_keys db) (after_bonus fl c net)

    a1 : Account
    a1 = record a { account_balance = a.account_balance + bonus }

    a2 : Account
    a2 = settle_account fl c weight left c.last_blockfinder a1

    credited :
        IsAccounts db
        × (total_balance db ≡ total_balance c.account_db + bonus)
        × (lookup c.last_blockfinder db ≡ some a1)
    credited =
        let r =
          credit_lem c.last_blockfinder c.last_blockfinder bonus c.account_db a v e
            (omega (arith, balance-le-total c.last_blockfinder c.account_db a e)) in
        (r.0, r.1, r.2 ∙ rw (same_key_refl c.last_blockfinder))

    settled :
        (s2.db ≡ map_accounts (settle_account fl c weight left) db)
        × (s2.total_reward ≡ 0 + total_earned fl c weight left db)
    settled =
        settle_all_lem fl c weight left db (after_bonus fl c net) refl credited.0
          (Fits-of_total fl c weight left db (omega (arith, credited.1))) (omega arith)

    finder_there : lookup c.last_blockfinder s2.db ≡ some a2
    finder_there =
        ap (lookup c.last_blockfinder) settled.0
        ∙ lookup-map_accounts (settle_account fl c weight left) c.last_blockfinder db
        ∙ ap (Option.map (settle_account fl c weight left c.last_blockfinder)) credited.2

    moved :
        total_balance s2.db + total_charged c db
        ≡ total_balance db + total_earned fl c weight left db
    moved =
        ap (λ (m : Accounts). total_balance m + total_charged c db) settled.0
        ∙ total_balance-settle_account fl c weight left db (omega (arith, credited.1))

    remainder :
        total_balance (pay_remainder fl c left s2).db
        ≡ total_balance s2.db + (left - s2.total_reward)
    remainder =
        pay_remainder-total fl c weight left s2 a2
          (subst IsAccounts (sym settled.0)
            (settle_account-IsAccounts fl c weight left db credited.0))
          finder_there (omega (arith, credited.1, settled.1, moved))
