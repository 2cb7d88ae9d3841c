-- ===== src/Core/Reward/Settle.antt =====
-- The loop of `UpdateBalances` as a map over the accounts.
use prime_pool_deprecated.Common.{
  ℕ, ◌+◌, ◌^◌, ◌<◌, ◌≡◌, sym, ◌∙◌, inl, inr, [], ◌∷◌, ◌++◌, arith, append_assoc, ◌==◌,
  if◌then◌else◌, Option-cases,
}
use prime_pool_deprecated.Common.Order.{bytes_order, ℕ_order}
use prime_pool_deprecated.Common.StdMap.{IsSorted, IsSorted-replace, lookup, total}
use prime_pool_deprecated.Bytes.{u64}
use prime_pool_deprecated.Coinbase.{Address, amount_at, add_credit}
use prime_pool_deprecated.Record.{Account}
use prime_pool_deprecated.Database.{accounts, get_keys, get_record}
use prime_pool_deprecated.Core.{Floats, Core}
use prime_pool_deprecated.Core.Accounts.{
  Accounts, IsKeyed, IsAccounts, map_accounts, get_record-middle, update_record-middle,
}
use prime_pool_deprecated.Core.Reward.{Settlement, deduct, charge, settle, settle_all, share_credit}

module _ (fl : Floats) (c : Core) (weight reward : ℕ) where
  -- What an account earns with its shares.
  unfoldable pub earned : Account → ℕ
  earned a = if a.round_shares == 0 then 0 else share_credit fl a.round_shares weight reward

  -- The account after its payment and its earnings.
  unfoldable pub settle_account : Address → Account → Account
  settle_account k a = record a {
    account_balance = u64 (deduct a.account_balance (amount_at k c.coinbase.outputs) + earned a);
  }

  charge_key : (k : Address) (a : Account) → (charge fl c k a).key ≡ a.key
  unfolding charge
  charge_key k a = ground arith

  charge_shares : (k : Address) (a : Account) → (charge fl c k a).round_shares ≡ a.round_shares
  unfolding charge
  charge_shares k a = ground arith

  -- What one round does to the settlement.
  abbrev Settled : Accounts → Accounts → Address → Account → Settlement → Settlement → Type 0
  Settled front rest k a s s' =
      (s'.db ≡ front ++ (k, settle_account k a) ∷ rest)
      × (s'.total_reward
          ≡ (if a.round_shares == 0 then s.total_reward else u64 (s.total_reward + earned a)))
      × (s'.credits
          ≡ (if a.round_shares == 0 then s.credits else add_credit k (earned a) s.credits))

  settle-Settled :
      (front rest : Accounts) (k : Address) (a : Account) (s : Settlement)
      → s.db ≡ front ++ (k, a) ∷ rest
      → IsSorted (front ++ (k, a) ∷ rest)
      → a.key ≡ k
      → a.account_balance < 2 ^ 64
      → Settled front rest k a s (settle fl c weight reward k s)
  unfolding settle charge earned settle_account
  settle-Settled front rest k a s e so ke fit = elim (Option-cases (lookup k c.coinbase.outputs)) [
    | inl free ↦ ground (
      arith,
      free,
      read,
      update_record-middle front rest k a (with_balance (a.account_balance + amount)) so ke,
    )
    | inr (paid, due) ↦
        let kept = deduct a.account_balance paid in
        ground (
          arith,
          due,
          read,
          update_record-middle front rest k a (record a { account_balance = kept }) so ke,
          update_record-middle front rest k (record a { account_balance = kept })
              (with_balance (kept + amount))
              (IsSorted-replace front rest k a (record a { account_balance = kept }) so) ke,
        )
  ]
    where
      amount : ℕ
      amount = share_credit fl a.round_shares weight reward

      with_balance : ℕ → Account
      with_balance n = record a { account_balance = u64 n }

      read : get_record accounts k s.db ≡ (front ++ (k, a) ∷ rest, a)
      read = rw e (get_record-middle front rest k a so)

  -- Every balance is a `uint64`.
  abbrev pub Fits : Accounts → Type 0
  Fits [] = Unit
  Fits ((k, a) ∷ db) = (a.account_balance < 2 ^ 64) × Fits db

  -- The sum of what the accounts earn.
  abbrev pub total_earned : Accounts → ℕ
  total_earned = total earned

  total_earns :
      (a : Account) (n m : ℕ)
      → m ≡ (if a.round_shares == 0 then n else u64 (n + earned a))
      → n + earned a < 2 ^ 64
      → m ≡ n + earned a
  unfolding earned
  total_earns a n m e h = ground arith

  settle_all-map :
      (front rest : Accounts) (s : Settlement)
      → s.db ≡ front ++ rest
      → IsSorted (front ++ rest)
      → IsKeyed rest
      → Fits rest
      → s.total_reward + total_earned rest < 2 ^ 64
      → let s' = settle_all fl c weight reward (get_keys rest) s in
        (s'.db ≡ front ++ map_accounts settle_account rest)
        × (s'.total_reward ≡ s.total_reward + total_earned rest)
  unfolding settle_all get_keys
  settle_all-map front [] s e so ke fit h = (e, omega arith)
  settle_all-map front ((k, a) ∷ rest) s e so ke fit h =
      let s1 = settle fl c weight reward k s in
      let one = settle-Settled front rest k a s e so ke.0 fit.0 in
      let k' = settle_account k a in
      let earns : s1.total_reward ≡ s.total_reward + earned a =
        total_earns a s.total_reward s1.total_reward one.1 (omega arith) in
      let (p, q) =
        settle_all-map (front ++ (k, k') ∷ []) rest s1
          (one.0 ∙ sym (append_assoc front ((k, k') ∷ []) rest))
          (rw append_assoc (IsSorted-replace front rest k a k' so)) ke.1 fit.1
          (omega (arith, earns)) in
      (
        p ∙ append_assoc front ((k, k') ∷ []) (map_accounts settle_account rest),
        omega (arith, q, earns),
      )

-- Without wrap-around and with balances of 64 bits, the loop over GetKeys settles each account
-- of a well-formed database once, by itself, and adds up what they earn.
pub settle_all_lem :
    (fl : Floats) (c : Core) (weight reward : ℕ) (db : Accounts) (s : Settlement)
    → s.db ≡ db
    → IsAccounts db
    → Fits fl c weight reward db
    → s.total_reward + total_earned fl c weight reward db < 2 ^ 64
    → let s' = settle_all fl c weight reward (get_keys db) s in
      (s'.db ≡ map_accounts (settle_account fl c weight reward) db)
      × (s'.total_reward ≡ s.total_reward + total_earned fl c weight reward db)
settle_all_lem fl c weight reward db s e v fit h =
    settle_all-map fl c weight reward [] db s e v.sorted v.keyed fit h
