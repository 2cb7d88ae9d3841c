-- ===== src/Core/Payout.antt =====
-- The coinbase transaction that the master thread builds for a round.
pub mod Bounds
use prime_pool_deprecated.Common.{
  ℕ, ◌+◌, ◌-◌, ◌%◌, ◌^◌, ◌≤◌, ◌<◌, ◌≡◌, refl, sym, ap, subst, ◌∙◌, ◌⊎◌, inl, inr, Bool, true, false,
  List, [], ◌∷◌, arith, ltb, if◌then◌else◌, Bool-cases, not, All,
}
use prime_pool_deprecated.Common.Int.{ℤ, pos, negsuc, is_negative, int_of_u64, u64_of_int}
use prime_pool_deprecated.Common.Order.{bytes_order}
use prime_pool_deprecated.Common.StdMap.{StdMap}
use prime_pool_deprecated.Bytes.{IsU64, u64}
use prime_pool_deprecated.Coinbase.{
  Address, amount_at, sub64, Coinbase, add_transaction, get_remainder, is_complete, reset,
  add_amount,
}
use prime_pool_deprecated.Coinbase.Balance.{
  IsBalanced, total_amount, add_transaction_accepts, add_transaction_rejects, amount_at-add_amount,
}
use prime_pool_deprecated.Record.{Account}
use prime_pool_deprecated.Database.{accounts, get_record}
use prime_pool_deprecated.Core.{pay_accounts, pay_bonus, build_coinbase}

-- Every balance that the loop reads is far from wrapping.
abbrev pub BalancesFit : List Address → StdMap Address Account → Type 0
BalancesFit [] db = Unit
BalancesFit (a ∷ keys) db =
    let (db', account) = get_record accounts a db in
    (account.account_balance < 2 ^ 63) × BalancesFit keys db'

-- A call of `AddTransaction` with a value that does not wrap keeps the transaction balanced, and its
-- maximum and fee as they are.
add_transaction-IsBalanced :
    (a : Address) (v : ℕ) (c : Coinbase)
    → IsBalanced c
    → IsU64 (c.current_value + v)
    → IsBalanced (add_transaction a v c).0
      × ((add_transaction a v c).0.max_value ≡ c.max_value)
      × ((add_transaction a v c).0.pool_fee ≡ c.pool_fee)
add_transaction-IsBalanced a v c b u = elim (Bool-cases (ltb c.max_value (c.current_value + v))) [
  | inl over ↦ rw (add_transaction_rejects a v c b (ground arith) u) (b, refl, refl)
  | inr fits ↦ let r = add_transaction_accepts a v c b (ground arith) in (r.0, r.2, r.3)
]

-- The amount that the last account of the loop is given is at most its balance.
pub shortened :
    (balance current max : ℕ)
    → balance < 2 ^ 63
    → current ≤ max
    → max < 2 ^ 31
    → max < current + balance
    → let value = int_of_u64 (2 ^ 64 - (current + balance - max)) in
      is_negative value ≡ true → u64 (balance + u64_of_int value) ≤ balance
shortened balance current max hb hc hm over neg = ground arith

-- Balanced, with the maximum and the fee of `c`.
pub record Extends (c c' : Coinbase) : Type 0 where
  pub balanced : IsBalanced c'
  pub same_max : c'.max_value ≡ c.max_value
  pub same_fee : c'.pool_fee ≡ c.pool_fee

pub add_transaction-Extends :
    (a : Address) (v : ℕ) (c c' : Coinbase)
    → Extends c c'
    → IsU64 (c'.current_value + v)
    → Extends c (add_transaction a v c').0
add_transaction-Extends a v c c' e u =
    let (b, m, f) = add_transaction-IsBalanced a v c' e.balanced u in
    record { balanced = b; same_max = m ∙ e.same_max; same_fee = f ∙ e.same_fee }

-- A negative answer of `AddTransaction` to a value that fits an account comes from a refusal.
pub refused :
    (a : Address) (v : ℕ) (c : Coinbase)
    → IsBalanced c
    → c.max_value < 2 ^ 31
    → is_negative (add_transaction a v c).1 ≡ true
    → IsU64 (c.current_value + v)
    → (c.max_value < c.current_value + v)
      × (add_transaction a v c ≡ (c, int_of_u64 (2 ^ 64 - (c.current_value + v - c.max_value))))
refused a v c b hm neg u = elim (Bool-cases (ltb c.max_value (c.current_value + v))) [
  | inl over ↦ (ground arith, add_transaction_rejects a v c b (ground arith) u)
  | inr fits ↦
      let r = add_transaction_accepts a v c b (ground arith) in absurd (ground (arith, r.5))
]

-- The last payment of the loop.
shortened-Extends :
    (a : Address) (v : ℕ) (c c' : Coinbase)
    → Extends c c'
    → c.max_value < 2 ^ 31
    → v < 2 ^ 63
    → IsU64 (c'.current_value + v)
    → is_negative (add_transaction a v c').1 ≡ true
    → let (c'', value) = add_transaction a v c' in
      Extends c (add_transaction a (u64 (v + u64_of_int value)) c'').0
shortened-Extends a v c c' e hm hv u neg =
    let (over, same) = refused a v c' e.balanced (omega (arith, e.same_max)) neg u in
    let less =
      shortened v c'.current_value c'.max_value hv e.balanced.within (omega (arith, e.same_max))
        over (subst (λ r. is_negative r.1 ≡ true) same neg) in
    rw same (add_transaction-Extends a _ c c' e (omega (arith, less)))

pub pay_accounts-Extends :
    (keys : List Address) (db : StdMap Address Account) (c c' : Coinbase)
    → Extends c c'
    → c.max_value < 2 ^ 31
    → BalancesFit keys db
    → Extends c (pay_accounts keys db c')
unfolding pay_accounts
pay_accounts-Extends [] db c c' e hm fit = e
pay_accounts-Extends (a ∷ keys) db c c' e hm fit = elim (Bool-cases (ltb 0 balance)) [
  | inr nothing ↦ rw nothing (pay_accounts-Extends keys db' c c' e hm fit.1)
  | inl owed ↦ elim (Bool-cases (is_negative (add_transaction a balance c').1)) [
    | inr paid ↦
        rw (owed, paid)
          (pay_accounts-Extends keys db' c (add_transaction a balance c').0
            (add_transaction-Extends a balance c c' e no_wrap) hm fit.1)
    | inl neg ↦ rw (owed, neg) (shortened-Extends a balance c c' e hm fit.0 no_wrap neg)
  ]
]
  where
    db' : StdMap Address Account
    db' = (get_record accounts a db).0

    balance : ℕ
    balance = (get_record accounts a db).1.account_balance

    no_wrap : IsU64 (c'.current_value + balance)
    no_wrap = omega (arith, e.balanced.within, e.same_max, fit.0)

pub int_of_small : (n : ℕ) → n < 2 ^ 31 → u64_of_int (int_of_u64 n) ≡ n
int_of_small n h = ground arith

pub pay_bonus_complete :
    (finder : Address) (c : Coinbase)
    → IsBalanced c
    → c.max_value < 2 ^ 31
    → IsBalanced (pay_bonus finder c)
      × (is_complete (pay_bonus finder c) ≡ true)
      × ((pay_bonus finder c).max_value ≡ c.max_value)
      × ((pay_bonus finder c).pool_fee ≡ c.pool_fee)
unfolding pay_bonus is_complete get_remainder
pay_bonus_complete finder c b h =
    let left = c.max_value - c.current_value in
    ground (arith, b.within, b.fits, int_of_small left, add_transaction_accepts finder left c b)

-- The empty transaction that a round begins with.
pub reset-Extends :
    (reward fee : ℕ) (old : Coinbase)
    → fee ≤ reward
    → reward < 2 ^ 31
    → let start = reset (sub64 reward fee) (record old { pool_fee = fee }) in Extends start start
unfolding reset
reset-Extends reward fee old h hr = record {
  balanced = record { sorted = tt; counted = refl; within = omega arith; fits = omega arith };
  same_max = refl;
  same_fee = refl;
}

-- For a reward below 2 ^ 31, a fee of at most the reward and balances below 2 ^ 63, the coinbase
-- transaction of a round is complete: its outputs and the fee sum up to the reward, and its
-- maximum is the reward less the fee, whatever the accounts hold and in whatever order they
-- come.
pub build_coinbase_complete :
    (reward fee : ℕ) (finder : Address) (sorted : List Address) (db : StdMap Address Account)
    (old : Coinbase)
    → fee ≤ reward
    → reward < 2 ^ 31
    → BalancesFit sorted db
    → let c = build_coinbase reward fee finder sorted db old in
      (is_complete c ≡ true)
      × (total_amount c.outputs + c.pool_fee ≡ reward)
      × (c.max_value ≡ reward - fee)
      × (c.pool_fee ≡ fee)
unfolding build_coinbase reset is_complete
build_coinbase_complete reward fee finder sorted db old h hr fit =
    let start = reset (sub64 reward fee) (record old { pool_fee = fee }) in
    let paid =
      pay_accounts-Extends sorted db start start (reset-Extends reward fee old h hr) (omega arith)
        fit in
    let done =
      pay_bonus_complete finder (pay_accounts sorted db start) paid.balanced
        (omega (arith, paid.same_max)) in
    ground (arith, done, paid.same_max, paid.same_fee)
