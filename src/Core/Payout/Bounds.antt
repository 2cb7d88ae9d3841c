-- ===== src/Core/Payout/Bounds.antt =====
-- What the coinbase pays to an account, and the `int` bonus (src/core.cpp, src/coinbase.h).
use prime_pool_deprecated.Common.{
  ℕ, ◌+◌, ◌-◌, ◌^◌, ◌≤◌, ◌<◌, ◌≡◌, ◌≢◌, subst, inl, inr, true, false, List, [], ◌∷◌, none, arith,
  ltb, if◌then◌else◌, Bool-cases,
}
use prime_pool_deprecated.Common.Int.{is_negative, int_of_u64, u64_of_int}
use prime_pool_deprecated.Common.Order.{bytes_order}
use prime_pool_deprecated.Common.StdMap.{
  StdMap, same_key, same_key→eq, same_key_refl, lookup, measure_at-le-total,
}
use prime_pool_deprecated.Bytes.{IsU64, u64}
use prime_pool_deprecated.Coinbase.{
  Address, amount_at, sub64, Coinbase, add_transaction, get_remainder, is_complete, reset,
}
use prime_pool_deprecated.Coinbase.Balance.{
  IsBalanced, add_transaction_accepts, add_transaction_rejects, add_transaction_wraps,
  amount_at-add_amount,
}
use prime_pool_deprecated.Record.{Account}
use prime_pool_deprecated.Database.{accounts, get_record}
use prime_pool_deprecated.Core.{pay_accounts, pay_bonus, build_coinbase}
use prime_pool_deprecated.Core.Payout.{
  BalancesFit, Extends, add_transaction-Extends, pay_accounts-Extends, refused, shortened,
  int_of_small, reset-Extends,
}

-- The balance that the loop reads for `b`, once for each time that `b` is in the list.
abbrev pub owed : Address → List Address → StdMap Address Account → ℕ
owed b [] db = 0
owed b (a ∷ keys) db =
    let (db', account) = get_record accounts a db in
    (if same_key b a then account.account_balance else 0) + owed b keys db'

paid_at_most :
    (a b : Address) (v : ℕ) (c : Coinbase)
    → IsBalanced c
    → IsU64 (c.current_value + v)
    → amount_at b (add_transaction a v c).0.outputs
      ≤ amount_at b c.outputs + (if same_key b a then v else 0)
paid_at_most a b v c h u = elim (Bool-cases (ltb c.max_value (c.current_value + v))) [
  | inl over ↦ rw (add_transaction_rejects a v c h (ground arith) u) (omega arith)
  | inr fits ↦ ground (
    arith,
    add_transaction_accepts a v c h,
    amount_at-add_amount a b v c.outputs,
    measure_at-le-total (λ w. w) a c.outputs,
    h.counted,
    same_key→eq b a,
  )
]

-- The last payment of the loop is no more than the balance either.
shortened_at_most :
    (a b : Address) (v : ℕ) (c : Coinbase)
    → IsBalanced c
    → c.max_value < 2 ^ 31
    → v < 2 ^ 63
    → IsU64 (c.current_value + v)
    → is_negative (add_transaction a v c).1 ≡ true
    → let (c', value) = add_transaction a v c in
      amount_at b (add_transaction a (u64 (v + u64_of_int value)) c').0.outputs
      ≤ amount_at b c.outputs + (if same_key b a then v else 0)
shortened_at_most a b v c h hm hv u neg =
    let (over, same) = refused a v c h hm neg u in
    let less =
      shortened v c.current_value c.max_value hv h.within hm over
        (subst (λ r. is_negative r.1 ≡ true) same neg) in
    let value = int_of_u64 (2 ^ 64 - (c.current_value + v - c.max_value)) in
    rw same (
      ground (arith, less, paid_at_most a b (u64 (v + u64_of_int value)) c h (omega (arith, less))))

pay_accounts-owed :
    (b : Address) (keys : List Address) (db : StdMap Address Account) (c c' : Coinbase)
    → Extends c c'
    → c.max_value < 2 ^ 31
    → BalancesFit keys db
    → amount_at b (pay_accounts keys db c').outputs ≤ amount_at b c'.outputs + owed b keys db
unfolding pay_accounts
pay_accounts-owed b [] db c c' e hm fit = omega arith
pay_accounts-owed b (a ∷ keys) db c c' e hm fit = elim (Bool-cases (ltb 0 balance)) [
  | inr nothing ↦ rw nothing (omega (arith, pay_accounts-owed b keys db' c c' e hm fit.1))
  | inl due ↦ elim (Bool-cases (is_negative (add_transaction a balance c').1)) [
    | inr paid ↦
        rw (due, paid)
          (omega (
            arith,
            paid_at_most a b balance c' e.balanced no_wrap,
            pay_accounts-owed b keys db' c (add_transaction a balance c').0
                (add_transaction-Extends a balance c c' e no_wrap) hm fit.1,
          ))
    | inl neg ↦
        rw (due, neg)
          (omega (
            arith,
            shortened_at_most a b balance c' e.balanced (omega (arith, e.same_max)) fit.0 no_wrap
                neg,
          ))
  ]
]
  where
    db' : StdMap Address Account
    db' = (get_record accounts a db).0

    balance : ℕ
    balance = (get_record accounts a db).1.account_balance

    no_wrap : IsU64 (c'.current_value + balance)
    no_wrap = omega (arith, e.balanced.within, e.same_max, fit.0)

pay_bonus-others :
    (b finder : Address) (c : Coinbase)
    → b ≢ finder
    → IsBalanced c
    → c.max_value < 2 ^ 31
    → amount_at b (pay_bonus finder c).outputs ≤ amount_at b c.outputs
unfolding pay_bonus get_remainder
pay_bonus-others b finder c ne h hm =
    let left = c.max_value - c.current_value in
    ground
      (arith, h.within, int_of_small left, paid_at_most finder b left c h, same_key→eq b finder)

-- For a reward below 2 ^ 31, a fee of at most the reward and balances below 2 ^ 63, nobody but
-- the block finder is paid more by the coinbase of a round than the balances that the loop reads
-- for it, one for each time that its address is in the list.
pub build_coinbase-owed :
    (b : Address) (reward fee : ℕ) (finder : Address) (sorted : List Address)
    (db : StdMap Address Account) (old : Coinbase)
    → b ≢ finder
    → fee ≤ reward
    → reward < 2 ^ 31
    → BalancesFit sorted db
    → amount_at b (build_coinbase reward fee finder sorted db old).outputs ≤ owed b sorted db
unfolding build_coinbase reset
build_coinbase-owed b reward fee finder sorted db old ne h hr fit =
    let start = reset (sub64 reward fee) (record old { pool_fee = fee }) in
    let fresh = reset-Extends reward fee old h hr in
    let paid = pay_accounts-Extends sorted db start start fresh (omega arith) fit in
    omega (
      arith,
      pay_accounts-owed b sorted db start start fresh (omega arith) fit,
      pay_bonus-others b finder (pay_accounts sorted db start) ne paid.balanced
          (omega (arith, paid.same_max)),
    )

-- With between 2 ^ 31 and 2 ^ 32 left of a maximum of at least 2 ^ 32, the int bonus is
-- negative, the sum wraps, and a finder without an output is given close to 2 ^ 64, more than
-- the maximum, in a transaction that is not complete.
pub pay_bonus_wraps :
    (finder : Address) (c : Coinbase) (left : ℕ)
    → IsBalanced c
    → c.current_value + left ≡ c.max_value
    → 2 ^ 31 ≤ left
    → left < 2 ^ 32
    → 2 ^ 32 ≤ c.current_value + left
    → c.max_value < 2 ^ 63
    → lookup finder c.outputs ≡ none
    → (amount_at finder (pay_bonus finder c).outputs ≡ 2 ^ 64 - (2 ^ 32 - left))
      × (c.max_value < amount_at finder (pay_bonus finder c).outputs)
      × (is_complete (pay_bonus finder c) ≡ false)
unfolding pay_bonus is_complete get_remainder
pay_bonus_wraps finder c left b e lo hi wide top missing = ground (
  arith,
  remainder,
  add_transaction_wraps finder (2 ^ 64 - (2 ^ 32 - left)) c b,
  amount_at-add_amount finder finder (2 ^ 64 - (2 ^ 32 - left)) c.outputs,
  same_key_refl finder,
)
  where
    remainder :
        u64_of_int (int_of_u64 (sub64 c.max_value c.current_value)) ≡ 2 ^ 64 - (2 ^ 32 - left)
    remainder = ground arith
