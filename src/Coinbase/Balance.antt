-- ===== src/Coinbase/Balance.antt =====
-- The values of a transaction under its operations.
use prime_pool_deprecated.Common.{
  ℕ, ◌+◌, ◌-◌, ◌^◌, ◌≤◌, ◌<◌, ◌≡◌, inl, inr, none, some, arith, if◌then◌else◌, Option-cases,
}
use prime_pool_deprecated.Common.Int.{int_of_u64}
use prime_pool_deprecated.Common.StdMap.{
  IsSorted, same_key, same_key_refl, lookup, insert, total, total-insert, insert-IsSorted,
  lookup-insert, measure_at-le-total,
}
use prime_pool_deprecated.Common.Order.{bytes_order}
use prime_pool_deprecated.Bytes.{IsU64, u64}
use prime_pool_deprecated.Coinbase.{
  Address, Amounts, amount_at, Coinbase, add_amount, add_transaction,
}

abbrev pub total_amount : Amounts → ℕ
total_amount = total (λ v. v)

-- The current value is the sum of the outputs, and within the maximum.
pub record IsBalanced (c : Coinbase) : Type 0 where
  pub sorted : IsSorted c.outputs
  pub counted : c.current_value ≡ total_amount c.outputs
  pub within : c.current_value ≤ c.max_value
  pub fits : IsU64 c.max_value

-- `AddOutput` on an address without and with an output.
add_amount_new :
    (a : Address) (v : ℕ) (m : Amounts)
    → lookup a m ≡ none
    → add_amount a v m ≡ insert a (u64 v) (insert a 0 m)
unfolding add_amount
add_amount_new a v m e = ground (arith, lookup-insert a a 0 m, same_key_refl a)

add_amount_old :
    (a : Address) (v w : ℕ) (m : Amounts)
    → lookup a m ≡ some w
    → add_amount a v m ≡ insert a (u64 (w + v)) m
unfolding add_amount
add_amount_old a v w m e = ground arith

pub add_amount-IsSorted :
    (a : Address) (v : ℕ) (m : Amounts) → IsSorted m → IsSorted (add_amount a v m)
add_amount-IsSorted a v m s = elim (Option-cases (lookup a m)) [
  | inl e ↦
      rw (add_amount_new a v m e) (insert-IsSorted a _ (insert a 0 m) (insert-IsSorted a 0 m s))
  | inr (w, e) ↦ rw (add_amount_old a v w m e) (insert-IsSorted a _ m s)
]

-- Only the address's own amount changes.
pub amount_at-add_amount :
    (a b : Address) (v : ℕ) (m : Amounts)
    → IsU64 (amount_at a m + v)
    → amount_at b (add_amount a v m) ≡ (if same_key b a then amount_at a m + v else amount_at b m)
amount_at-add_amount a b v m h = elim (Option-cases (lookup a m)) [
  | inl e ↦ ground (
    arith,
    add_amount_new a v m e,
    lookup-insert a b (u64 v) (insert a 0 m),
    lookup-insert a b 0 m,
  )
  | inr (w, e) ↦ ground (arith, add_amount_old a v w m e, lookup-insert a b (u64 (w + v)) m)
]

pub total-add_amount :
    (a : Address) (v : ℕ) (m : Amounts)
    → IsSorted m
    → IsU64 (total_amount m + v)
    → total_amount (add_amount a v m) ≡ total_amount m + v
total-add_amount a v m s h = elim (Option-cases (lookup a m)) [
  | inl e ↦ ground (
    arith,
    add_amount_new a v m e,
    total-insert (λ w. w) a (u64 v) (insert a 0 m) (insert-IsSorted a 0 m s),
    total-insert (λ w. w) a 0 m s,
    lookup-insert a a 0 m,
    same_key_refl a,
  )
  | inr (w, e) ↦ ground (
    arith,
    add_amount_old a v w m e,
    total-insert (λ w. w) a (u64 (w + v)) m s,
    measure_at-le-total (λ w. w) a m,
  )
]

-- On a balanced transaction a value that fits is paid: the transaction stays balanced, its
-- outputs and current value grow by the value, and the result is what is left as an int.
pub add_transaction_accepts :
    (a : Address) (v : ℕ) (c : Coinbase)
    → IsBalanced c
    → c.current_value + v ≤ c.max_value
    → let (c', left) = add_transaction a v c in
      IsBalanced c'
      × (c'.current_value ≡ c.current_value + v)
      × (c'.max_value ≡ c.max_value)
      × (c'.pool_fee ≡ c.pool_fee)
      × (c'.outputs ≡ add_amount a v c.outputs)
      × (left ≡ int_of_u64 (c.max_value - (c.current_value + v)))
unfolding add_transaction
add_transaction_accepts a v c b h =
    ground
      (arith, total-add_amount a v c.outputs b.sorted, add_amount-IsSorted a v c.outputs b.sorted)

-- On a balanced transaction a value that does not fit, without wrap-around, leaves the
-- transaction as it was, and the result is the negative excess as an int.
pub add_transaction_rejects :
    (a : Address) (v : ℕ) (c : Coinbase)
    → IsBalanced c
    → c.max_value < c.current_value + v
    → IsU64 (c.current_value + v)
    → add_transaction a v c ≡ (c, int_of_u64 (2 ^ 64 - (c.current_value + v - c.max_value)))
unfolding add_transaction
add_transaction_rejects a v c b h u = ground arith

-- On a balanced transaction a uint64 value with which the sum wraps is not refused, and the
-- current value becomes the wrapped sum.
pub add_transaction_wraps :
    (a : Address) (v : ℕ) (c : Coinbase)
    → IsBalanced c
    → IsU64 v
    → 2 ^ 64 ≤ c.current_value + v
    → ((add_transaction a v c).0.outputs ≡ add_amount a v c.outputs)
      × ((add_transaction a v c).0.current_value ≡ c.current_value + v - 2 ^ 64)
      × ((add_transaction a v c).0.max_value ≡ c.max_value)
unfolding add_transaction
add_transaction_wraps a v c b h wrap = ground (arith, b.within, b.fits)
