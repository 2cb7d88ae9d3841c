-- ===== src/Core/Orphan/Refund.antt =====
-- The accounts under `RefundPayouts` of src/core.cpp.
use prime_pool_deprecated.Common.{
  ℕ, ◌+◌, ◌-◌, ◌^◌, ◌<◌, ◌≡◌, ◌≢◌, ◌⊎◌, refl, sym, ap, subst, ◌∙◌, inl, inr, List, [], ◌∷◌, ◌++◌,
  some, arith, if◌then◌else◌, Bool-cases,
}
use prime_pool_deprecated.Common.Order.{bytes_order, ℕ_order}
use prime_pool_deprecated.Common.StdMap.{
  StdMap, IsSorted, lookup-Above, same_key, same_key→eq, same_key_refl, lookup, lookup-insert,
  measure_at,
}
use prime_pool_deprecated.Bytes.{u64}
use prime_pool_deprecated.Coinbase.{Address, Amounts, amount_at}
use prime_pool_deprecated.Record.{Account, Block}
use prime_pool_deprecated.Database.{blocks, accounts, update_record}
use prime_pool_deprecated.Database.Keys.{get_record_old}
use prime_pool_deprecated.Core.{Core, Stat, delete_earnings, delete_payment, orphan_round}
use prime_pool_deprecated.Core.Accounts.{
  Accounts, IsAccounts, lookup-IsKeyed, update_record-known, get_record-known,
}
use prime_pool_deprecated.Core.Reward.{deduct}
use prime_pool_deprecated.Core.Orphan.{remove_credits, refund_outputs, refund_read, refund_payouts}

ℕ-cases : (n : ℕ) → (n ≡ 0) ⊎ (n ≢ 0)
ℕ-cases n = ground arith

abbrev pub balance_at : Address → Accounts → ℕ
balance_at = measure_at (λ (a : Account). a.account_balance)

-- Every address of `m` has an account.
abbrev pub HaveAccounts : Accounts → Amounts → Type 0
HaveAccounts db [] = Unit
HaveAccounts db ((k, n) ∷ m) = ((a : Account) × (lookup k db ≡ some a)) × HaveAccounts db m

-- A write to an account that is there.
write_known :
    (k j : Address) (a b : Account) (db : Accounts)
    → IsAccounts db
    → lookup k db ≡ some a
    → b.key ≡ k
    → IsAccounts (update_record accounts b db)
      × (lookup j (update_record accounts b db) ≡ (if same_key j k then some b else lookup j db))
write_known k j a b db v e h =
    let (same, v') = update_record-known k a b db v h in
    (v', ap (lookup j) same ∙ lookup-insert k j b db)

HaveAccounts-write :
    (k : Address) (a b : Account) (db : Accounts) (m : Amounts)
    → IsAccounts db
    → lookup k db ≡ some a
    → b.key ≡ k
    → HaveAccounts db m
    → HaveAccounts (update_record accounts b db) m
HaveAccounts-write k a b db [] v e h hs = tt
HaveAccounts-write k a b db ((j, n) ∷ m) v e h ((x, hx), hs) = (
  elim (Bool-cases (same_key j k)) [
    | inl same ↦ (b, ground (arith, write_known k j a b db v e h, same))
    | inr other ↦ (x, ground (arith, write_known k j a b db v e h, other))
  ],
  HaveAccounts-write k a b db m v e h hs,
)

remove_credits-balance :
    (round : ℕ) (m : Amounts) (db : Accounts) (stats : List Stat) (j : Address)
    → IsSorted m
    → IsAccounts db
    → HaveAccounts db m
    → let db' = (remove_credits round m (db, stats)).0 in
      IsAccounts db'
      × (balance_at j db' ≡ balance_at j db - amount_at j m)
      × ((n : Amounts) → HaveAccounts db n → HaveAccounts db' n)
unfolding remove_credits
remove_credits-balance round [] db stats j s v h = (v, omega arith, λ n hn. hn)
remove_credits-balance round ((k, n) ∷ m) db stats j s v ((a, e), h) =
    let b = record a { account_balance = deduct a.account_balance n } in
    let db1 = update_record accounts b db in
    let stats1 = stats ++ delete_earnings k round ∷ [] in
    let same =
      ap
        (λ (r : Accounts × Account). remove_credits round m (
          update_record accounts (record r.1 { account_balance = deduct r.1.account_balance n })
              r.0,
          stats1,
        ))
        (get_record-known k db e) in
    let ke = lookup-IsKeyed k db a v.keyed e in
    let (v1, look) = write_known k j a b db v e ke in
    let (v2, bal, keep) =
      remove_credits-balance round m db1 stats1 j s.1 v1 (HaveAccounts-write k a b db m v e ke h) in
    (
      subst (λ (r : Accounts × List Stat). IsAccounts r.0) (sym same) v2,
      ap (λ (r : Accounts × List Stat). balance_at j r.0) same ∙ bal ∙ step_balance db1 look,
      λ x hx.
          subst (λ (r : Accounts × List Stat). HaveAccounts r.0 x) (sym same)
            (keep x (HaveAccounts-write k a b db x v e ke hx)),
    )
  where
    step_balance :
        (db1 : Accounts)
        → (lookup j db1 ≡ (
            if same_key j k
            then some (record a { account_balance = deduct a.account_balance n })
            else lookup j db))
        → balance_at j db1 - amount_at j m ≡ balance_at j db - amount_at j ((k, n) ∷ m)
    step_balance db1 look = ground (arith, look, e, same_key→eq j k, lookup-Above k m s.0)

refund_outputs-balance :
    (round : ℕ) (m : Amounts) (db : Accounts) (stats : List Stat) (j : Address)
    → IsSorted m
    → IsAccounts db
    → HaveAccounts db m
    → balance_at j db + amount_at j m < 2 ^ 64
    → let db' = (refund_outputs round m (db, stats)).0 in
      IsAccounts db' × (balance_at j db' ≡ balance_at j db + amount_at j m)
unfolding refund_outputs
refund_outputs-balance round [] db stats j s v h fit = (v, omega arith)
refund_outputs-balance round ((k, n) ∷ m) db stats j s v ((a, e), h) fit =
    let b = record a { account_balance = u64 (a.account_balance + n) } in
    let db1 = update_record accounts b db in
    let stats1 = stats ++ delete_payment k round ∷ [] in
    let same =
      ap
        (λ (r : Accounts × Account). refund_outputs round m (
          update_record accounts (record r.1 { account_balance = u64 (r.1.account_balance + n) })
              r.0,
          stats1,
        ))
        (get_record-known k db e) in
    let ke = lookup-IsKeyed k db a v.keyed e in
    let (v1, look) = write_known k j a b db v e ke in
    let step = step_balance db1 look in
    let (v2, bal) =
      refund_outputs-balance round m db1 stats1 j s.1 v1 (HaveAccounts-write k a b db m v e ke h)
        (omega (arith, step)) in
    (
      subst (λ (r : Accounts × List Stat). IsAccounts r.0) (sym same) v2,
      ap (λ (r : Accounts × List Stat). balance_at j r.0) same ∙ bal ∙ step,
    )
  where
    step_balance :
        (db1 : Accounts)
        → (lookup j db1 ≡ (
            if same_key j k
            then some (record a { account_balance = u64 (a.account_balance + n) })
            else lookup j db))
        → balance_at j db1 + amount_at j m ≡ balance_at j db + amount_at j ((k, n) ∷ m)
    step_balance db1 look = ground (arith, look, e, fit, same_key→eq j k, lookup-Above k m s.0)

module _ (hash : ℕ) (c : Core) (block : Block) (found : lookup hash c.block_db ≡ some block) where
  -- The accounts after the two loops.
  abbrev refunded : StdMap Address Account × List Stat
  refunded = refund_outputs block.round block.coinbase.outputs (
      remove_credits block.round block.credits
        (c.account_db, c.stats ++ orphan_round block.round ∷ []))

  refund_payouts_run :
      block.coinbase_value ≢ 0
      → refund_payouts hash c ≡ (record c {
        account_db = refunded.0;
        stats = refunded.1;
        block_db = update_record blocks (record block { coinbase_value = 0 }) c.block_db;
      })
  unfolding refund_payouts refund_read
  refund_payouts_run h =
      ap (refund_read c) (get_record_old blocks hash c.block_db found) ∙ ground arith

  refund_payouts_done : block.coinbase_value ≡ 0 → refund_payouts hash c ≡ c
  unfolding refund_payouts refund_read
  refund_payouts_done h =
      ap (refund_read c) (get_record_old blocks hash c.block_db found) ∙ ground arith

  -- On a well-formed account database, the refund of a stored block that has not been refunded
  -- takes each account's credit of the block away, down to 0 at least, and gives it back what
  -- the block's coinbase had paid it, if the addresses of the block have accounts and the sum
  -- fits 64 bits.
  pub refund_payouts-balance :
      (j : Address)
      → block.coinbase_value ≢ 0
      → IsAccounts c.account_db
      → IsSorted block.credits
      → IsSorted block.coinbase.outputs
      → HaveAccounts c.account_db block.credits
      → HaveAccounts c.account_db block.coinbase.outputs
      → balance_at j c.account_db - amount_at j block.credits + amount_at j block.coinbase.outputs
        < 2 ^ 64
      → let db' = (refund_payouts hash c).account_db in
        IsAccounts db'
        × (balance_at j db'
            ≡ balance_at j c.account_db
              - amount_at j block.credits
              + amount_at j block.coinbase.outputs)
  refund_payouts-balance j h v sc so hc ho fit =
      let stats = c.stats ++ orphan_round block.round ∷ [] in
      let s1 = remove_credits block.round block.credits (c.account_db, stats) in
      let (v1, bal1, keep) =
        remove_credits-balance block.round block.credits c.account_db stats j sc v hc in
      let (v2, bal2) =
        refund_outputs-balance block.round block.coinbase.outputs s1.0 s1.1 j so v1 (keep _ ho)
          (omega (arith, bal1)) in
      let run = ap (λ (x : Core). x.account_db) (refund_payouts_run h) in
      (subst IsAccounts (sym run) v2, ap (balance_at j) run ∙ bal2 ∙ omega (arith, bal1))

-- Refunding a block that is stored under its own key a second time changes nothing more.
pub refund_twice :
    (hash : ℕ) (c : Core) (block : Block)
    → lookup hash c.block_db ≡ some block
    → block.key ≡ hash
    → refund_payouts hash (refund_payouts hash c) ≡ refund_payouts hash c
unfolding update_record
refund_twice hash c block found h = elim (ℕ-cases block.coinbase_value) [
  | inl zeroed ↦ ap (refund_payouts hash) (refund_payouts_done hash c block found zeroed)
  | inr positive ↦
      (let b0 = record block { coinbase_value = 0 } in
        let run = refund_payouts_run hash c block found positive in
        refund_payouts_done hash (refund_payouts hash c) b0
          (ap (λ (x : Core). lookup hash x.block_db) run
            ∙ ground (arith, lookup-insert block.key hash b0 c.block_db, same_key_refl hash))
          refl)
]
