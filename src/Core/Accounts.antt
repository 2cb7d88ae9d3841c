-- ===== src/Core/Accounts.antt =====
-- The loops over all accounts, as maps and sums over the database.
use prime_pool_deprecated.Common.{
  ℕ, ◌+◌, ◌^◌, ◌<◌, ◌≡◌, refl, sym, ap, subst, ◌∙◌, [], ◌∷◌, ◌++◌, some, arith, append_assoc,
}
use prime_pool_deprecated.Common.Order.{bytes_order}
use prime_pool_deprecated.Common.StdMap.{
  StdMap, IsSorted, IsSorted-replace, lookup, insert, lookup-middle, insert-middle, total,
  same_key→eq, insert-IsSorted, Above,
}
use mathlib.Core.Option
use prime_pool_deprecated.Bytes.{u64}
use prime_pool_deprecated.Coinbase.{Address}
use prime_pool_deprecated.Record.{Account}
use prime_pool_deprecated.Database.{accounts, get_keys, get_record, update_record}
use prime_pool_deprecated.Core.{Core, clear_loop, clear_shares, weight_loop, total_weight}

abbrev pub Accounts : Type 0
Accounts = StdMap Address Account

-- Every account stands under its own address.
abbrev pub IsKeyed : Accounts → Type 0
IsKeyed [] = Unit
IsKeyed ((k, a) ∷ db) = (a.key ≡ k) × IsKeyed db

pub record IsAccounts (db : Accounts) : Type 0 where
  pub sorted : IsSorted db
  pub keyed : IsKeyed db

abbrev pub map_accounts : (Address → Account → Account) → Accounts → Accounts
map_accounts f [] = []
map_accounts f ((k, a) ∷ db) = (k, f k a) ∷ map_accounts f db

-- Reading and writing an account that is there.
pub get_record-middle :
    (front rest : Accounts) (k : Address) (a : Account)
    → IsSorted (front ++ (k, a) ∷ rest)
    → get_record accounts k (front ++ (k, a) ∷ rest) ≡ (front ++ (k, a) ∷ rest, a)
unfolding get_record
get_record-middle front rest k a s = ground (arith, lookup-middle front rest k a s)

pub update_record-middle :
    (front rest : Accounts) (k : Address) (a b : Account)
    → IsSorted (front ++ (k, a) ∷ rest)
    → b.key ≡ k
    → update_record accounts b (front ++ (k, a) ∷ rest) ≡ front ++ (k, b) ∷ rest
unfolding update_record
update_record-middle front rest k a b s e =
    ap (λ j. insert j b (front ++ (k, a) ∷ rest)) e ∙ insert-middle front rest k a b s

clear_loop-map :
    (front rest : Accounts)
    → IsSorted (front ++ rest)
    → IsKeyed rest
    → clear_loop (get_keys rest) (front ++ rest)
      ≡ front ++ map_accounts (λ k a. record a { round_shares = 0 }) rest
unfolding clear_loop get_keys
clear_loop-map front [] s h = refl
clear_loop-map front ((k, a) ∷ rest) s h =
    let cleared = record a { round_shares = 0 } in
    ap
      (λ (r : Accounts × Account).
        clear_loop (get_keys rest) (update_record accounts (record r.1 { round_shares = 0 }) r.0))
      (get_record-middle front rest k a s)
    ∙ ap (clear_loop (get_keys rest)) (update_record-middle front rest k a cleared s h.0)
    ∙ ap (clear_loop (get_keys rest)) (sym (append_assoc front ((k, cleared) ∷ []) rest))
    ∙ clear_loop-map (front ++ (k, cleared) ∷ []) rest
        (rw append_assoc (IsSorted-replace front rest k a cleared s)) h.1
    ∙ append_assoc front ((k, cleared) ∷ []) _

-- On a well-formed account database, ClearShares sets the shares of every account to 0 and
-- changes nothing else of the accounts.
pub clear_shares-map :
    (c : Core)
    → IsAccounts c.account_db
    → (clear_shares c).account_db ≡ map_accounts (λ k a. record a { round_shares = 0 }) c.account_db
unfolding clear_shares
clear_shares-map c v = clear_loop-map [] c.account_db v.sorted v.keyed

abbrev pub total_shares : Accounts → ℕ
total_shares = total (λ a. a.round_shares)

abbrev pub total_balance : Accounts → ℕ
total_balance = total (λ a. a.account_balance)

weight_loop-total :
    (front rest : Accounts) (weight : ℕ)
    → IsSorted (front ++ rest)
    → weight + total_shares rest < 2 ^ 64
    → weight_loop (get_keys rest) (front ++ rest) weight ≡ weight + total_shares rest
unfolding weight_loop get_keys
weight_loop-total front [] weight s h = omega arith
weight_loop-total front ((k, a) ∷ rest) weight s h =
    ap
      (λ (r : Accounts × Account).
        weight_loop (get_keys rest) r.0 (u64 (weight + r.1.round_shares)))
      (get_record-middle front rest k a s)
    ∙ ap (λ (db : Accounts). weight_loop (get_keys rest) db (u64 (weight + a.round_shares)))
        (sym (append_assoc front ((k, a) ∷ []) rest))
    ∙ weight_loop-total (front ++ (k, a) ∷ []) rest (u64 (weight + a.round_shares))
        (rw append_assoc s) (omega arith)
    ∙ omega arith

-- On a well-formed account database whose shares sum up to less than 2 ^ 64, TotalWeight is the
-- sum of the shares.
pub total_weight-total :
    (db : Accounts) → IsAccounts db → total_shares db < 2 ^ 64 → total_weight db ≡ total_shares db
unfolding total_weight
total_weight-total db v h = weight_loop-total [] db 0 v.sorted (omega arith) ∙ omega arith

shares_cleared :
    (db : Accounts) → total_shares (map_accounts (λ k a. record a { round_shares = 0 }) db) ≡ 0
shares_cleared [] = refl
shares_cleared ((k, a) ∷ db) = omega (arith, shares_cleared db)

pub lookup-IsKeyed :
    (k : Address) (db : Accounts) (a : Account) → IsKeyed db → lookup k db ≡ some a → a.key ≡ k
lookup-IsKeyed k [] a h e = cc
lookup-IsKeyed k ((j, b) ∷ db) a h e = ground (arith, same_key→eq k j, lookup-IsKeyed k db a h.1)

pub insert-IsKeyed :
    (k : Address) (b : Account) (db : Accounts) → IsKeyed db → b.key ≡ k → IsKeyed (insert k b db)
insert-IsKeyed k b [] h e = (e, tt)
insert-IsKeyed k b ((j, a) ∷ db) h e = ground (arith, insert-IsKeyed k b db h.1)

-- A read and a write of an account that is there.
pub update_record-known :
    (k : Address) (a b : Account) (db : Accounts)
    → IsAccounts db
    → b.key ≡ k
    → (update_record accounts b db ≡ insert k b db) × IsAccounts (update_record accounts b db)
unfolding update_record
update_record-known k a b db v e =
    let same = ap (λ j. insert j b db) e in
    (
      same,
      subst IsAccounts (sym same) (record {
        sorted = insert-IsSorted k b db v.sorted;
        keyed = insert-IsKeyed k b db v.keyed e;
      }),
    )

pub get_record-known :
    (k : Address) (db : Accounts) {a : Account}
    → lookup k db ≡ some a
    → get_record accounts k db ≡ (db, a)
unfolding get_record
get_record-known k db e = ground arith

pub IsAccounts-map :
    (f : Address → Account → Account) (db : Accounts)
    → ((k : Address) (a : Account) → (f k a).key ≡ a.key)
    → IsAccounts db
    → IsAccounts (map_accounts f db)
IsAccounts-map f db h v = record { sorted = sorted' db v.sorted; keyed = keyed' db v.keyed }
  where
    above' : (k : Address) (xs : Accounts) → Above k xs → Above k (map_accounts f xs)
    above' k [] a = tt
    above' k (x ∷ xs) a = (a.0, above' k xs a.1)

    sorted' : (xs : Accounts) → IsSorted xs → IsSorted (map_accounts f xs)
    sorted' [] s = tt
    sorted' (x ∷ xs) s = (above' x.0 xs s.0, sorted' xs s.1)

    keyed' : (xs : Accounts) → IsKeyed xs → IsKeyed (map_accounts f xs)
    keyed' [] s = tt
    keyed' (x ∷ xs) s = (h x.0 x.1 ∙ s.0, keyed' xs s.1)

pub lookup-map_accounts :
    (f : Address → Account → Account) (k : Address) (db : Accounts)
    → lookup k (map_accounts f db) ≡ Option.map (f k) (lookup k db)
lookup-map_accounts f k [] = refl
lookup-map_accounts f k ((j, a) ∷ db) = ground (arith, same_key→eq k j, lookup-map_accounts f k db)
