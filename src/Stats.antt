-- ===== src/Stats.antt =====
-- `StatsCollector` of src/statscollector.cpp: the connections of each address, and what is handed to
-- the persister, whose calls are a log. Rates are doubles, of a type that is a parameter; the clock
-- is an argument. A timer that was never started is `none`, and what it then measures a parameter.
pub mod Counts
mod Tests
use prime_pool_deprecated.Common.{
  ℕ, zero, suc, ◌+◌, ◌-◌, Bool, true, false, ◌||◌, List, [], ◌∷◌, ◌++◌, Option, none, some, ltb,
  leb, ◌==◌, if◌then◌else◌, length,
}
use prime_pool_deprecated.Common.Order.{bytes_order}
use prime_pool_deprecated.Common.StdMap.{StdMap, lookup, has, insert, erase}
use prime_pool_deprecated.Coinbase.{Address, Amounts, amount_at}
use prime_pool_deprecated.Record.{Account}
use prime_pool_deprecated.Database.{accounts, get_keys, get_record}
use prime_pool_deprecated.Core.{Core}

abbrev pub Guid : Type 0
Guid = List ℕ

-- The rates, with 0.0 and the sum.
pub record Rates : Type 1 where
  pub R : Type 0
  pub none_yet : R
  pub add : R → R → R

module _ (rt : Rates) where
  open rt use {R, none_yet, add}

  -- `ConnectionMinerData`
  pub record MinerData : Type 0 where
    pub guid : Guid
    pub pps : R
    pub wps : R

  -- `ConnectionData`, and what its default constructor gives.
  pub record ConnectionData : Type 0 where
    pub address : Address
    pub miner_data : StdMap Guid MinerData
    pub last_save : Option ℕ

  abbrev pub new_connection_data : ConnectionData
  new_connection_data = record { address = []; miner_data = []; last_save = none }

  -- `GetTotalPPS` and `GetTotalWPS`
  pub total_of : (MinerData → R) → StdMap Guid MinerData → R → R
  total_of rate [] sum = sum
  total_of rate ((g, m) ∷ miners) sum = total_of rate miners (add sum (rate m))

  pub total_pps : ConnectionData → R
  unfolding total_of
  total_pps c = total_of (λ m. m.pps) c.miner_data none_yet

  pub total_wps : ConnectionData → R
  unfolding total_of
  total_wps c = total_of (λ m. m.wps) c.miner_data none_yet

  -- `AccountData`
  pub record AccountData : Type 0 where
    pub account_address : Address
    pub connections : ℕ
    pub shares : ℕ
    pub balance : ℕ
    pub payout : ℕ

  -- The connections by address, and the calls of `SaveConnectionData` and `UpdateAccountData`.
  pub record StatsCollector : Type 0 where
    pub connections : StdMap Address ConnectionData
    pub saved : List ConnectionData
    pub updated : List AccountData

  -- `CONNECTIONS_BY_ADDRESS[ADDRESS]`, which is a new entry where there is none.
  abbrev pub connection_at : Address → StatsCollector → ConnectionData
  connection_at a s = elim (lookup a s.connections) [ none ↦ new_connection_data | some c ↦ c ]

  unfoldable pub inc_connection_count : Address → Guid → StatsCollector → StatsCollector
  inc_connection_count a g s =
      let c = connection_at a s in
      let m : MinerData = record { guid = g; pps = none_yet; wps = none_yet } in
      record s {
        connections =
            insert a (record c { address = a; miner_data = insert g m c.miner_data }) s.connections;
      }

  -- The last connection of an address is saved without a miner.
  pub dec_connection_count : ℕ → Address → Guid → StatsCollector → StatsCollector
  dec_connection_count now a g s =
      let c = connection_at a s in
      let c' = record c { miner_data = erase g c.miner_data } in
      if length c'.miner_data == 0
      then record s {
        connections = insert a (record c' { last_save = some now }) s.connections;
        saved = s.saved ++ c' ∷ [];
      }
      else record s { connections = insert a c' s.connections }

  unfoldable pub get_connection_count : Address → StatsCollector → ℕ × StatsCollector
  get_connection_count a s =
      let c = connection_at a s in
      (length c.miner_data, record s { connections = insert a c s.connections })

  -- `Elapsed() >= nSaveConnectionStatsFrequency`
  pub is_due : ℕ → ℕ → ℕ → Option ℕ → Bool
  is_due unstarted frequency now none = leb frequency unstarted
  is_due unstarted frequency now (some start) = leb frequency (now - start)

  pub update_connection_data : ℕ → ℕ → ℕ → Address → Guid → R → R → StatsCollector → StatsCollector
  unfolding is_due
  update_connection_data unstarted frequency now a g pps wps s =
      let c = connection_at a s in
      let known = elim (lookup g c.miner_data) as (λ (r : Option MinerData). Guid) [
        | none ↦ []
        | some m ↦ m.guid
      ] in
      let m : MinerData = record { guid = known; pps = pps; wps = wps } in
      let c' = record c { address = a; miner_data = insert g m c.miner_data } in
      if is_due unstarted frequency now c.last_save
      then record s {
        connections = insert a (record c' { last_save = some now }) s.connections;
        saved = s.saved ++ c' ∷ [];
      }
      else record s { connections = insert a c' s.connections }

  -- The loop of `UpdateAccountData` over the accounts.
  pub update_accounts : Bool → Core → List Address → StatsCollector → StatsCollector
  unfolding get_connection_count
  update_accounts all c [] s = s
  update_accounts all c (a ∷ keys) s =
      let (count, s') = get_connection_count a s in
      let (db, account) = get_record accounts a c.account_db in
      let entry : AccountData = record {
        account_address = a;
        connections = count;
        shares = account.round_shares;
        balance = account.account_balance;
        payout = amount_at a c.coinbase.outputs;
      } in
      let next =
        if ltb 0 count || all then record s' { updated = s'.updated ++ entry ∷ [] } else s' in
      update_accounts all (if ltb 0 count || all then record c { account_db = db } else c) keys next

  pub update_account_data : Bool → Core → StatsCollector → StatsCollector
  unfolding update_accounts
  update_account_data all c s = update_accounts all c (get_keys c.account_db) s
