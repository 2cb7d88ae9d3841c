-- ===== src/Database/Tests.antt =====
-- Concrete runs of the database.
use prime_pool_deprecated.Common.{◌<◌, ◌^◌, ◌≡◌, refl, false, none, [], ◌∷◌, some, arith, length}
use prime_pool_deprecated.Common.StdMap.{StdMap, lookup}
use prime_pool_deprecated.Common.Order.{bytes_order}
use prime_pool_deprecated.Bytes.{uint2bytes64, string2bytes}
use prime_pool_deprecated.Coinbase.{Address}
use prime_pool_deprecated.Record.{Account, new_account, serialize_account}
use prime_pool_deprecated.Record.RoundTrip.{deserialize_account-serialize_account}
use prime_pool_deprecated.Database.{
  accounts, get_record, update_record, erase_record, has_key, write_to_disk, read_into_memory,
}
use prime_pool_deprecated.Database.Disk.{read_into_memory-write_to_disk}
use prime_pool_deprecated.Database.Keys.{get_record_lem, update_erase}

abbrev alice : Address
alice = 65 ∷ []

abbrev bob : Address
bob = 66 ∷ []

abbrev miner : Account
miner = record { key = alice; account_balance = 500; round_shares = 12; blocks_found = 1 }

abbrev one_account : StdMap Address Account
one_account = (alice, miner) ∷ []

miner_length : length (serialize_account miner) ≡ 21
unfolding serialize_account uint2bytes64 string2bytes
miner_length = refl

file_length : length (write_to_disk accounts one_account) < 2 ^ 32
unfolding write_to_disk serialize_account uint2bytes64 string2bytes
file_length = omega arith

read_into_memory-write_to_disk_example :
    read_into_memory accounts (some (write_to_disk accounts one_account)) [] ≡ some one_account
read_into_memory-write_to_disk_example =
    read_into_memory-write_to_disk accounts (λ r. r) one_account [] (tt, tt)
      (
        (
          deserialize_account-serialize_account miner (record {
            balance_fits = omega arith;
            shares_fit = omega arith;
            blocks_fit = omega arith;
          }),
          refl,
          omega (arith, miner_length),
        ),
        tt,
      )
      file_length

get_record_lem_test :
    (lookup bob (get_record accounts bob one_account).0
      ≡ some (get_record accounts bob one_account).1)
    × (lookup alice (get_record accounts bob one_account).0 ≡ lookup alice one_account)
    × ((get_record accounts bob one_account).1 ≡ new_account [])
get_record_lem_test = get_record_lem accounts bob alice one_account

update_erase_test :
    (lookup bob (update_record accounts miner one_account) ≡ none)
    × (lookup bob (erase_record alice one_account) ≡ none)
    × (has_key alice (erase_record alice one_account) ≡ false)
update_erase_test = update_erase accounts miner alice bob one_account
