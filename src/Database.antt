-- ===== src/Database.antt =====
-- `LLD::Database` of src/LLD/database.h: a map of records in memory, and its file. The record
-- type gives its key, its blank value and its byte streams.
pub mod Disk
pub mod Keys
mod Tests
use prime_pool_deprecated.Common.{
  ℕ, zero, suc, ◌+◌, ◌-◌, Bool, List, [], ◌∷◌, ◌++◌, Option, none, some, ltb, if◌then◌else◌, length,
  take, drop, map, ◌||◌,
}
use prime_pool_deprecated.Common.Order.{KeyOrder, bytes_order, ℕ_order}
use prime_pool_deprecated.Common.StdMap.{StdMap, lookup, has, insert, erase}
use prime_pool_deprecated.Bytes.{u32, uint2bytes, bytes2uint}
use prime_pool_deprecated.Coinbase.{Address}
use prime_pool_deprecated.Record.{
  Account, new_account, serialize_account, deserialize_account, Block, new_block, serialize_block,
  deserialize_block,
}

-- What `RecordType` provides: `cKey`, the constructor without arguments, `Serialize`, and the
-- constructor from a stream (`none` where it reads out of bounds).
pub record RecordType (K R : Type 0) : Type 0 where
  pub key_of : R → K
  pub blank : R
  pub to_bytes : R → List ℕ
  pub of_bytes : List ℕ → Option R

abbrev pub accounts : RecordType Address Account
accounts = record {
  key_of = λ a. a.key;
  blank = new_account [];
  to_bytes = serialize_account;
  of_bytes = deserialize_account;
}

abbrev pub blocks : RecordType ℕ Block
blocks = record {
  key_of = λ b. b.key;
  blank = new_block 0;
  to_bytes = serialize_block;
  of_bytes = deserialize_block;
}

module _ {K R : Type 0} ⦃o : KeyOrder K⦄ where
  unfoldable pub get_keys : StdMap K R → List K
  get_keys db = map (λ (e : K × R). e.0) db

  unfoldable pub has_key : K → StdMap K R → Bool
  has_key k db = has k db

  unfoldable pub erase_record : K → StdMap K R → StdMap K R
  erase_record k db = erase k db

module _ {K R : Type 0} ⦃o : KeyOrder K⦄ (t : RecordType K R) where
  -- `GetRecord`: `mapRecords[cKey]` puts a blank record under a key that is missing.
  unfoldable pub get_record : K → StdMap K R → StdMap K R × R
  get_record k db = elim (lookup k db) [ none ↦ (insert k t.blank db, t.blank) | some r ↦ (db, r) ]

  -- `UpdateRecord`: under the record's own key.
  unfoldable pub update_record : R → StdMap K R → StdMap K R
  update_record r db = insert (t.key_of r) r db

  unfoldable pub write_to_disk : StdMap K R → List ℕ
  write_to_disk [] = []
  write_to_disk ((k, r) ∷ db) =
      uint2bytes (u32 (length (t.to_bytes r))) ++ (t.to_bytes r ++ write_to_disk db)

  -- The reading loop, with the bytes that are left until `nLength`. A file that ends within a
  -- record is read past its end: `none`. Each round takes at least the four bytes of a size, so
  -- that the file's length bounds the rounds.
  pub read_records : ℕ → ℕ → List ℕ → StdMap K R → Option (StdMap K R)
  read_records rounds zero bytes db = some db
  read_records zero (suc left) bytes db = none
  read_records (suc rounds) (suc left) bytes db =
      let size = bytes2uint (take 4 bytes) 0 in
      let rest = drop 4 bytes in
      if ltb (length rest) size || ltb (length bytes) 4
      then none
      else (elim (t.of_bytes (take size rest)) [
        | none ↦ none
        | some r ↦
            read_records rounds (suc left - (4 + size)) (drop size rest) (insert (t.key_of r) r db)
      ])

  -- `ReadIntoMemory`: the map is cleared first; without a file it stays empty. `nLength` is an
  -- unsigned int.
  pub read_into_memory : Option (List ℕ) → StdMap K R → Option (StdMap K R)
  read_into_memory none db = some []
  read_into_memory (some bytes) db = read_records (length bytes) (u32 (length bytes)) bytes []
