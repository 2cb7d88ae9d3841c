-- ===== src/Database/Keys.antt =====
-- The operations of the database on its map.
use prime_pool_deprecated.Common.{◌≡◌, false, none, some, arith, if◌then◌else◌}
use prime_pool_deprecated.Common.Order.{KeyOrder, bytes_order}
use prime_pool_deprecated.Common.StdMap.{
  StdMap, same_key, same_key_refl, lookup, IsSorted, insert-IsSorted, lookup-insert, lookup-erase,
}
use prime_pool_deprecated.Database.{RecordType, has_key, erase_record, get_record, update_record}

module _ {K R : Type 0} ⦃o : KeyOrder K⦄ (t : RecordType K R) where
  -- GetRecord returns what the key then finds in the map, no other key is touched, and where the
  -- key was missing it is the blank record.
  pub get_record_lem :
      (k j : K) (db : StdMap K R)
      → let (db', r) = get_record t k db in
        (lookup k db' ≡ some r)
        × (lookup j db' ≡ (if same_key j k then some r else lookup j db))
        × (r ≡ (elim (lookup k db) [ none ↦ t.blank | some old ↦ old ]))
  unfolding get_record
  get_record_lem k j db = ground (
    arith,
    lookup-insert k j t.blank db,
    lookup-insert k k t.blank db,
    same_key_refl k,
    o.cmp_eq j k,
  )

  pub get_record_old :
      (k : K) (db : StdMap K R) {r : R} → lookup k db ≡ some r → get_record t k db ≡ (db, r)
  unfolding get_record
  get_record_old k db e = ground arith

  pub get_record-IsSorted : (k : K) (db : StdMap K R) → IsSorted db → IsSorted (get_record t k db).0
  unfolding get_record
  get_record-IsSorted k db s = ground (arith, insert-IsSorted k t.blank db s)

  pub update_record-IsSorted :
      (r : R) (db : StdMap K R) → IsSorted db → IsSorted (update_record t r db)
  unfolding update_record
  update_record-IsSorted r db s = insert-IsSorted (t.key_of r) r db s

  -- After UpdateRecord a key finds the record if it is the record's own, after EraseRecord the
  -- erased key is gone, and every other key finds what it found.
  pub update_erase :
      (r : R) (k j : K) (db : StdMap K R)
      → (lookup j (update_record t r db)
          ≡ (if same_key j (t.key_of r) then some r else lookup j db))
        × (lookup j (erase_record k db) ≡ (if same_key j k then none else lookup j db))
        × (has_key k (erase_record k db) ≡ false)
  unfolding update_record erase_record has_key
  update_erase r k j db = (
    lookup-insert (t.key_of r) j r db,
    lookup-erase k j db,
    ground (arith, lookup-erase k k db, same_key_refl k),
  )
