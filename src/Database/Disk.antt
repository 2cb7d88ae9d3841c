-- ===== src/Database/Disk.antt =====
-- `ReadIntoMemory` after `WriteToDisk`.
use prime_pool_deprecated.Common.{
  ℕ, zero, suc, ◌+◌, ◌-◌, ◌^◌, ◌≤◌, ◌<◌, ◌≡◌, refl, sym, ap, ◌∙◌, List, [], ◌∷◌, ◌++◌, Option, some,
  arith, length, take, drop, length-append, take-append_exact, drop-append_exact, append_assoc,
  append-nil, All,
}
use prime_pool_deprecated.Common.Order.{KeyOrder, bytes_order, ℕ_order}
use prime_pool_deprecated.Common.StdMap.{StdMap, insert, Above, IsSorted, insert-last}
use prime_pool_deprecated.Bytes.{u32, uint2bytes, bytes2uint}
use prime_pool_deprecated.Bytes.RoundTrip.{length-uint2bytes, bytes2uint-uint2bytes}
use prime_pool_deprecated.Database.{RecordType, write_to_disk, read_records, read_into_memory}

module _ {K R : Type 0} ⦃o : KeyOrder K⦄ (t : RecordType K R) (norm : R → R) where
  -- A record whose stream reads back as `norm r`, under the key that it has in the map.
  abbrev pub IsReadable : K × R → Type 0
  IsReadable (k, r) =
      (t.of_bytes (t.to_bytes r) ≡ some (norm r))
      × (t.key_of (norm r) ≡ k)
      × (length (t.to_bytes r) < 2 ^ 32)

  abbrev pub map_values : StdMap K R → StdMap K R
  map_values [] = []
  map_values ((k, r) ∷ db) = (k, norm r) ∷ map_values db

  Above-map_values : (k : K) (db : StdMap K R) → Above k db → Above k (map_values db)
  Above-map_values k [] a = tt
  Above-map_values k ((j, r) ∷ db) a = (a.0, Above-map_values k db a.1)

  map_values-IsSorted : (db : StdMap K R) → IsSorted db → IsSorted (map_values db)
  map_values-IsSorted [] s = tt
  map_values-IsSorted ((j, r) ∷ db) s = (Above-map_values j db s.0, map_values-IsSorted db s.1)

  read_records_open :
      (rounds left a b c d size : ℕ) (rest : List ℕ) (r : R) (acc : StdMap K R)
      → bytes2uint (a ∷ b ∷ c ∷ d ∷ []) 0 ≡ size
      → size ≤ length rest
      → t.of_bytes (take size rest) ≡ some r
      → read_records t (suc rounds) (suc left) (a ∷ b ∷ c ∷ d ∷ rest) acc
        ≡ read_records t rounds (suc left - (4 + size)) (drop size rest) (insert (t.key_of r) r acc)
  unfolding read_records
  read_records_open rounds left a b c d size rest r acc es le er = ground arith

  read_records_round :
      (rounds left a b c d size : ℕ) (rest : List ℕ) (r : R) (acc : StdMap K R)
      → bytes2uint (a ∷ b ∷ c ∷ d ∷ []) 0 ≡ size
      → size ≤ length rest
      → t.of_bytes (take size rest) ≡ some r
      → read_records t (suc rounds) (4 + size + left) (a ∷ b ∷ c ∷ d ∷ rest) acc
        ≡ read_records t rounds left (drop size rest) (insert (t.key_of r) r acc)
  read_records_round rounds left a b c d size rest r acc es le er =
      let more : 4 + size + left ≡ suc (3 + size + left) = omega arith in
      let less : suc (3 + size + left) - (4 + size) ≡ left = omega arith in
      rw more (
        read_records_open rounds (3 + size + left) a b c d size rest r acc es le er
        ∙ ap (λ (n : ℕ). read_records t rounds n (drop size rest) (insert (t.key_of r) r acc)) less)

  -- One round reads one record.
  read_records_step :
      (rounds left : ℕ) (r : R) (rest : List ℕ) (acc : StdMap K R)
      → t.of_bytes (t.to_bytes r) ≡ some (norm r)
      → length (t.to_bytes r) < 2 ^ 32
      → read_records t
          (suc rounds)
          (4 + length (t.to_bytes r) + left)
          (uint2bytes (u32 (length (t.to_bytes r))) ++ (t.to_bytes r ++ rest))
          acc
        ≡ read_records t rounds left rest (insert (t.key_of (norm r)) (norm r) acc)
  unfolding uint2bytes
  read_records_step rounds left r rest acc e h =
      read_records_round rounds left _ _ _ _ n (t.to_bytes r ++ rest) (norm r) acc size
        (omega (arith, length-append (t.to_bytes r) rest))
        (ap t.of_bytes (take-append_exact n (t.to_bytes r) rest refl) ∙ e)
      ∙ ap
          (λ (bytes : List ℕ).
            read_records t rounds left bytes (insert (t.key_of (norm r)) (norm r) acc))
          (drop-append_exact n (t.to_bytes r) rest refl)
    where
      n : ℕ
      n = length (t.to_bytes r)

      size : bytes2uint (uint2bytes (u32 n)) 0 ≡ n
      size = (rw append-nil at (bytes2uint-uint2bytes (u32 n) [] (omega arith))) ∙ omega arith

  read_records-done :
      (rounds : ℕ) (bytes : List ℕ) (acc : StdMap K R)
      → read_records t rounds 0 bytes acc ≡ some acc
  unfolding read_records
  read_records-done rounds bytes acc = refl

  length-written :
      (k : K) (r : R) (db : StdMap K R)
      → length (write_to_disk t ((k, r) ∷ db))
        ≡ 4 + length (t.to_bytes r) + length (write_to_disk t db)
  unfolding write_to_disk
  length-written k r db = omega (
    arith,
    length-append (uint2bytes (u32 (length (t.to_bytes r)))) (t.to_bytes r ++ write_to_disk t db),
    length-append (t.to_bytes r) (write_to_disk t db),
    length-uint2bytes (u32 (length (t.to_bytes r))),
  )

  read_records-write_to_disk :
      (db acc : StdMap K R) (rounds : ℕ)
      → IsSorted (acc ++ map_values db)
      → All IsReadable db
      → length (write_to_disk t db) ≤ rounds
      → read_records t rounds (length (write_to_disk t db)) (write_to_disk t db) acc
        ≡ some (acc ++ map_values db)
  unfolding write_to_disk
  read_records-write_to_disk [] acc rounds s f h =
      read_records-done rounds [] acc ∙ ap {B = Option (StdMap K R)} some (sym (append-nil acc))
  read_records-write_to_disk ((k, r) ∷ db) acc zero s f h =
      absurd (omega (arith, length-written k r db))
  read_records-write_to_disk ((k, r) ∷ db) acc (suc rounds) s ((read, key, short), f) h =
      ap (λ (left : ℕ). read_records t (suc rounds) left (write_to_disk t ((k, r) ∷ db)) acc)
        (length-written k r db)
      ∙ read_records_step rounds (length (write_to_disk t db)) r (write_to_disk t db) acc read short
      ∙ ap
          (λ (m : StdMap K R).
            read_records t rounds (length (write_to_disk t db)) (write_to_disk t db) m)
          (rw key (insert-last acc (map_values db) k (norm r) s))
      ∙ read_records-write_to_disk db (acc ++ (k, norm r) ∷ []) rounds (rw append_assoc s) f
          (omega (arith, length-written k r db))
      ∙ ap {B = Option (StdMap K R)} some (append_assoc acc ((k, norm r) ∷ []) (map_values db))

  -- For a map in key order whose records read back under their own keys, and whose file is
  -- shorter than 2 ^ 32 bytes, as each record is, the file gives the map back, with each record
  -- as its stream reads back, whatever was in memory.
  pub read_into_memory-write_to_disk :
      (db old : StdMap K R)
      → IsSorted db
      → All IsReadable db
      → length (write_to_disk t db) < 2 ^ 32
      → read_into_memory t (some (write_to_disk t db)) old ≡ some (map_values db)
  unfolding read_into_memory
  read_into_memory-write_to_disk db old s f short =
      ap (λ (left : ℕ). read_records t (length (write_to_disk t db)) left (write_to_disk t db) [])
        (omega arith)
      ∙ read_records-write_to_disk db [] _ (map_values-IsSorted db s) f (omega arith)
