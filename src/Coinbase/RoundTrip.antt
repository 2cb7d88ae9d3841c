-- ===== src/Coinbase/RoundTrip.antt =====
-- `Deserialize` after `Serialize`.
use prime_pool_deprecated.Common.{
  ℕ, suc, ◌+◌, ◌*◌, ◌^◌, ◌≤◌, ◌<◌, ◌≡◌, refl, ap, ◌∙◌, List, [], ◌∷◌, ◌++◌, Option, some, arith,
  length, drop, length-append, get_elem?-append_length, drop-append_length, drop-append_exact,
  take-append_exact, append_assoc, append-nil, All,
}
use prime_pool_deprecated.Common.StdMap.{IsSorted, insert, insert-last, total}
use prime_pool_deprecated.Common.Order.{bytes_order}
use prime_pool_deprecated.Bytes.{IsU64, u8, u64, uint2bytes64, bytes2uint64, string2bytes}
use prime_pool_deprecated.Bytes.RoundTrip.{
  length-uint2bytes64, bytes2uint64-uint2bytes64, bytes2uint64_at,
}
use prime_pool_deprecated.Coinbase.{
  Address, Amounts, Coinbase, serialize_amounts, serialize, read_amount, read_amounts, deserialize,
  new_coinbase, serialize_credits, deserialize_credits,
}

-- What fits the format: addresses of at most 255 bytes, values of 64 bits.
abbrev pub Fits : Address × ℕ → Type 0
Fits (address, value) = (length address < 256) × IsU64 value

-- A map that the one-byte count can describe.
pub record IsAmounts (m : Amounts) : Type 0 where
  pub sorted : IsSorted m
  pub few : length m < 256
  pub each : All Fits m

index : (a n : ℕ) → a + 1 + n ≡ a + suc n
index a n = omega arith

read_amount_at :
    (front rest : List ℕ) (address : Address) (value : ℕ)
    → length address < 256
    → IsU64 value
    → read_amount
        (front ++ (u8 (length address) ∷ (address ++ (uint2bytes64 value ++ rest))))
        (length front)
      ≡ some (length address, address, value)
unfolding read_amount
read_amount_at front rest address value h v = ground (
  arith,
  get_elem?-append_length front (u8 n ∷ tail),
  drop-append_length front (u8 n ∷ tail) 1,
  take-append_exact n address (uint2bytes64 value ++ rest),
  behind_address,
  take-append_exact 8 (uint2bytes64 value) rest (length-uint2bytes64 value),
  value_back,
  length-append front (u8 n ∷ tail),
  length-append address (uint2bytes64 value ++ rest),
  length-append (uint2bytes64 value) rest,
  length-uint2bytes64 value,
)
  where
    n : ℕ
    n = length address

    tail : List ℕ
    tail = address ++ (uint2bytes64 value ++ rest)

    behind_address :
        drop (length front + 1 + n) (front ++ (u8 n ∷ tail)) ≡ uint2bytes64 value ++ rest
    behind_address =
        ap (λ (k : ℕ). drop k (front ++ (u8 n ∷ tail))) (index (length front) n)
        ∙ drop-append_length front (u8 n ∷ tail) (suc n)
        ∙ drop-append_exact n address (uint2bytes64 value ++ rest) refl

    value_back : bytes2uint64 (uint2bytes64 value) 0 ≡ value
    value_back = rw append-nil at (bytes2uint64-uint2bytes64 value [] v)

read_amounts_step :
    (count : ℕ) (bytes : List ℕ) (iterator : ℕ) (m : Amounts) (sum n : ℕ) (a : Address) (v : ℕ)
    → read_amount bytes iterator ≡ some (n, a, v)
    → read_amounts (suc count) bytes iterator m sum
      ≡ read_amounts count bytes (iterator + (n + 9)) (insert a v m) (u64 (sum + v))
unfolding read_amounts
read_amounts_step count bytes iterator m sum n a v e = rw (e, read_amounts)

read_amounts_done :
    (bytes : List ℕ) (iterator : ℕ) (m : Amounts) (sum : ℕ)
    → read_amounts 0 bytes iterator m sum ≡ some (m, sum)
unfolding read_amounts
read_amounts_done bytes iterator m sum = refl

-- The stream of a first entry.
entry : Address → ℕ → List ℕ
entry a v = u8 (length a) ∷ (a ++ uint2bytes64 v)

serialize_amounts-entry :
    (a : Address) (v : ℕ) (m : Amounts) (rest : List ℕ)
    → serialize_amounts ((a, v) ∷ m) ++ rest
      ≡ u8 (length a) ∷ (a ++ (uint2bytes64 v ++ (serialize_amounts m ++ rest)))
unfolding serialize_amounts string2bytes
serialize_amounts-entry a v m rest = simp append_assoc

length-entry : (a : Address) (v : ℕ) → length (entry a v) ≡ length a + 9
unfolding entry
length-entry a v = omega (arith, length-append a (uint2bytes64 v), length-uint2bytes64 v)

read_amounts-serialize_amounts :
    (m acc : Amounts) (front rest : List ℕ) (sum : ℕ)
    → IsSorted (acc ++ m)
    → All Fits m
    → IsU64 sum
    → read_amounts (length m) (front ++ (serialize_amounts m ++ rest)) (length front) acc sum
      ≡ some (acc ++ m, u64 (sum + total (λ v. v) m))
unfolding entry
read_amounts-serialize_amounts [] acc front rest sum s f u =
    read_amounts_done _ (length front) acc sum
    ∙ rw append-nil (ap {B = Option (Amounts × ℕ)} (λ (k : ℕ). some (acc, k)) (omega arith))
read_amounts-serialize_amounts ((a, v) ∷ m) acc front rest sum s (fits, f) u = cc (
  read_amounts_step (length m) bytes (length front) acc sum (length a) a v read,
  read_amounts-serialize_amounts m (acc ++ (a, v) ∷ []) (front ++ entry a v) rest (u64 (sum + v))
      (rw append_assoc s) f (omega arith),
  insert-last acc m a v s,
  regrouped,
  next_index,
  append_assoc acc ((a, v) ∷ []) m,
  sums,
)
  where
    bytes : List ℕ
    bytes = front ++ (serialize_amounts ((a, v) ∷ m) ++ rest)

    read : read_amount bytes (length front) ≡ some (length a, a, v)
    read =
        ap (λ (b : List ℕ). read_amount (front ++ b) (length front))
          (serialize_amounts-entry a v m rest)
        ∙ read_amount_at front (serialize_amounts m ++ rest) a v fits.0 fits.1

    regrouped : bytes ≡ (front ++ entry a v) ++ (serialize_amounts m ++ rest)
    regrouped = ap (◌++◌ front) (serialize_amounts-entry a v m rest) ∙ simp append_assoc

    next_index : length (front ++ entry a v) ≡ length front + (length a + 9)
    next_index = omega (arith, length-append front (entry a v), length-entry a v)

    sums : u64 (u64 (sum + v) + total (λ w. w) m) ≡ u64 (sum + (v + total (λ w. w) m))
    sums = omega arith

-- The whole loop, on a stream that ends with the entries.
read_amounts_all :
    (m : Amounts) (front : List ℕ) (iterator sum : ℕ)
    → IsAmounts m
    → length front ≡ iterator
    → IsU64 sum
    → read_amounts (length m) (front ++ serialize_amounts m) iterator [] sum
      ≡ some (m, u64 (sum + total (λ v. v) m))
read_amounts_all m front iterator sum w e u = cc (
  e,
  append-nil (serialize_amounts m),
  read_amounts-serialize_amounts m [] front [] sum w.sorted w.each u,
)

-- A transaction of at most 255 outputs that fit the format comes back with its outputs and fee,
-- its current value counting the fee and its maximum as given.
pub deserialize-serialize :
    (c : Coinbase)
    → IsAmounts c.outputs
    → IsU64 c.pool_fee
    → IsU64 (c.pool_fee + total (λ v. v) c.outputs)
    → (value : ℕ)
    → deserialize (serialize c) value new_coinbase
      ≡ some (record {
        current_value = c.pool_fee + total (λ v. v) c.outputs;
        max_value = value;
        pool_fee = c.pool_fee;
        outputs = c.outputs;
      })
unfolding deserialize serialize
deserialize-serialize c w h u value = ground (arith, count, fee, records)
  where
    count : u8 (length c.outputs) ≡ length c.outputs
    count = ground (arith, w.few)

    fee : bytes2uint64 (serialize c) 1 ≡ c.pool_fee
    fee = bytes2uint64_at (u8 (length c.outputs) ∷ []) (serialize_amounts c.outputs) c.pool_fee h

    records :
        read_amounts (length c.outputs) (serialize c) 9 [] c.pool_fee
        ≡ some (c.outputs, u64 (c.pool_fee + total (λ v. v) c.outputs))
    records =
        read_amounts_all c.outputs (u8 (length c.outputs) ∷ uint2bytes64 c.pool_fee) 9 c.pool_fee w
          (omega (arith, length-uint2bytes64 c.pool_fee)) h

-- Credits of at most 255 addresses that fit the format come back from their stream.
pub deserialize_credits-serialize_credits :
    (m : Amounts) → IsAmounts m → deserialize_credits (serialize_credits m) [] ≡ some m
unfolding deserialize_credits serialize_credits
deserialize_credits-serialize_credits m w = ground (arith, records)
  where
    records :
        read_amounts (length m) (serialize_credits m) 1 [] 0 ≡ some (m, u64 (0 + total (λ v. v) m))
    records = read_amounts_all m (u8 (length m) ∷ []) 1 0 w refl (omega arith)

length-serialize_amounts :
    (m : Amounts) → All Fits m → length (serialize_amounts m) ≤ 264 * length m
unfolding serialize_amounts string2bytes
length-serialize_amounts [] f = omega arith
length-serialize_amounts ((a, v) ∷ m) f = omega (
  arith,
  length-append a (uint2bytes64 v ++ serialize_amounts m),
  length-append (uint2bytes64 v) (serialize_amounts m),
  length-uint2bytes64 v,
  length-serialize_amounts m f.1,
)

-- The stream of a transaction is short enough for its 4-byte length.
pub length-serialize-lt : (c : Coinbase) → IsAmounts c.outputs → length (serialize c) < 2 ^ 32
unfolding serialize
length-serialize-lt c w = omega (
  arith,
  w.few,
  length-append (uint2bytes64 c.pool_fee) (serialize_amounts c.outputs),
  length-uint2bytes64 c.pool_fee,
  length-serialize_amounts c.outputs w.each,
)
