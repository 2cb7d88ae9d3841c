-- ===== src/Record/RoundTrip.antt =====
-- A record that is written to disk and read again.
use prime_pool_deprecated.Common.{
  ℕ, ◌+◌, ◌-◌, ◌≡◌, refl, sym, ap, ◌∙◌, List, [], ◌++◌, some, arith, ltb, length, take, drop,
  length-append, drop-append_exact, false, take-append_exact, append_assoc, append-nil,
}
use prime_pool_deprecated.Common.StdMap.{total}
use prime_pool_deprecated.Common.Order.{bytes_order}
use prime_pool_deprecated.Bytes.{
  IsU32, IsU64, u32, uint2bytes, bytes2uint, uint2bytes64, bytes2uint64, string2bytes, bytes2string,
}
use prime_pool_deprecated.Bytes.RoundTrip.{
  length-uint2bytes, length-uint2bytes64, bytes2uint_at, bytes2uint64_at, bytes2uint-uint2bytes,
  bytes2uint64-uint2bytes64,
}
use prime_pool_deprecated.Uint.{IsUint, get_bytes, set_bytes, length-get_bytes, set_bytes-get_bytes}
use prime_pool_deprecated.Coinbase.{
  Amounts, Coinbase, new_coinbase, serialize, deserialize, serialize_credits, deserialize_credits,
}
use prime_pool_deprecated.Coinbase.RoundTrip.{
  IsAmounts, deserialize-serialize, deserialize_credits-serialize_credits, length-serialize-lt,
}
use prime_pool_deprecated.Record.{
  Account, serialize_account, deserialize_account, Block, serialize_block, deserialize_block,
}

-- The ranges of an account's fields.
pub record IsAccount (a : Account) : Type 0 where
  pub balance_fits : IsU64 a.account_balance
  pub shares_fit : IsU64 a.round_shares
  pub blocks_fit : IsU32 a.blocks_found

-- An account whose numbers fit their fields comes back from its stream as it was.
pub deserialize_account-serialize_account :
    (a : Account) → IsAccount a → deserialize_account (serialize_account a) ≡ some a
unfolding deserialize_account serialize_account string2bytes bytes2string
deserialize_account-serialize_account a v = ground (
  arith,
  bytes2uint64-uint2bytes64 a.account_balance behind_balance v.balance_fits,
  bytes2uint64_at (uint2bytes64 a.account_balance) behind_shares a.round_shares v.shares_fit,
  length-uint2bytes64 a.account_balance,
  regrouped,
  bytes2uint_at numbers a.key a.blocks_found v.blocks_fit,
  length_numbers,
  key_back,
  length-append numbers (uint2bytes a.blocks_found ++ a.key),
  length-append (uint2bytes a.blocks_found) a.key,
  length-uint2bytes a.blocks_found,
)
  where
    behind_shares : List ℕ
    behind_shares = uint2bytes a.blocks_found ++ a.key

    behind_balance : List ℕ
    behind_balance = uint2bytes64 a.round_shares ++ behind_shares

    numbers : List ℕ
    numbers = uint2bytes64 a.account_balance ++ uint2bytes64 a.round_shares

    regrouped : uint2bytes64 a.account_balance ++ behind_balance ≡ numbers ++ behind_shares
    regrouped = sym (append_assoc (uint2bytes64 a.account_balance) _ behind_shares)

    length_numbers : length numbers ≡ 16
    length_numbers = omega (
      arith,
      length-append (uint2bytes64 a.account_balance) (uint2bytes64 a.round_shares),
      length-uint2bytes64 a.account_balance,
      length-uint2bytes64 a.round_shares,
    )

    key_back : drop 20 (numbers ++ behind_shares) ≡ a.key
    key_back =
        ap (drop 20) (sym (append_assoc numbers (uint2bytes a.blocks_found) a.key))
        ∙ drop-append_exact 20 (numbers ++ uint2bytes a.blocks_found) a.key (
            omega (
              arith,
              length_numbers,
              length-append numbers (uint2bytes a.blocks_found),
              length-uint2bytes a.blocks_found,
            ))

-- What a block's stream can hold.
pub record IsBlock (b : Block) : Type 0 where
  pub value_fits : IsU64 b.coinbase_value
  pub round_fits : IsU32 b.round
  pub key_fits : IsUint 32 b.key
  pub outputs : IsAmounts b.coinbase.outputs
  pub fee_fits : IsU64 b.coinbase.pool_fee
  pub payout_fits : IsU64 (b.coinbase.pool_fee + total (λ v. v) b.coinbase.outputs)
  pub credits : IsAmounts b.credits

-- The transaction that is read back: its current value counts the fee, and its maximum is the
-- block's value.
abbrev pub reread : Block → Coinbase
reread b = record {
  current_value = b.coinbase.pool_fee + total (λ v. v) b.coinbase.outputs;
  max_value = b.coinbase_value;
  pool_fee = b.coinbase.pool_fee;
  outputs = b.coinbase.outputs;
}

-- One step further into a stream.
regroup :
    (front x tail bytes : List ℕ) → bytes ≡ front ++ (x ++ tail) → bytes ≡ (front ++ x) ++ tail
regroup front x tail bytes e = e ∙ sym (append_assoc front x tail)

drop_at :
    (n : ℕ) (front tail bytes : List ℕ)
    → bytes ≡ front ++ tail
    → length front ≡ n
    → drop n bytes ≡ tail
drop_at n front tail bytes e h = ap (drop n) e ∙ drop-append_exact n front tail h

-- The reader, given the parts that it cuts the stream into.
deserialize_block_parts :
    (bytes c r d k : List ℕ) (value key : ℕ) (coinbase : Coinbase) (credits : Amounts)
    → bytes2uint64 bytes 0 ≡ value
    → bytes2uint bytes 8 ≡ length c
    → length bytes ≡ 12 + length c + length r + 132
    → take (length c) (drop 12 bytes) ≡ c
    → take (length r) (drop (length c + 12) bytes) ≡ r
    → take 4 (drop (12 + length c + length r) bytes) ≡ d
    → drop (12 + length c + length r + 4) bytes ≡ k
    → deserialize c value new_coinbase ≡ some coinbase
    → deserialize_credits r [] ≡ some credits
    → set_bytes 32 k ≡ some key
    → deserialize_block bytes
      ≡ some (record {
        key = key;
        coinbase_value = value;
        coinbase = coinbase;
        credits = credits;
        round = bytes2uint d 0;
      })
unfolding deserialize_block
deserialize_block_parts bytes c r d k value key coinbase credits ev en el ec er ed ek dc dr dk =
    rw (en, ev, long, last, ec, dc, credits_length, er, dr, ek, dk, ed)
  where
    last : length bytes - 132 ≡ 12 + length c + length r
    last = omega arith

    long : ltb (length bytes) (length c + 12 + 132) ≡ false
    long = ground arith

    credits_length : 12 + length c + length r - (length c + 12) ≡ length r
    credits_length = omega arith

-- A block whose parts fit the format comes back from its stream with its key, value, round,
-- credits and outputs, and with the current value of its coinbase counting the fee.
pub deserialize_block-serialize_block :
    (b : Block)
    → IsBlock b
    → deserialize_block (serialize_block b) ≡ some (record b { coinbase = reread b })
unfolding serialize_block
deserialize_block-serialize_block b w =
    deserialize_block_parts bytes c r d k b.coinbase_value b.key (reread b) b.credits
      (bytes2uint64-uint2bytes64 b.coinbase_value (l ++ t1) w.value_fits) length_back total_length
      (ap (take (length c)) (drop_at 12 (v ++ l) t1 bytes p1 l1)
        ∙ take-append_exact (length c) c t2 refl)
      (ap (take (length r)) (drop_at (length c + 12) ((v ++ l) ++ c) t2 bytes p2 l2)
        ∙ take-append_exact (length r) r t3 refl)
      (ap (take 4) (drop_at (12 + length c + length r) (((v ++ l) ++ c) ++ r) t3 bytes p3 l3)
        ∙ take-append_exact 4 d k (length-uint2bytes b.round))
      (drop_at (12 + length c + length r + 4) ((((v ++ l) ++ c) ++ r) ++ d) k bytes p4 l4)
      (deserialize-serialize b.coinbase w.outputs w.fee_fits w.payout_fits b.coinbase_value)
      (deserialize_credits-serialize_credits b.credits w.credits) key_back
    ∙ ap (λ n. some (record b { coinbase = reread b; round = n })) round_back
  where
    v : List ℕ
    v = uint2bytes64 b.coinbase_value

    c : List ℕ
    c = serialize b.coinbase

    l : List ℕ
    l = uint2bytes (u32 (length c))

    r : List ℕ
    r = serialize_credits b.credits

    d : List ℕ
    d = uint2bytes b.round

    k : List ℕ
    k = get_bytes 32 b.key

    t3 : List ℕ
    t3 = d ++ k

    t2 : List ℕ
    t2 = r ++ t3

    t1 : List ℕ
    t1 = c ++ t2

    bytes : List ℕ
    bytes = serialize_block b

    p1 : bytes ≡ (v ++ l) ++ t1
    p1 = regroup v l t1 bytes refl

    p2 : bytes ≡ ((v ++ l) ++ c) ++ t2
    p2 = regroup (v ++ l) c t2 bytes p1

    p3 : bytes ≡ (((v ++ l) ++ c) ++ r) ++ t3
    p3 = regroup ((v ++ l) ++ c) r t3 bytes p2

    p4 : bytes ≡ ((((v ++ l) ++ c) ++ r) ++ d) ++ k
    p4 = regroup (((v ++ l) ++ c) ++ r) d k bytes p3

    l1 : length (v ++ l) ≡ 12
    l1 = omega (
      arith,
      length-append v l,
      length-uint2bytes64 b.coinbase_value,
      length-uint2bytes (u32 (length c)),
    )

    l2 : length ((v ++ l) ++ c) ≡ length c + 12
    l2 = omega (arith, l1, length-append (v ++ l) c)

    l3 : length (((v ++ l) ++ c) ++ r) ≡ 12 + length c + length r
    l3 = omega (arith, l2, length-append ((v ++ l) ++ c) r)

    l4 : length ((((v ++ l) ++ c) ++ r) ++ d) ≡ 12 + length c + length r + 4
    l4 = omega (arith, l3, length-append (((v ++ l) ++ c) ++ r) d, length-uint2bytes b.round)

    total_length : length bytes ≡ 12 + length c + length r + 132
    total_length = omega (
      arith,
      ap length p4,
      l4,
      length-append ((((v ++ l) ++ c) ++ r) ++ d) k,
      length-get_bytes 32 b.key,
    )

    length_back : bytes2uint bytes 8 ≡ length c
    length_back = ground (
      arith,
      bytes2uint_at v t1 (u32 (length c)),
      length-uint2bytes64 b.coinbase_value,
      length-serialize-lt b.coinbase w.outputs,
    )

    key_back : set_bytes 32 k ≡ some b.key
    key_back = rw append-nil at (set_bytes-get_bytes 32 b.key [] w.key_fits)

    round_back : bytes2uint d 0 ≡ b.round
    round_back = rw append-nil at (bytes2uint-uint2bytes b.round [] w.round_fits)
