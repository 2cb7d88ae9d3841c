-- ===== src/Bytes/RoundTrip.antt =====
-- Reading back what was written, at any place of a longer stream.
use prime_pool_deprecated.Common.{
  ℕ, ◌+◌, ◌/◌, ◌%◌, ◌^◌, ◌≡◌, refl, ap, ◌∙◌, List, [], ◌++◌, arith, length, get_or, length-append,
  get_or-append_length, All, append-nil,
}
use prime_pool_deprecated.Common.Bits.{bit_or_disjoint}
use prime_pool_deprecated.Bytes.{
  IsByte, IsU32, IsU64, uint2bytes, bytes2uint, uint2bytes64, bytes2uint64, double2bytes,
  bytes2double,
}

pub length-uint2bytes : (n : ℕ) → length (uint2bytes n) ≡ 4
unfolding uint2bytes
length-uint2bytes n = refl

pub length-uint2bytes64 : (n : ℕ) → length (uint2bytes64 n) ≡ 8
unfolding uint2bytes64
length-uint2bytes64 n = refl

-- An offset skips what stands in front.
pub bytes2uint-append_length :
    (front xs : List ℕ) (k : ℕ) → bytes2uint (front ++ xs) (length front + k) ≡ bytes2uint xs k
unfolding bytes2uint
bytes2uint-append_length front xs k = ground (
  arith,
  length-append front xs,
  get_or-append_length front xs k 0,
  get_or-append_length front xs (k + 1) 0,
  get_or-append_length front xs (k + 2) 0,
  get_or-append_length front xs (k + 3) 0,
  ap (λ (i : ℕ). get_or (front ++ xs) i 0) (assoc (length front) k 1),
  ap (λ (i : ℕ). get_or (front ++ xs) i 0) (assoc (length front) k 2),
  ap (λ (i : ℕ). get_or (front ++ xs) i 0) (assoc (length front) k 3),
)
  where
    assoc : (a b c : ℕ) → a + b + c ≡ a + (b + c)
    assoc a b c = omega arith

pub bytes2uint-uint2bytes :
    (n : ℕ) (rest : List ℕ) → IsU32 n → bytes2uint (uint2bytes n ++ rest) 0 ≡ n
unfolding bytes2uint uint2bytes
bytes2uint-uint2bytes n rest h = ground arith

pub bytes2uint-IsU32 : (bytes : List ℕ) (k : ℕ) → IsU32 (bytes2uint bytes k)
unfolding bytes2uint
bytes2uint-IsU32 bytes k = ground arith

pub bytes2uint64-append_length :
    (front xs : List ℕ) (k : ℕ) → bytes2uint64 (front ++ xs) (length front + k) ≡ bytes2uint64 xs k
unfolding bytes2uint64
bytes2uint64-append_length front xs k = ground (
  arith,
  bytes2uint-append_length front xs k,
  bytes2uint-append_length front xs (k + 4),
  ap (bytes2uint (front ++ xs)) (assoc (length front) k),
)
  where
    assoc : (a b : ℕ) → a + b + 4 ≡ a + (b + 4)
    assoc a b = omega arith

-- Both halves come back, whatever follows.
bytes2uint64_halves :
    (n : ℕ) (rest : List ℕ)
    → (bytes2uint (uint2bytes64 n ++ rest) 0 ≡ n % 2 ^ 32)
      × (bytes2uint (uint2bytes64 n ++ rest) 4 ≡ n / 2 ^ 32 % 2 ^ 32)
unfolding uint2bytes64 bytes2uint
bytes2uint64_halves n rest = (ground arith, ground arith)

pub bytes2uint64-uint2bytes64 :
    (n : ℕ) (rest : List ℕ) → IsU64 n → bytes2uint64 (uint2bytes64 n ++ rest) 0 ≡ n
unfolding bytes2uint64
bytes2uint64-uint2bytes64 n rest h =
    ground
      (arith, bytes2uint64_halves n rest, bit_or_disjoint 32 (n % 2 ^ 32) (n / 2 ^ 32 % 2 ^ 32))

-- A uint64 written after a front is read back at the offset of the front's length, whatever
-- follows.
pub bytes2uint64_at :
    (front rest : List ℕ) (n : ℕ)
    → IsU64 n
    → bytes2uint64 (front ++ (uint2bytes64 n ++ rest)) (length front) ≡ n
bytes2uint64_at front rest n h =
    ap (bytes2uint64 (front ++ (uint2bytes64 n ++ rest))) (omega arith)
    ∙ bytes2uint64-append_length front (uint2bytes64 n ++ rest) 0
    ∙ bytes2uint64-uint2bytes64 n rest h

pub bytes2uint_at :
    (front rest : List ℕ) (n : ℕ)
    → IsU32 n
    → bytes2uint (front ++ (uint2bytes n ++ rest)) (length front) ≡ n
bytes2uint_at front rest n h =
    ap (bytes2uint (front ++ (uint2bytes n ++ rest))) (omega arith)
    ∙ bytes2uint-append_length front (uint2bytes n ++ rest) 0
    ∙ bytes2uint-uint2bytes n rest h

pub bytes2uint64-IsU64 : (bytes : List ℕ) (k : ℕ) → IsU64 (bytes2uint64 bytes k)
unfolding bytes2uint64
bytes2uint64-IsU64 bytes k = ground (
  arith,
  bytes2uint-IsU32 bytes k,
  bytes2uint-IsU32 bytes (k + 4),
  bit_or_disjoint 32 (bytes2uint bytes k) (bytes2uint bytes (k + 4)),
)

pub uint2bytes-IsByte : (n : ℕ) → All IsByte (uint2bytes n)
unfolding uint2bytes
uint2bytes-IsByte n = omega arith

pub bytes2double-double2bytes : (d : ℕ) → IsU64 d → bytes2double (double2bytes d) ≡ d
unfolding double2bytes bytes2double
bytes2double-double2bytes d h = rw append-nil at (bytes2uint64-uint2bytes64 d [] h)
