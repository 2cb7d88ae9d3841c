-- ===== src/Base58/RoundTrip.antt =====
-- Addresses that were written by src/base58.h are read back.
use prime_pool_deprecated.Common.{
  ℕ, zero, suc, ◌+◌, ◌-◌, ◌<◌, ◌≤◌, ◌≡◌, refl, sym, ap, subst, ◌∙◌, inl, inr, true, false, List, [],
  ◌∷◌, ◌++◌, some, arith, ltb, leb, ◌==◌, if◌then◌else◌, length, length-append, get_or,
  get_or-append_length, take, drop, replicate, All, All-append, map, append-nil, take-append_exact,
  drop-append_exact, Bool-cases,
}
use prime_pool_deprecated.Common.Order.{bytes_order}
use prime_pool_deprecated.Common.StdMap.{same_key_refl}
use prime_pool_deprecated.Base58.{
  reverse, char_of, skip_spaces, to_digits, of_digits, count_leading, encode_base58, get_vch,
  trim_sign, decode_base58, encode_base58_check, decode_base58_check, Base58Data, set_string,
  to_string,
}
use prime_pool_deprecated.Base58.Digits.{
  IsTop, IsTop-reverse, reverse-zeros, reverse-leading, reverse_twice, of_digits-zeros,
  of_digits-to_digits, to_digits-of_digits, split_leading, count_leading-replicate,
}
use prime_pool_deprecated.Base58.Text.{
  IsDigits, skip_spaces-text, decode_loop-text, count_leading-text,
}

abbrev pub IsBytes : List ℕ → Type 0
IsBytes bytes = All (λ b. b < 256) bytes

-- The highest digit is not 0.
top_digit : (base d : ℕ) (ds : List ℕ) → IsTop base (d ∷ ds) → 0 < get_or (d ∷ ds) (length ds) 0
unfolding of_digits
top_digit base d [] (low, pos, t) = omega (arith, pos)
top_digit base d (e ∷ ds) (low, pos, t) = top_digit base e ds t

get_or-append_left :
    (xs ys : List ℕ) (i : ℕ) → i < length xs → get_or (xs ++ ys) i 0 ≡ get_or xs i 0
get_or-append_left [] ys i h = absurd (omega (arith, h))
get_or-append_left (x ∷ xs) ys zero h = refl
get_or-append_left (x ∷ xs) ys (suc i) h = get_or-append_left xs ys i (omega arith)

trim_sign_added :
    (xs : List ℕ)
    → 1 ≤ length xs
    → leb 128 (get_or xs (length xs - 1) 0) ≡ true
    → trim_sign (xs ++ 0 ∷ []) ≡ xs
unfolding trim_sign
trim_sign_added xs h signed = rw (length-append xs (0 ∷ []), size, last, before, front) refl
  where
    size : leb 2 (length xs + 1) ≡ true
    size = ground (arith, h)

    last : get_or (xs ++ 0 ∷ []) (length xs + 1 - 1) 0 ≡ 0
    last = ap (λ i. get_or (xs ++ 0 ∷ []) i 0) (omega arith) ∙ get_or-append_length xs (0 ∷ []) 0 0

    before : leb 128 (get_or (xs ++ 0 ∷ []) (length xs + 1 - 2) 0) ≡ true
    before =
        ap (λ i. leb 128 (get_or (xs ++ 0 ∷ []) i 0)) (omega arith)
        ∙ ap (leb 128) (get_or-append_left xs (0 ∷ []) (length xs - 1) (omega (arith, h)))
        ∙ signed

    front : take (length xs + 1 - 1) (xs ++ 0 ∷ []) ≡ xs
    front =
        ap (λ i. take i (xs ++ 0 ∷ [])) (omega arith)
        ∙ take-append_exact (length xs) xs (0 ∷ []) refl

trim_sign_plain : (xs : List ℕ) → 0 < get_or xs (length xs - 1) 0 → trim_sign xs ≡ xs
unfolding trim_sign
trim_sign_plain xs h = elim (Bool-cases (leb 2 (length xs))) [
  | inl long ↦ rw (long, top) refl
  | inr short ↦ rw short refl
]
  where
    top : (get_or xs (length xs - 1) 0 == 0) ≡ false
    top = ground (arith, h)

trim_sign_nil : trim_sign [] ≡ []
unfolding trim_sign
trim_sign_nil = refl

-- The byte that `getvch` adds is the one that is trimmed.
trim_sign-get_vch :
    (n : ℕ) (bytes : List ℕ)
    → to_digits 256 n n ≡ bytes
    → IsTop 256 bytes
    → trim_sign (get_vch n) ≡ bytes
unfolding get_vch
trim_sign-get_vch n [] e t =
    ap (λ xs. trim_sign (if leb 128 (get_or xs (length xs - 1) 0) then xs ++ 0 ∷ [] else xs)) e
    ∙ trim_sign_nil
trim_sign-get_vch n (d ∷ ds) e t =
    ap (λ xs. trim_sign (if leb 128 (get_or xs (length xs - 1) 0) then xs ++ 0 ∷ [] else xs)) e
    ∙ (elim (Bool-cases (leb 128 (get_or (d ∷ ds) (length (d ∷ ds) - 1) 0))) [
      | inl signed ↦ rw signed (trim_sign_added (d ∷ ds) (omega arith) signed)
      | inr plain ↦ rw plain (trim_sign_plain (d ∷ ds) top)
    ])
  where
    top : 0 < get_or (d ∷ ds) (length (d ∷ ds) - 1) 0
    top = subst (λ i. 0 < get_or (d ∷ ds) i 0) (omega arith) (top_digit 256 d ds t)

All-behind : (P : ℕ → Type 0) (xs ys : List ℕ) → All P (xs ++ ys) → All P ys
All-behind P [] ys h = h
All-behind P (x ∷ xs) ys (h, hs) = All-behind P xs ys hs

top-IsDigits : (ds : List ℕ) → IsTop 58 ds → IsDigits ds
top-IsDigits [] t = tt
top-IsDigits (d ∷ ds) (low, pos, t) = (low, top-IsDigits ds t)

no_leading : (ds : List ℕ) → IsTop 58 ds → count_leading (char_of 0) (reverse (map char_of ds)) ≡ 0
unfolding reverse count_leading
no_leading [] t = refl
no_leading (d ∷ ds) t =
    ap (count_leading (char_of 0)) (sym (append-nil (reverse (map char_of (d ∷ ds)))))
    ∙ count_leading-text ds [] d t

-- A text of `k` zeros and the digits of a number is read as `k` zeros and the bytes of the number.
decode_base58-text :
    (k n : ℕ) (ds rest : List ℕ)
    → IsTop 58 ds
    → of_digits 58 ds ≡ n
    → to_digits 256 n n ≡ reverse rest
    → IsTop 256 (reverse rest)
    → decode_base58 (replicate k (char_of 0) ++ reverse (map char_of ds))
      ≡ some (replicate k 0 ++ rest)
unfolding decode_base58
decode_base58-text k n ds rest t value digits top =
    rw (decode_base58, skip, decode_loop-text k ds (top-IsDigits ds t), value)
      (ap some (
        ap (λ i. replicate i 0 ++ reverse (trim_sign (get_vch n)))
          (ap (count_leading (char_of 0)) skip ∙ leading)
        ∙ ap (λ bytes. replicate k 0 ++ reverse bytes)
            (trim_sign-get_vch n (reverse rest) digits top)
        ∙ ap (λ bytes. replicate k 0 ++ bytes) (reverse_twice rest)))
  where
    skip :
        skip_spaces (replicate k (char_of 0) ++ reverse (map char_of ds))
        ≡ replicate k (char_of 0) ++ reverse (map char_of ds)
    skip = skip_spaces-text k ds (top-IsDigits ds t)

    leading : count_leading (char_of 0) (replicate k (char_of 0) ++ reverse (map char_of ds)) ≡ k
    leading =
        count_leading-replicate k (char_of 0) (reverse (map char_of ds))
        ∙ ap (λ i. k + i) (no_leading ds t)
        ∙ omega arith

-- The number of the bytes does not count the zeros at their front.
number_of_bytes :
    (k : ℕ) (bytes rest : List ℕ)
    → bytes ≡ replicate k 0 ++ rest
    → of_digits 256 (reverse bytes) ≡ of_digits 256 (reverse rest)
number_of_bytes k bytes rest e =
    ap (λ bs. of_digits 256 (reverse bs)) e
    ∙ ap (of_digits 256) (reverse-leading k 0 rest)
    ∙ of_digits-zeros 256 k (reverse rest)

-- Every vector of bytes comes back from its base58 text, with the zeros at its front.
pub decode_base58-encode_base58 :
    (bytes : List ℕ) → IsBytes bytes → decode_base58 (encode_base58 bytes) ≡ some bytes
unfolding encode_base58
decode_base58-encode_base58 bytes h =
    let (rest, split, stop) = split_leading 0 bytes in
    let k = count_leading 0 bytes in
    let n = of_digits 256 (reverse rest) in
    let rest_bytes = All-behind (λ b. b < 256) (replicate k 0) rest (subst IsBytes split h) in
    let top = IsTop-reverse 256 rest (omega arith) rest_bytes stop in
    let (value, t) = of_digits-to_digits 58 n n (omega arith) (omega arith) in
    let written =
      ap (λ m. reverse (map char_of (to_digits 58 m m) ++ replicate k (char_of 0)))
        (number_of_bytes k bytes rest split)
      ∙ reverse-zeros k (char_of 0) (map char_of (to_digits 58 n n)) in
    ap decode_base58 written
    ∙ decode_base58-text k n (to_digits 58 n n) rest t value
        (to_digits-of_digits 256 n (reverse rest) (omega arith) top (omega arith)) top
    ∙ ap some (sym split)

module _ (checksum : List ℕ → List ℕ) where
  pub decode_base58_check-encode_base58_check :
      (bytes : List ℕ)
      → IsBytes bytes
      → IsBytes (checksum bytes)
      → length (checksum bytes) ≡ 4
      → decode_base58_check checksum (encode_base58_check checksum bytes) ≡ some bytes
  unfolding decode_base58_check encode_base58_check
  decode_base58_check-encode_base58_check bytes h hc four =
      rw
        (
          decode_base58_check,
          decode_base58-encode_base58 (bytes ++ checksum bytes)
              (All-append (λ b. b < 256) bytes (checksum bytes) h hc),
          size,
          front,
          back,
          same_key_refl (checksum bytes),
          long,
        )
        refl
    where
      size : length (bytes ++ checksum bytes) ≡ length bytes + 4
      size = length-append bytes (checksum bytes) ∙ ap (λ n. length bytes + n) four

      front : take (length bytes + 4 - 4) (bytes ++ checksum bytes) ≡ bytes
      front = take-append_exact (length bytes + 4 - 4) bytes (checksum bytes) (omega arith)

      back : drop (length bytes + 4 - 4) (bytes ++ checksum bytes) ≡ checksum bytes
      back = drop-append_exact (length bytes + 4 - 4) bytes (checksum bytes) (omega arith)

      long : ltb (length bytes + 4) 4 ≡ false
      long = ground arith

  -- An address of bytes that ToString wrote, with a checksum of four bytes, is read back by
  -- SetString with its version and data.
  pub set_string-to_string :
      (a : Base58Data checksum)
      → IsBytes (a.version ∷ a.content)
      → IsBytes (checksum (a.version ∷ a.content))
      → length (checksum (a.version ∷ a.content)) ≡ 4
      → set_string checksum (to_string checksum a) ≡ (true, a)
  unfolding set_string to_string
  set_string-to_string a h hc four =
      rw (set_string, decode_base58_check-encode_base58_check (a.version ∷ a.content) h hc four)
        refl
