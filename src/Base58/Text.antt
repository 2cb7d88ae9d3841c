-- ===== src/Base58/Text.antt =====
-- The characters of src/base58.h.
use prime_pool_deprecated.Common.{
  ℕ, zero, suc, ◌+◌, ◌*◌, ◌<◌, ◌≡◌, refl, sym, ap, ◌∙◌, inl, inr, Bool, true, false, not, ◌&&◌,
  ◌||◌, List, [], ◌∷◌, ◌++◌, Option, none, some, arith, ◌==◌, replicate, All, All-append, map,
  append_assoc, append-nil, Bool-cases,
}
use prime_pool_deprecated.Base58.{
  reverse, alphabet, char_of, index_of, is_space, skip_spaces, of_digits, count_leading,
  decode_loop,
}
use prime_pool_deprecated.Base58.Digits.{IsTop, All-reverse}

-- A test of all numbers below a bound.
all_below : ℕ → (ℕ → Bool) → Bool
all_below zero test = true
all_below (suc n) test = test n && all_below n test

all_below_lem : (n : ℕ) (test : ℕ → Bool) (k : ℕ) → all_below n test ≡ true → k < n → test k ≡ true
unfolding all_below
all_below_lem zero test k h lt = absurd (omega (arith, lt))
all_below_lem (suc n) test k h lt = elim (Bool-cases (k == n)) [
  | inl same ↦ ground (arith, same, h, ap test (equal same))
  | inr other ↦ ground (arith, other, h, lt, all_below_lem n test k)
]
  where
    equal : k == n ≡ true → k ≡ n
    equal e = ground (arith, e)

found : ℕ → Bool
found c = elim (index_of (char_of c) alphabet) [ none ↦ false | some i ↦ i == c ]

index_of-char_of : (c : ℕ) → c < 58 → index_of (char_of c) alphabet ≡ some c
unfolding all_below found index_of
index_of-char_of c h = read (index_of (char_of c) alphabet) (all_below_lem 58 found c refl h)
  where
    read : (r : Option ℕ) → (elim r [ none ↦ false | some i ↦ i == c ]) ≡ true → r ≡ some c
    read none e = cc
    read (some i) e = ap some (ground (arith, e))

char_of_text : (c : ℕ) → c < 58 → is_space (char_of c) ≡ false
unfolding all_below
char_of_text c h = ground (arith, all_below_lem 58 (λ k. not (is_space (char_of k))) c refl h)

char_of_zero : (c : ℕ) → c < 58 → 0 < c → (char_of c == char_of 0) ≡ false
unfolding all_below
char_of_zero c h pos =
    ground (arith, pos, all_below_lem 58 (λ k. (k == 0) || not (char_of k == char_of 0)) c refl h)

-- Digits below 58.
abbrev pub IsDigits : List ℕ → Type 0
IsDigits ds = All (λ c. c < 58) ds

abbrev IsText : List ℕ → Type 0
IsText cs = All (λ c. is_space c ≡ false) cs

skip_spaces-IsText : (cs : List ℕ) → IsText cs → skip_spaces cs ≡ cs
unfolding skip_spaces
skip_spaces-IsText [] h = refl
skip_spaces-IsText (c ∷ cs) (h, hs) = rw h refl

map-IsText : (ds : List ℕ) → IsDigits ds → IsText (map char_of ds)
map-IsText [] h = tt
map-IsText (d ∷ ds) (h, hs) = (char_of_text d h, map-IsText ds hs)

zeros-IsText : (n : ℕ) → IsText (replicate n (char_of 0))
zeros-IsText zero = tt
zeros-IsText (suc n) = (refl, zeros-IsText n)

-- The characters of a number behind leading zeros are read without a change.
pub skip_spaces-text :
    (n : ℕ) (ds : List ℕ)
    → IsDigits ds
    → skip_spaces (replicate n (char_of 0) ++ reverse (map char_of ds))
      ≡ replicate n (char_of 0) ++ reverse (map char_of ds)
skip_spaces-text n ds h = skip_spaces-IsText (replicate n (char_of 0) ++ reverse (map char_of ds)) (
    All-append (λ c. is_space c ≡ false) (replicate n (char_of 0)) (reverse (map char_of ds))
      (zeros-IsText n) (All-reverse (λ c. is_space c ≡ false) (map char_of ds) (map-IsText ds h)))

decode_loop-zeros :
    (n : ℕ) (cs : List ℕ) → decode_loop (replicate n (char_of 0) ++ cs) 0 ≡ decode_loop cs 0
unfolding decode_loop index_of
decode_loop-zeros zero cs = refl
decode_loop-zeros (suc n) cs = decode_loop-zeros n cs

decode_loop-char :
    (d v : ℕ) (rest : List ℕ)
    → d < 58
    → decode_loop (char_of d ∷ rest) v ≡ decode_loop rest (v * 58 + d)
unfolding decode_loop
decode_loop-char d v rest h =
    ap
      (λ r. elim r as (λ (s : Option ℕ). Option ℕ) [
        | none ↦ ended
        | some i ↦ decode_loop rest (v * 58 + i)
      ])
      (index_of-char_of d h)
  where
    ended : Option ℕ
    ended = elim (skip_spaces (char_of d ∷ rest)) [ [] ↦ some v | x ∷ xs ↦ none ]

decode_loop-digits :
    (ds rest : List ℕ)
    → IsDigits ds
    → decode_loop (reverse (map char_of ds) ++ rest) 0 ≡ decode_loop rest (of_digits 58 ds)
unfolding reverse of_digits
decode_loop-digits [] rest h = refl
decode_loop-digits (d ∷ ds) rest (h, hs) =
    ap (λ cs. decode_loop cs 0) (append_assoc (reverse (map char_of ds)) (char_of d ∷ []) rest)
    ∙ decode_loop-digits ds (char_of d ∷ rest) hs
    ∙ step (of_digits 58 ds)
  where
    step : (v : ℕ) → decode_loop (char_of d ∷ rest) v ≡ decode_loop rest (d + 58 * v)
    step v = decode_loop-char d v rest h ∙ ap (decode_loop rest) (omega arith)

-- The number of a text.
pub decode_loop-text :
    (n : ℕ) (ds : List ℕ)
    → IsDigits ds
    → decode_loop (replicate n (char_of 0) ++ reverse (map char_of ds)) 0 ≡ some (of_digits 58 ds)
unfolding decode_loop
decode_loop-text n ds h =
    decode_loop-zeros n (reverse (map char_of ds))
    ∙ ap (λ cs. decode_loop cs 0) (sym (append-nil (reverse (map char_of ds))))
    ∙ decode_loop-digits ds [] h

-- A text does not start with a zero if its highest digit is none.
pub count_leading-text :
    (ds rest : List ℕ) (d : ℕ)
    → IsTop 58 (d ∷ ds)
    → count_leading (char_of 0) (reverse (map char_of (d ∷ ds)) ++ rest) ≡ 0
unfolding reverse count_leading of_digits
count_leading-text [] rest d (low, pos, t) = rw (char_of_zero d low (omega (arith, pos))) refl
count_leading-text (e ∷ ds) rest d (low, pos, t) =
    ap (count_leading (char_of 0))
      (append_assoc (reverse (map char_of (e ∷ ds))) (char_of d ∷ []) rest)
    ∙ count_leading-text ds (char_of d ∷ rest) e t
