-- ===== src/Base58/Digits.antt =====
-- Digits in a base, and reversed lists, as src/base58.h uses them.
use native.Mathlib.Nat.{
  mod-add-div, mod-lt, mul-le-mul_left, mod-eq_of_lt, div-lt_self, div-eq_of_lt, add-mul-div_left,
  add-mul-mod_self_left,
}
use prime_pool_deprecated.Common.{
  ℕ, zero, suc, ◌+◌, ◌*◌, ◌/◌, ◌%◌, ◌<◌, ◌≤◌, ◌≡◌, refl, sym, ap, ◌∙◌, inl, inr, false, List, [],
  ◌∷◌, ◌++◌, arith, ◌==◌, replicate, All, All-append, append_assoc, append-nil, Bool-cases,
}
use prime_pool_deprecated.Base58.{reverse, to_digits, of_digits, count_leading}

reverse-append : (xs ys : List ℕ) → reverse (xs ++ ys) ≡ reverse ys ++ reverse xs
unfolding reverse
reverse-append [] ys = sym (append-nil (reverse ys))
reverse-append (x ∷ xs) ys =
    rw (reverse-append xs ys) (append_assoc (reverse ys) (reverse xs) (x ∷ []))

replicate_last : (n x : ℕ) → replicate n x ++ x ∷ [] ≡ x ∷ replicate n x
replicate_last zero x = refl
replicate_last (suc n) x = ap (◌∷◌ x) (replicate_last n x)

reverse-replicate : (n x : ℕ) → reverse (replicate n x) ≡ replicate n x
unfolding reverse
reverse-replicate zero x = refl
reverse-replicate (suc n) x = rw (reverse-replicate n x) (replicate_last n x)

pub reverse-zeros :
    (n x : ℕ) (ys : List ℕ) → reverse (ys ++ replicate n x) ≡ replicate n x ++ reverse ys
reverse-zeros n x ys =
    reverse-append ys (replicate n x) ∙ ap (λ zs. zs ++ reverse ys) (reverse-replicate n x)

pub reverse-leading :
    (n x : ℕ) (ys : List ℕ) → reverse (replicate n x ++ ys) ≡ reverse ys ++ replicate n x
reverse-leading n x ys =
    reverse-append (replicate n x) ys ∙ ap (λ zs. reverse ys ++ zs) (reverse-replicate n x)

pub reverse_twice : (xs : List ℕ) → reverse (reverse xs) ≡ xs
unfolding reverse
reverse_twice [] = refl
reverse_twice (x ∷ xs) = reverse-append (reverse xs) (x ∷ []) ∙ ap (◌∷◌ x) (reverse_twice xs)

-- Zeros above the digits do not count.
pub of_digits-zeros :
    (base n : ℕ) (ds : List ℕ) → of_digits base (ds ++ replicate n 0) ≡ of_digits base ds
unfolding of_digits
of_digits-zeros base zero [] = refl
of_digits-zeros base (suc n) [] = rw (of_digits-zeros base n []) (omega arith)
of_digits-zeros base n (d ∷ ds) = rw (of_digits-zeros base n ds) refl

-- Digits below the base, of which the highest is not 0.
abbrev pub IsTop : ℕ → List ℕ → Type 0
IsTop base [] = Unit
IsTop base (d ∷ ds) = (d < base) × (0 < of_digits base (d ∷ ds)) × IsTop base ds

-- The digits stand for the number, and are below the base.
pub of_digits-to_digits :
    (base rounds n : ℕ)
    → 1 < base
    → n ≤ rounds
    → (of_digits base (to_digits base rounds n) ≡ n) × IsTop base (to_digits base rounds n)
unfolding of_digits to_digits
of_digits-to_digits base zero n hb h = (omega arith, tt)
of_digits-to_digits base (suc rounds) n hb h = elim (Bool-cases (n == 0)) [
  | inl none_left ↦ rw none_left (ground (arith, none_left), tt)
  | inr more ↦
      let positive : 0 < n = ground (arith, more) in
      let smaller : n / base < n = div-lt_self positive hb in
      let (value, top) = of_digits-to_digits base rounds (n / base) hb (omega (arith, smaller)) in
      let same = ap (λ v. n % base + base * v) value ∙ mod-add-div n base in
      rw more (same, (mod-lt n (omega arith), omega (arith, positive, same), top))
]

-- The digits of a number are the only ones.
pub to_digits-of_digits :
    (base rounds : ℕ) (ds : List ℕ)
    → 1 < base
    → IsTop base ds
    → of_digits base ds ≤ rounds
    → to_digits base rounds (of_digits base ds) ≡ ds
unfolding of_digits to_digits
to_digits-of_digits base zero [] hb t h = refl
to_digits-of_digits base (suc rounds) [] hb t h = refl
to_digits-of_digits base zero (d ∷ ds) hb (low, pos, t) h = absurd (omega (arith, pos, h))
to_digits-of_digits base (suc rounds) (d ∷ ds) hb (low, pos, t) h =
    rw (nonzero, remainder, quotient)
      (ap (◌∷◌ d) (to_digits-of_digits base rounds ds hb t (omega (arith, smaller, quotient, h))))
  where
    v : ℕ
    v = of_digits base ds

    nonzero : (d + base * v == 0) ≡ false
    nonzero = ground (arith, pos)

    remainder : (d + base * v) % base ≡ d
    remainder = add-mul-mod_self_left d base v ∙ mod-eq_of_lt low

    quotient : (d + base * v) / base ≡ v
    quotient = add-mul-div_left d v (omega arith) ∙ ap (λ n. n + v) (div-eq_of_lt low) ∙ omega arith

    smaller : (d + base * v) / base < d + base * v
    smaller = div-lt_self pos hb

higher_positive : (base d v : ℕ) → 0 < base → 0 < v → 0 < d + base * v
higher_positive base d v hb hv =
    let product : base * 1 ≤ base * v = mul-le-mul_left base hv in omega (arith, product)

-- A highest digit that is not 0.
IsTop-last :
    (base d : ℕ) (ds : List ℕ)
    → 0 < base
    → 0 < d
    → d < base
    → All (λ e. e < base) ds
    → IsTop base (ds ++ d ∷ [])
unfolding of_digits
IsTop-last base d [] hb pos low h = (low, omega arith, tt)
IsTop-last base d (e ∷ ds) hb pos low (he, h) =
    let rest = IsTop-last base d ds hb pos low h in
    (he, higher_positive base e (of_digits base (ds ++ d ∷ [])) hb (top_positive ds rest), rest)
  where
    top_positive : (es : List ℕ) → IsTop base (es ++ d ∷ []) → 0 < of_digits base (es ++ d ∷ [])
    top_positive [] t = t.1
    top_positive (x ∷ es) t = t.1

pub All-reverse : (P : ℕ → Type 0) (xs : List ℕ) → All P xs → All P (reverse xs)
unfolding reverse
All-reverse P [] h = tt
All-reverse P (x ∷ xs) (h, hs) = All-append P (reverse xs) (x ∷ []) (All-reverse P xs hs) (h, tt)

-- A list that does not start with 0, from its end on.
pub IsTop-reverse :
    (base : ℕ) (xs : List ℕ)
    → 0 < base
    → All (λ e. e < base) xs
    → count_leading 0 xs ≡ 0
    → IsTop base (reverse xs)
unfolding reverse count_leading
IsTop-reverse base [] hb h e = tt
IsTop-reverse base (x ∷ xs) hb (hx, h) e =
    IsTop-last base x (reverse xs) hb (ground (arith, e)) hx (All-reverse (λ e. e < base) xs h)

-- The zeros at the front, and what follows them.
pub split_leading :
    (x : ℕ) (ys : List ℕ)
    → (rest : List ℕ) × (ys ≡ replicate (count_leading x ys) x ++ rest) × (count_leading x rest ≡ 0)
unfolding count_leading
split_leading x [] = ([], refl, refl)
split_leading x (y ∷ ys) = elim (Bool-cases (y == x)) [
  | inl same ↦
      let (rest, e, stop) = split_leading x ys in
      (rest, rw same (ap (λ z. z ∷ ys) (ground (arith, same)) ∙ ap (◌∷◌ x) e), stop)
  | inr other ↦ (y ∷ ys, rw other refl, rw other refl)
]

pub count_leading-replicate :
    (n x : ℕ) (ys : List ℕ) → count_leading x (replicate n x ++ ys) ≡ n + count_leading x ys
unfolding count_leading
count_leading-replicate zero x ys = omega arith
count_leading-replicate (suc n) x ys = ground (arith, count_leading-replicate n x ys)
