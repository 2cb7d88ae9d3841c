-- ===== src/Lobby/Text.antt =====
-- Different connections have different GUIDs (src/LLP/pool.cpp).
use prime_pool_deprecated.Common.{
  ℕ, zero, suc, ◌+◌, ◌-◌, ◌*◌, ◌/◌, ◌%◌, ◌<◌, ◌≡◌, refl, sym, ap, ◌∙◌, inl, inr, false, List, [],
  ◌∷◌, ◌++◌, arith, ltb, ◌==◌, if◌then◌else◌, All, All-append, Bool-cases,
}
use prime_pool_deprecated.Lobby.{decimal, to_string, guid}

-- The number of a string of decimal digits.
abbrev number : ℕ → List ℕ → ℕ
number n [] = n
number n (c ∷ cs) = number (10 * n + (c - 48)) cs

number-append :
    (n : ℕ) (cs : List ℕ) (c : ℕ) → number n (cs ++ c ∷ []) ≡ 10 * number n cs + (c - 48)
number-append n [] c = refl
number-append n (d ∷ cs) c = number-append (10 * n + (d - 48)) cs c

number-decimal : (rounds n : ℕ) → n < rounds → number 0 (decimal rounds n) ≡ n
unfolding decimal
number-decimal zero n h = absurd (omega arith)
number-decimal (suc rounds) n h = elim (Bool-cases (ltb n 10)) [
  | inl one ↦ rw one (omega arith)
  | inr many ↦ rw many (
      number-append 0 (decimal rounds (n / 10)) (48 + n % 10)
      ∙ ground (arith, number-decimal rounds (n / 10), many))
]

number-to_string : (n : ℕ) → number 0 (to_string n) ≡ n
unfolding to_string
number-to_string n = number-decimal (suc n) n (omega arith)

abbrev IsDigits : List ℕ → Type 0
IsDigits cs = All (λ (c : ℕ). (c == 95) ≡ false) cs

decimal-IsDigits : (rounds n : ℕ) → IsDigits (decimal rounds n)
unfolding decimal
decimal-IsDigits zero n = tt
decimal-IsDigits (suc rounds) n = elim (Bool-cases (ltb n 10)) [
  | inl one ↦ rw one (ground (arith, one), tt)
  | inr many ↦ rw many (
      All-append (λ (c : ℕ). (c == 95) ≡ false) (decimal rounds (n / 10)) ((48 + n % 10) ∷ [])
        (decimal-IsDigits rounds (n / 10)) (ground arith, tt))
]

-- The parts of a string around its first underscore.
abbrev before : List ℕ → List ℕ
before [] = []
before (c ∷ cs) = if c == 95 then [] else c ∷ before cs

abbrev after : List ℕ → List ℕ
after [] = []
after (c ∷ cs) = if c == 95 then cs else after cs

before-append : (xs ys : List ℕ) → IsDigits xs → before (xs ++ 95 ∷ ys) ≡ xs
before-append [] ys h = refl
before-append (x ∷ xs) ys (h, hs) = rw h (ap (◌∷◌ x) (before-append xs ys hs))

after-append : (xs ys : List ℕ) → IsDigits xs → after (xs ++ 95 ∷ ys) ≡ ys
after-append [] ys h = refl
after-append (x ∷ xs) ys (h, hs) = rw h (after-append xs ys hs)

-- The two numbers of a GUID can be read back from it.
pub guid_injective : (i j i' j' : ℕ) → guid i j ≡ guid i' j' → (i ≡ i') × (j ≡ j')
unfolding guid to_string
guid_injective i j i' j' e = (
  sym (daemon i j) ∙ ap (λ (g : List ℕ). number 0 (before g)) e ∙ daemon i' j',
  sym (slot i j) ∙ ap (λ (g : List ℕ). number 0 (after g)) e ∙ slot i' j',
)
  where
    daemon : (i j : ℕ) → number 0 (before (guid i j)) ≡ i
    daemon i j =
        ap (number 0) (before-append (to_string i) (to_string j) (decimal-IsDigits (suc i) i))
        ∙ number-to_string i

    slot : (i j : ℕ) → number 0 (after (guid i j)) ≡ j
    slot i j =
        ap (number 0) (after-append (to_string i) (to_string j) (decimal-IsDigits (suc i) i))
        ∙ number-to_string j
