-- ===== src/Ddos/Window.antt =====
-- The moving window of DDOS_Score.
use mathlib.Core.Option
use prime_pool_deprecated.Common.{
  ℕ, zero, suc, ◌+◌, ◌-◌, ◌<◌, ◌≡◌, refl, ap, Bool, true, false, ◌&&◌, List, [], ◌∷◌, map, arith,
  ltb, leb, ◌==◌, if◌then◌else◌, length, replicate, get_elem?, Option-cases, inl, inr,
}
use prime_pool_deprecated.Ddos.{
  Score, new_score, reset, flush, sum_slots, score, clear_slot, clear_range, add_at, wrap,
  add_score,
}

-- The iterator stays on a slot.
pub record IsScore (s : Score) : Type 0 where
  pub nonempty : 0 < length s.slots
  pub in_range : s.iterator < length s.slots

length-map {ℓ} : {A : Type ℓ} (f : A → A) (xs : List A) → length (map f xs) ≡ length xs
length-map f [] = refl
length-map f (x ∷ xs) = ap suc (length-map f xs)

length-clear_range :
    (skip count : ℕ) (slots : List (Bool × ℕ))
    → length (clear_range skip count slots) ≡ length slots
unfolding clear_range
length-clear_range skip count [] = refl
length-clear_range (suc skip) count (slot ∷ slots) = ap suc (length-clear_range skip count slots)
length-clear_range zero zero (slot ∷ slots) = refl
length-clear_range zero (suc count) (slot ∷ slots) = ap suc (length-clear_range zero count slots)

length-add_at : (i n : ℕ) (slots : List (Bool × ℕ)) → length (add_at i n slots) ≡ length slots
unfolding add_at
length-add_at i n [] = refl
length-add_at zero n (slot ∷ slots) = refl
length-add_at (suc i) n (slot ∷ slots) = ap suc (length-add_at i n slots)

length-replicate : (n : ℕ) → length {A = Bool × ℕ} (replicate n (true, 0)) ≡ n
length-replicate zero = refl
length-replicate (suc n) = ap suc (length-replicate n)

new_score-IsScore : (timespan now : ℕ) → 0 < timespan → IsScore (new_score timespan now)
unfolding new_score
new_score-IsScore timespan now h = ground (arith, length-replicate timespan)

wrap-IsScore :
    (now : ℕ) (s : Score)
    → IsScore s
    → let (t, time) = wrap now s in
      IsScore t × (time < length t.slots) × (length t.slots ≡ length s.slots)
unfolding wrap reset
wrap-IsScore now s v = ground (arith, length-map (λ (slot : Bool × ℕ). (false, slot.1)) s.slots)

-- The operator += on a window that is not empty keeps its iterator on a slot and its number of
-- slots.
pub add_score-IsScore :
    (now n : ℕ) (s : Score)
    → IsScore s
    → IsScore (add_score now n s) × (length (add_score now n s).slots ≡ length s.slots)
unfolding add_score
add_score-IsScore now n s v =
    let (t, time) = wrap now s in
    ground (
      arith,
      wrap-IsScore now s v,
      length-add_at time n (clear_range t.iterator (suc time - t.iterator) t.slots),
      length-clear_range t.iterator (suc time - t.iterator) t.slots,
    )

pub flush-IsScore : (now : ℕ) (s : Score) → IsScore s → IsScore (flush now s)
unfolding flush reset
flush-IsScore now s v = ground (
  arith,
  length-map (λ (slot : Bool × ℕ). (false, slot.1)) s.slots,
  length-map (λ (slot : Bool × ℕ). (slot.0, 0))
      (map (λ (slot : Bool × ℕ). (false, slot.1)) s.slots),
)

get_elem?-clear_range :
    (skip count i : ℕ) (slots : List (Bool × ℕ))
    → get_elem? (clear_range skip count slots) i
      ≡ Option.map
          (λ slot. if leb skip i && ltb i (skip + count) then clear_slot slot else slot)
          (get_elem? slots i)
unfolding clear_range
get_elem?-clear_range skip count i [] = refl
get_elem?-clear_range (suc skip) count zero (slot ∷ slots) = ground arith
get_elem?-clear_range (suc skip) count (suc i) (slot ∷ slots) =
    ground (arith, get_elem?-clear_range skip count i slots)
get_elem?-clear_range zero zero i (slot ∷ slots) =
    elim (Option-cases (get_elem? (slot ∷ slots) i)) [
      | inl e ↦ rw e
      | inr (m, e) ↦ rw e (ground arith)
    ]
get_elem?-clear_range zero (suc count) zero (slot ∷ slots) = ground arith
get_elem?-clear_range zero (suc count) (suc i) (slot ∷ slots) =
    ground (arith, get_elem?-clear_range zero count i slots)

get_elem?-add_at :
    (k n i : ℕ) (slots : List (Bool × ℕ))
    → get_elem? (add_at k n slots) i
      ≡ Option.map
          (λ (slot : Bool × ℕ). if i == k then (slot.0, slot.1 + n) else slot)
          (get_elem? slots i)
unfolding add_at
get_elem?-add_at k n i [] = refl
get_elem?-add_at zero n zero (slot ∷ slots) = ground arith
get_elem?-add_at zero n (suc i) (slot ∷ slots) = elim (Option-cases (get_elem? slots i)) [
  | inl e ↦ rw e
  | inr (m, e) ↦ rw e (ground arith)
]
get_elem?-add_at (suc k) n zero (slot ∷ slots) = ground arith
get_elem?-add_at (suc k) n (suc i) (slot ∷ slots) = ground (arith, get_elem?-add_at k n i slots)

-- What `+=` makes of slot `i`: the slots from the iterator up to the present second are opened
-- anew if their score is of an earlier round, and the present second's takes the score.
abbrev pub slot_after : ℕ → ℕ → ℕ → ℕ → Bool × ℕ → Bool × ℕ
slot_after iterator time n i slot =
    let kept = if leb iterator i && leb i time then clear_slot slot else slot in
    if i == time then (kept.0, kept.1 + n) else kept

-- The operator += changes slot i of a score's window so: a slot from the iterator up to the
-- present second is opened anew if its score is of an earlier round, the present second's slot
-- takes the score, and every other slot stays.
pub get_elem?-add_score :
    (now n i : ℕ) (s : Score)
    → let (t, time) = wrap now s in
      get_elem? (add_score now n s).slots i
      ≡ Option.map (slot_after t.iterator time n i) (get_elem? t.slots i)
unfolding add_score
get_elem?-add_score now n i s =
    let (t, time) = wrap now s in
    let k = suc time - t.iterator in
    elim (Option-cases (get_elem? t.slots i)) [
      | inl e ↦ rw (
        get_elem?-add_at time n i (clear_range t.iterator k t.slots),
        get_elem?-clear_range t.iterator k i t.slots,
        e,
      )
      | inr (m, e) ↦
          rw
            (
              get_elem?-add_at time n i (clear_range t.iterator k t.slots),
              get_elem?-clear_range t.iterator k i t.slots,
              e,
            )
            (ground arith)
    ]

-- After `Flush` the score is 0.
sum_slots-zero :
    (slots : List (Bool × ℕ)) → sum_slots (map (λ (slot : Bool × ℕ). (slot.0, 0)) slots) ≡ 0
unfolding sum_slots
sum_slots-zero [] = refl
sum_slots-zero (slot ∷ slots) = omega (arith, sum_slots-zero slots)

pub score-flush : (now : ℕ) (s : Score) → score (flush now s) ≡ 0
unfolding score flush reset
score-flush now s = rw sum_slots-zero (ground arith)
