-- ===== src/Daemon/Slots.antt =====
-- The slots of a handle (src/LLP/daemon.cpp) and the number of its connections.
use prime_pool_deprecated.Common.{
  ℕ, zero, suc, ◌+◌, ◌-◌, ◌^◌, ◌≡◌, refl, ap, ◌∙◌, List, [], ◌∷◌, ◌++◌, Option, none, some, arith,
  ◌==◌, if◌then◌else◌, length, set, get_elem?,
}
use prime_pool_deprecated.Bytes.{u32}
use prime_pool_deprecated.Server.Slots.{occupied, occupied_removed}
use prime_pool_deprecated.Session.{Session}
use prime_pool_deprecated.Daemon.HandOut.{find_connection-free}
use prime_pool_deprecated.Daemon.{
  slot_of, Handle, find_connection, assign_at, assign_connection, remove_connection,
}

-- The slots with one of them in use.
abbrev pub TakesAt : ℕ → Session → List (Option Session) → List (Option Session) → Type 0
TakesAt i m slots slots' =
    ((q : ℕ)
      → slot_of (get_elem? slots' q) ≡ (if i == q then some m else slot_of (get_elem? slots q)))
    × (slot_of (get_elem? slots i) ≡ none)
    × (occupied slots' ≡ suc (occupied slots))

appended :
    (m : Session) (slots : List (Option Session))
    → TakesAt (length slots) m slots (set (slots ++ none ∷ []) (length slots) (some m))
appended m slots = (here slots, free slots, more slots)
  where
    here :
        (slots : List (Option Session)) (q : ℕ)
        → slot_of (get_elem? (set (slots ++ none ∷ []) (length slots) (some m)) q)
          ≡ (if length slots == q then some m else slot_of (get_elem? slots q))
    here [] zero = refl
    here [] (suc q) = ground arith
    here (x ∷ slots) zero = ground arith
    here (x ∷ slots) (suc q) = ground (arith, here slots q)

    free : (slots : List (Option Session)) → slot_of (get_elem? slots (length slots)) ≡ none
    free [] = refl
    free (x ∷ slots) = free slots

    more :
        (slots : List (Option Session))
        → occupied (set (slots ++ none ∷ []) (length slots) (some m)) ≡ suc (occupied slots)
    more [] = refl
    more (none ∷ slots) = more slots
    more (some n ∷ slots) = ap suc (more slots)

-- A slot that is there, written.
pub slot_of-set :
    (slots : List (Option Session)) (i q : ℕ) (x y : Option Session)
    → get_elem? slots i ≡ some y
    → slot_of (get_elem? (set slots i x) q) ≡ (if i == q then x else slot_of (get_elem? slots q))
slot_of-set [] i q x y e = cc
slot_of-set (z ∷ slots) zero zero x y e = refl
slot_of-set (z ∷ slots) zero (suc q) x y e = ground arith
slot_of-set (z ∷ slots) (suc i) zero x y e = ground arith
slot_of-set (z ∷ slots) (suc i) (suc q) x y e = ground (arith, slot_of-set slots i q x y)

occupied_filled :
    (m : Session) (slots : List (Option Session)) (i : ℕ)
    → get_elem? slots i ≡ some none
    → occupied (set slots i (some m)) ≡ suc (occupied slots)
occupied_filled m [] i e = cc
occupied_filled m (none ∷ slots) zero e = refl
occupied_filled m (some n ∷ slots) zero e = ground arith
occupied_filled m (none ∷ slots) (suc i) e = occupied_filled m slots i e
occupied_filled m (some n ∷ slots) (suc i) e = ap suc (occupied_filled m slots i e)

filled :
    (m : Session) (slots : List (Option Session)) (i : ℕ)
    → get_elem? slots i ≡ some none
    → TakesAt i m slots (set slots i (some m))
filled m slots i e =
    (λ q. slot_of-set slots i q (some m) none e, ap slot_of e, occupied_filled m slots i e)

-- A new connection takes a free slot, the others stay as they are, and the number of slots in use
-- grows by one.
pub assign_connection-TakesAt :
    (m : Session) (h : Handle)
    → let (i, h') = assign_connection m h in
      TakesAt i m h.connections h'.connections
      × (h'.total_connections ≡ u32 (h.total_connections + 1))
unfolding assign_connection assign_at
assign_connection-TakesAt m h = by_slot (find_connection h.connections) refl
  where
    by_slot :
        (r : Option ℕ)
        → find_connection h.connections ≡ r
        → let (i, h') = assign_at r m h in
          TakesAt i m h.connections h'.connections
          × (h'.total_connections ≡ u32 (h.total_connections + 1))
    by_slot none e = (appended m h.connections, refl)
    by_slot (some i) e = (filled m h.connections i (find_connection-free h.connections i e), refl)

-- A connection that goes leaves its slot free, the others as they are, and lowers the number of
-- slots in use by one.
pub remove_connection-slots :
    (h : Handle) (j : ℕ) (m : Session)
    → slot_of (get_elem? h.connections j) ≡ some m
    → ((q : ℕ)
        → slot_of (get_elem? (remove_connection j h).connections q)
          ≡ (if j == q then none else slot_of (get_elem? h.connections q)))
      × (suc (occupied (remove_connection j h).connections) ≡ occupied h.connections)
      × ((remove_connection j h).total_connections ≡ u32 (h.total_connections + 2 ^ 32 - 1))
unfolding remove_connection
remove_connection-slots h j m e = by_slot (get_elem? h.connections j) refl e
  where
    by_slot :
        (r : Option (Option Session))
        → get_elem? h.connections j ≡ r
        → slot_of r ≡ some m
        → ((q : ℕ)
            → slot_of (get_elem? (set h.connections j none) q)
              ≡ (if j == q then none else slot_of (get_elem? h.connections q)))
          × (suc (occupied (set h.connections j none)) ≡ occupied h.connections)
          × (u32 (h.total_connections + 2 ^ 32 - 1) ≡ u32 (h.total_connections + 2 ^ 32 - 1))
    by_slot none here e = cc
    by_slot (some x) here e = (
      λ q. slot_of-set h.connections j q none x here,
      occupied_removed h.connections j m (here ∙ ap {B = Option (Option Session)} some e),
      refl,
    )
