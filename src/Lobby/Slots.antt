-- ===== src/Lobby/Slots.antt =====
-- What the events of a connection do to the slots of all handles (src/core.cpp, src/LLP/daemon.cpp).
use prime_pool_deprecated.Common.{
  ℕ, zero, suc, ◌≡◌, refl, sym, ap, ◌∙◌, inl, inr, true, List, [], ◌∷◌, Option, none, some, arith,
  ◌==◌, if◌then◌else◌, set, get_elem?, All, All-get, All-set, Bool-cases,
}
use prime_pool_deprecated.Bytes.{u32}
use prime_pool_deprecated.Server.Slots.{occupied}
use prime_pool_deprecated.Session.{Session}
use prime_pool_deprecated.Daemon.{Handle, slot_of, assign_connection, remove_connection}
use prime_pool_deprecated.Daemon.Slots.{
  slot_of-set, assign_connection-TakesAt, remove_connection-slots,
}
use prime_pool_deprecated.Lobby.{slot_at, session_at, put_slot, with_slot}

-- One slot is written, the others stay.
abbrev pub WrittenAt : ℕ → ℕ → Option Session → List Handle → List Handle → Type 0
WrittenAt i j x handles handles' =
    (p q : ℕ)
    → session_at p q handles'
      ≡ (if i == p then (if j == q then x else session_at p q handles) else session_at p q handles)

-- The number of connections of a handle is that of its slots in use.
abbrev pub IsCounted : Handle → Type 0
IsCounted h = h.total_connections ≡ u32 (occupied h.connections)

session_at-set :
    (handles : List Handle) (i : ℕ) (h h' : Handle) (p q : ℕ)
    → get_elem? handles i ≡ some h
    → session_at p q (set handles i h')
      ≡ (if i == p then slot_of (get_elem? h'.connections q) else session_at p q handles)
session_at-set [] i h h' p q e = cc
session_at-set (k ∷ handles) zero h h' zero q e = refl
session_at-set (k ∷ handles) zero h h' (suc p) q e = ground arith
session_at-set (k ∷ handles) (suc i) h h' zero q e = ground arith
session_at-set (k ∷ handles) (suc i) h h' (suc p) q e =
    ground (arith, session_at-set handles i h h' p q e)

session_at-here :
    (handles : List Handle) (i : ℕ) (h : Handle) (p q : ℕ)
    → get_elem? handles i ≡ some h
    → (i == p) ≡ true
    → session_at p q handles ≡ slot_of (get_elem? h.connections q)
session_at-here [] i h p q e same = cc
session_at-here (k ∷ handles) zero h zero q e same = ground arith
session_at-here (k ∷ handles) zero h (suc p) q e same = ground arith
session_at-here (k ∷ handles) (suc i) h zero q e same = ground arith
session_at-here (k ∷ handles) (suc i) h (suc p) q e same =
    session_at-here handles i h p q e (ground (arith, same))

-- A handle one of whose slots is written.
pub set-WrittenAt :
    (handles : List Handle) (i j : ℕ) (h h' : Handle) (x : Option Session)
    → get_elem? handles i ≡ some h
    → ((q : ℕ)
        → slot_of (get_elem? h'.connections q)
          ≡ (if j == q then x else slot_of (get_elem? h.connections q)))
    → WrittenAt i j x handles (set handles i h')
set-WrittenAt handles i j h h' x e written p q = elim (Bool-cases (i == p)) [
  | inl same ↦
      session_at-set handles i h h' p q e
      ∙ rw (same, written q, session_at-here handles i h p q e same) refl
  | inr other ↦ session_at-set handles i h h' p q e ∙ rw other refl
]

pub assign_connection-IsCounted :
    (m : Session) (h : Handle) → IsCounted h → IsCounted (assign_connection m h).1
assign_connection-IsCounted m h c =
    (assign_connection-TakesAt m h).1 ∙ ground (arith, c, (assign_connection-TakesAt m h).0.2)

pub remove_connection-IsCounted :
    (h : Handle) (j : ℕ) (m : Session)
    → slot_of (get_elem? h.connections j) ≡ some m
    → IsCounted h
    → IsCounted (remove_connection j h)
remove_connection-IsCounted h j m e c =
    (remove_connection-slots h j m e).2 ∙ ground (arith, c, (remove_connection-slots h j m e).1)

occupied-set :
    (slots : List (Option Session)) (j : ℕ) (m n : Session)
    → slot_of (get_elem? slots j) ≡ some m
    → occupied (set slots j (some n)) ≡ occupied slots
occupied-set [] j m n e = refl
occupied-set (none ∷ slots) zero m n e = cc
occupied-set (some k ∷ slots) zero m n e = refl
occupied-set (none ∷ slots) (suc j) m n e = occupied-set slots j m n e
occupied-set (some k ∷ slots) (suc j) m n e = ap suc (occupied-set slots j m n e)

slot-there :
    (slots : List (Option Session)) (j : ℕ) (m : Session)
    → slot_of (get_elem? slots j) ≡ some m
    → get_elem? slots j ≡ some (some m)
slot-there [] j m e = cc
slot-there (x ∷ slots) zero m e = ap {B = Option (Option Session)} some e
slot-there (x ∷ slots) (suc j) m e = slot-there slots j m e

-- A connection in its slot replaced by another.
pub with_slot-WrittenAt :
    (i j : ℕ) (m n : Session) (handles : List Handle)
    → session_at i j handles ≡ some m
    → WrittenAt i j (some n) handles (with_slot i j (some n) handles)
      × (All IsCounted handles → All IsCounted (with_slot i j (some n) handles))
with_slot-WrittenAt i j m n handles = by_handle (get_elem? handles i) refl
  where
    by_handle :
        (r : Option Handle)
        → get_elem? handles i ≡ r
        → slot_at j r ≡ some m
        → WrittenAt i j (some n) handles (put_slot i j (some n) handles r)
          × (All IsCounted handles → All IsCounted (put_slot i j (some n) handles r))
    by_handle none here e = cc
    by_handle (some h) here e = (
      set-WrittenAt handles i j h _ (some n) here
          (λ q. slot_of-set h.connections j q (some n) (some m) (slot-there h.connections j m e)),
      λ all. All-set IsCounted handles i _ all (
          All-get IsCounted handles i h all here
          ∙ ap u32 (sym (occupied-set h.connections j m n e))),
    )
