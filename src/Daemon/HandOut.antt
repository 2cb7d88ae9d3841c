-- ===== src/Daemon/HandOut.antt =====
-- Blocks for the connections, and the slots of a handle.
use prime_pool_deprecated.Common.{
  ℕ, zero, suc, ◌+◌, ◌-◌, ◌^◌, ◌<◌, ◌≡◌, ◌≢◌, ◌⊎◌, ltb, All, take, Bool-cases, inl, inr, refl, ap,
  ◌∙◌, List, [], ◌∷◌, ◌++◌, Option, none, some, arith, length, set, get_elem?, Option-cases,
}
use prime_pool_deprecated.Bytes.{u32, IsU32}
use prime_pool_deprecated.Session.{Session}
use prime_pool_deprecated.Session.Events.{add_block}
use prime_pool_deprecated.Daemon.{
  Handle, find_connection, assign_at, assign_connection, hand_out, request_blocks,
}

-- The slot has no connection that waits for a block.
abbrev pub IsIdle : Option Session → Type 0
IsIdle none = Unit
IsIdle (some m) = m.blocks_waiting ≡ 0

-- The number of blocks that a connection waits for is an unsigned int.
abbrev pub IsNumbered : Option Session → Type 0
IsNumbered none = Unit
IsNumbered (some m) = IsU32 m.blocks_waiting

-- A connection that has been given a block.
abbrev pub given : ℕ → Session → Session
given pointer m = record m {
  new_blocks = pointer ∷ m.new_blocks;
  blocks_waiting = m.blocks_waiting - 1;
}

-- No connection waits and all stay; or the first that does has the block on its stack, and waits
-- for one less.
abbrev pub HandsOut : ℕ → List (Option Session) → List (Option Session) → Type 0
HandsOut pointer slots slots' =
    (All IsIdle slots × (slots' ≡ slots))
    ⊎ ((i : ℕ) × (m : Session) × (get_elem? slots i ≡ some (some m))
        × (0 < m.blocks_waiting)
        × All IsIdle (take i slots)
        × (slots' ≡ set slots i (some (given pointer m))))

HandsOut-later :
    (pointer : ℕ) (slot : Option Session) (slots slots' : List (Option Session))
    → IsIdle slot
    → HandsOut pointer slots slots'
    → HandsOut pointer (slot ∷ slots) (slot ∷ slots')
HandsOut-later pointer slot slots slots' served (inl (all, same)) =
    inl ((served, all), ap (λ (s : List (Option Session)). slot ∷ s) same)
HandsOut-later pointer slot slots slots' served (inr (i, m, at, waits, before, e)) =
    inr (suc i, m, at, waits, (served, before), ap (λ (s : List (Option Session)). slot ∷ s) e)

-- For numbers of 32 bits of blocks that connections wait for, a block that arrives goes to the
-- first connection that waits for one: it is put on top of the stack of that connection, which
-- waits for one less, and all others stay; or no connection waits, and all stay.
pub hand_out_lem :
    (pointer : ℕ) (slots : List (Option Session))
    → All IsNumbered slots
    → HandsOut pointer slots (hand_out pointer slots)
unfolding hand_out add_block
hand_out_lem pointer [] h = inl (tt, refl)
hand_out_lem pointer (none ∷ slots) (h, hs) =
    HandsOut-later pointer none slots (hand_out pointer slots) tt (hand_out_lem pointer slots hs)
hand_out_lem pointer (some m ∷ slots) (h, hs) = elim (Bool-cases (ltb 0 m.blocks_waiting)) [
  | inl waits ↦ rw waits (
      inr (
        0,
        m,
        refl,
        ground (arith, waits),
        tt,
        ap
            (λ (n : ℕ).
              some (record m { new_blocks = pointer ∷ m.new_blocks; blocks_waiting = n }) ∷ slots)
            (ground (arith, waits, h)),
      ))
  | inr served ↦ rw served (
      HandsOut-later pointer (some m) slots (hand_out pointer slots) (ground (arith, served))
        (hand_out_lem pointer slots hs))
]

-- The requests are all counted.
pub request_blocks-count : (n : ℕ) (m : Session) → (request_blocks n m).1 ≡ n
unfolding request_blocks
request_blocks-count zero m = refl
request_blocks-count (suc n) m = ap suc (request_blocks-count n _)

-- The requests of a connection are all sent on, as many as there were, and without wrap-around
-- each is a block that it then waits for.
pub request_blocks_lem :
    (requests : ℕ) (m : Session)
    → m.block_requests ≡ requests
    → m.blocks_waiting + requests < 2 ^ 32
    → request_blocks requests m
      ≡ (record m { block_requests = 0; blocks_waiting = m.blocks_waiting + requests }, requests)
unfolding request_blocks
request_blocks_lem zero m e h = ground arith
request_blocks_lem (suc requests) m e h =
    let n = record m { block_requests = requests; blocks_waiting = u32 (m.blocks_waiting + 1) } in
    ap (λ (r : Session × ℕ). (r.0, suc r.1)) (request_blocks_lem requests n refl (omega arith))
    ∙ ap {B = Session × ℕ}
        (λ (k : ℕ). (record m { block_requests = 0; blocks_waiting = k }, suc requests))
        (omega arith)

-- The slot that `FindConnection` finds is free.
pub find_connection-free :
    (slots : List (Option Session)) (i : ℕ)
    → find_connection slots ≡ some i
    → get_elem? slots i ≡ some none
unfolding find_connection
find_connection-free [] i e = ground arith
find_connection-free (none ∷ slots) zero e = refl
find_connection-free (none ∷ slots) (suc i) e = ground arith
find_connection-free (some m ∷ slots) i e = elim (Option-cases (find_connection slots)) [
  | inl h ↦ ground (arith, e, h)
  | inr (k, h) ↦ ground (arith, e, h, find_connection-free slots k h)
]

get_elem?-set_free :
    (slots : List (Option Session)) (i j : ℕ) (m n : Session)
    → get_elem? slots i ≡ some none
    → (get_elem? (set slots i (some m)) i ≡ some (some m))
      × ((get_elem? slots j ≡ some (some n)) → get_elem? (set slots i (some m)) j ≡ some (some n))
get_elem?-set_free [] i j m n e = ground arith
get_elem?-set_free (x ∷ slots) zero zero m n e = ground arith
get_elem?-set_free (x ∷ slots) zero (suc j) m n e = ground arith
get_elem?-set_free (x ∷ slots) (suc i) zero m n e =
    ground (arith, get_elem?-set_free slots i zero m n)
get_elem?-set_free (x ∷ slots) (suc i) (suc j) m n e = get_elem?-set_free slots i j m n e

appended :
    (slots : List (Option Session)) (j : ℕ) (n : Session)
    → (get_elem? (slots ++ none ∷ []) (length slots) ≡ some none)
      × ((get_elem? slots j ≡ some (some n)) → get_elem? (slots ++ none ∷ []) j ≡ some (some n))
appended [] j n = ground arith
appended (x ∷ slots) zero n = ground (arith, appended slots zero n)
appended (x ∷ slots) (suc j) n = appended slots j n

-- A new connection of a handle stands in the slot that is returned, and a connection that was in
-- a slot is in that slot still, which is another one.
pub assign_connection_lem :
    (m n : Session) (j : ℕ) (h : Handle)
    → get_elem? h.connections j ≡ some (some n)
    → let (i, h') = assign_connection m h in
      (get_elem? h'.connections i ≡ some (some m))
      × (get_elem? h'.connections j ≡ some (some n))
      × (i ≢ j)
unfolding assign_connection assign_at
assign_connection_lem m n j h there = elim (Option-cases (find_connection h.connections)) [
  | inl e ↦ ground (
    arith,
    e,
    there,
    appended h.connections j n,
    beyond h.connections,
    get_elem?-set_free (h.connections ++ none ∷ []) (length h.connections) j m n,
  )
  | inr (i, e) ↦ ground (
    arith,
    e,
    there,
    find_connection-free h.connections i e,
    taken i,
    get_elem?-set_free h.connections i j m n,
  )
]
  where
    beyond : (slots : List (Option Session)) → get_elem? slots (length slots) ≡ none
    beyond [] = refl
    beyond (x ∷ slots) = beyond slots

    taken : (i : ℕ) → i ≡ j → get_elem? h.connections i ≡ some (some n)
    taken i e = ap (get_elem? h.connections) e ∙ there
