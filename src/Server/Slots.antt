-- ===== src/Server/Slots.antt =====
-- The slots of a data thread and the number of its connections.
use prime_pool_deprecated.Common.{
  ℕ, zero, suc, ◌+◌, ◌-◌, ◌^◌, ◌<◌, ◌≤◌, ◌≡◌, refl, ap, inl, inr, Bool, true, false, List, [], ◌∷◌,
  Option, none, some, arith, if◌then◌else◌, ◌==◌, length, set, get_elem?, Bool-cases, length-set,
}
use prime_pool_deprecated.Server.{
  Protocol, DataThread, find_slot, make_slot, add_connection, remove_connection, visit, count_visit,
  pass, thread_pass,
}

-- The slots in use.
abbrev pub occupied {ℓ} : {A : Type ℓ} → List (Option A) → ℕ
occupied [] = 0
occupied (none ∷ slots) = occupied slots
occupied (some c ∷ slots) = suc (occupied slots)

-- `nConnections` counts the slots in use, and there are fewer than 2 ^ 32.
pub record IsThread {ℓ} {C : Type ℓ} (t : DataThread C) : Type 0 where
  pub counted : t.count ≡ occupied t.connections
  pub fits : length t.connections < 2 ^ 32 - 1

pub occupied-le-length {ℓ} : {A : Type ℓ} (slots : List (Option A)) → occupied slots ≤ length slots
occupied-le-length [] = omega arith
occupied-le-length (none ∷ slots) = omega (arith, occupied-le-length slots)
occupied-le-length (some c ∷ slots) = omega (arith, occupied-le-length slots)

-- A connection goes into a free slot, the first one or a new one.
pub find_slot-free {ℓ} :
    {A : Type ℓ} (slots : List (Option A)) (c : A)
    → let i = find_slot slots in
      let slots' = set (make_slot i slots) i (some c) in
      (get_elem? (make_slot i slots) i ≡ some none)
      × (get_elem? slots' i ≡ some (some c))
      × (occupied slots' ≡ suc (occupied slots))
      × (length slots' ≤ suc (length slots))
unfolding find_slot make_slot
find_slot-free [] c = (refl, refl, refl, omega arith)
find_slot-free (none ∷ slots) c = ground arith
find_slot-free (some d ∷ slots) c = elim (Bool-cases (find_slot slots == length slots)) [
  | inl e ↦ ground (arith, find_slot-free slots c, e)
  | inr e ↦ ground (arith, find_slot-free slots c, e)
]

pub occupied_removed {ℓ} :
    {A : Type ℓ} (slots : List (Option A)) (i : ℕ) (c : A)
    → get_elem? slots i ≡ some (some c)
    → suc (occupied (set slots i none)) ≡ occupied slots
occupied_removed [] i c e = ground arith
occupied_removed (none ∷ slots) zero c e = ground arith
occupied_removed (some d ∷ slots) zero c e = ground arith
occupied_removed (none ∷ slots) (suc i) c e = occupied_removed slots i c e
occupied_removed (some d ∷ slots) (suc i) c e = ap suc (occupied_removed slots i c e)

-- On a well-formed data thread, RemoveConnection of a slot in use frees the slot, lowers the
-- number of connections by one and keeps it equal to the number of slots in use.
pub remove_connection-IsThread {ℓ} :
    {C : Type ℓ} (t : DataThread C) (i : ℕ) (c : C)
    → IsThread t
    → get_elem? t.connections i ≡ some (some c)
    → IsThread (remove_connection i t)
      × (get_elem? (remove_connection i t).connections i ≡ some none)
      × (suc (remove_connection i t).count ≡ t.count)
unfolding remove_connection
remove_connection-IsThread {C = C} t i c v e = ground (
  arith,
  occupied_removed t.connections i c e,
  occupied-le-length t.connections,
  length-set t.connections i none,
  v.counted,
  v.fits,
  freed t.connections i e,
)
  where
    freed :
        (slots : List (Option C)) (j : ℕ)
        → get_elem? slots j ≡ some (some c)
        → get_elem? (set slots j none) j ≡ some none
    freed [] j h = ground arith
    freed (x ∷ slots) zero h = refl
    freed (x ∷ slots) (suc j) h = freed slots j h

module _ {C W : Type 0} (p : Protocol C W) where
  -- On a well-formed data thread with fewer than 2 ^ 32 - 2 slots, AddConnection keeps the
  -- number of connections equal to the number of slots in use and raises it by one.
  pub add_connection-IsThread :
      (c : C) (t : DataThread C) (w : W)
      → IsThread t
      → length t.connections < 2 ^ 32 - 2
      → IsThread (add_connection p c t w).0 × ((add_connection p c t w).0.count ≡ suc t.count)
  unfolding add_connection
  add_connection-IsThread c t w v h =
      let c' = (p.connect c (if t.ddos then p.count_connection c w else w)).0 in
      ground (arith, find_slot-free t.connections c', occupied-le-length t.connections, v.counted)

  -- The counter after one visit, where `k` counts the slots behind it.
  count_visit_lem :
      (slot : Option C) (counted : Bool) (x : ℕ × ℕ) (k extra : ℕ)
      → x.0 ≡ suc k + extra
      → x.0 < 2 ^ 32
      → ((count_visit p slot counted x).0 ≡ k + (occupied (slot ∷ []) + extra))
        × ((count_visit p slot counted x).0 < 2 ^ 32)
  unfolding count_visit
  count_visit_lem none counted (n, requests) k extra e h = omega arith
  count_visit_lem (some c) counted (n, requests) k extra e h = omega arith

  occupied-cons :
      (slot : Option C) (slots : List (Option C))
      → occupied (slot ∷ slots) ≡ occupied (slot ∷ []) + occupied slots
  occupied-cons none slots = omega arith
  occupied-cons (some c) slots = omega arith

  -- The counter follows the slots through a pass.
  pass-counted :
      (ddos : Bool) (slots : List (Option C)) (x : ℕ × ℕ) (extra : ℕ) (w : W)
      → x.0 ≡ occupied slots + extra
      → x.0 < 2 ^ 32
      → let (slots', x', w') = pass p ddos slots x w in
        (x'.0 ≡ occupied slots' + extra) × (length slots' ≡ length slots)
  unfolding pass
  pass-counted ddos [] x extra w e h = (e, refl)
  pass-counted ddos (none ∷ slots) x extra w e h =
      let (p1, p2) = pass-counted ddos slots x extra w e h in (p1, ap suc p2)
  pass-counted ddos (some c ∷ slots) x extra w e h =
      let (slot, w1, counted) = visit p ddos c w in
      let (n1, n2) = count_visit_lem slot counted x (occupied slots) extra e h in
      let (p1, p2) =
        pass-counted ddos slots (count_visit p slot counted x) (occupied (slot ∷ []) + extra) w1 n1
          n2 in
      (
        omega
            (arith, p1, occupied-cons slot (pass p ddos slots (count_visit p slot counted x) w1).0),
        ap suc p2,
      )

  -- A pass of the data thread over its slots keeps the number of connections equal to the number
  -- of slots in use, and keeps the number of slots.
  pub thread_pass-IsThread :
      (t : DataThread C) (w : W)
      → IsThread t
      → IsThread (thread_pass p t w).0
        × (length (thread_pass p t w).0.connections ≡ length t.connections)
  unfolding thread_pass
  thread_pass-IsThread t w v = ground (
    arith,
    v.counted,
    v.fits,
    occupied-le-length t.connections,
    pass-counted t.ddos t.connections (t.count, t.requests) 0 w,
  )

  -- With DDOS protection on, a live connection whose filter is banned once its scores have been
  -- compared is removed, without another packet read or processed.
  pub visit_banned :
      (c : C) (w : W)
      → p.failed c ≡ false
      → p.connected c ≡ true
      → let w1 = if p.over_limit c w then p.ban c w else w in
        p.banned c w1 ≡ true → visit p true c w ≡ (none, p.disconnect c w1, false)
  unfolding visit
  visit_banned c w nf co b = rw (nf, co) (rw b refl)
