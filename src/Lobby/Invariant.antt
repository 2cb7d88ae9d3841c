-- ===== src/Lobby/Invariant.antt =====
-- The runs of a lobby (src/LLP/pool.cpp, src/LLP/daemon.cpp, src/statscollector.cpp), and what holds in
-- all of them.
use prime_pool_deprecated.Common.{
  ℕ, ◌≡◌, refl, ap, subst, ◌∙◌, inl, inr, false, List, [], Option, none, some, if◌then◌else◌, set,
  get_elem?, All, All-get, All-set, Bool-cases,
}
use prime_pool_deprecated.Common.Order.{bytes_order}
use prime_pool_deprecated.Common.StdMap.{same_key, same_key→eq}
use prime_pool_deprecated.Coinbase.{Address}
use prime_pool_deprecated.Session.{Session}
use prime_pool_deprecated.Daemon.{Handle, slot_of, assign_connection, remove_connection}
use prime_pool_deprecated.Daemon.Slots.{assign_connection-TakesAt, remove_connection-slots}
use prime_pool_deprecated.Stats.{Rates, dec_connection_count}
use prime_pool_deprecated.Lobby.{
  Lobby, guid, find_daemon, slot_at, session_at, with_slot, connect, sign_in, disconnect,
}
use prime_pool_deprecated.Lobby.Known.{
  IsKnown, join-IsKnown, sign_in-IsKnown, leave-IsKnown, part-IsKnown,
}
use prime_pool_deprecated.Lobby.Slots.{
  WrittenAt, IsCounted, set-WrittenAt, with_slot-WrittenAt, assign_connection-IsCounted,
  remove_connection-IsCounted,
}

module _ (rt : Rates) where
  -- A connection comes with no address, signs in under one that is not empty, and goes.
  pub data Step (l : Lobby rt) (l' : Lobby rt) : Type 0 where
    joins : (m : Session) (i j : ℕ) → m.address ≡ [] → connect rt m l ≡ some (i, j, l') → Step l l'
    signs_in :
        (i j : ℕ) (m : Session) (a : Address)
        → session_at i j l.handles ≡ some m
        → m.address ≡ []
        → same_key a [] ≡ false
        → sign_in rt i j a l ≡ some l'
        → Step l l'
    leaves : (now i j : ℕ) → disconnect rt now i j l ≡ some l' → Step l l'

  pub data Reach (l : Lobby rt) : Lobby rt → Type 0 where
    here : Reach l l
    next : {l1 l2 : Lobby rt} → Reach l l1 → Step l1 l2 → Reach l l2

  pub record IsLobby (l : Lobby rt) : Type 0 where
    pub counted : All IsCounted l.handles
    pub known : IsKnown rt l.handles l.stats

  abbrev Joined : Option (ℕ × ℕ × Lobby rt) → Type 0
  Joined none = Unit
  Joined (some (i, j, l')) = IsLobby l'

  abbrev Changed : Option (Lobby rt) → Type 0
  Changed none = Unit
  Changed (some l') = IsLobby l'

  connect-Joined :
      (m : Session) (l : Lobby rt) → m.address ≡ [] → IsLobby l → Joined (connect rt m l)
  unfolding connect
  connect-Joined m l e w = by_handle (get_elem? l.handles (find_daemon l.handles)) refl
    where
      i : ℕ
      i = find_daemon l.handles

      by_handle :
          (r : Option Handle)
          → get_elem? l.handles i ≡ r
          → Joined (elim r [
            | none ↦ none
            | some h ↦
                let (j, h') = assign_connection m h in
                some (i, j, record l { handles = set l.handles i h' })
          ])
      by_handle none found = tt
      by_handle (some h) found = record {
        counted =
            All-set IsCounted l.handles i (assign_connection m h).1 w.counted
              (assign_connection-IsCounted m h (All-get IsCounted l.handles i h w.counted found));
        known =
            join-IsKnown rt l.handles (set l.handles i (assign_connection m h).1) l.stats i
              (assign_connection m h).0 m e
              (ap (slot_at (assign_connection m h).0) found ∙ (assign_connection-TakesAt m h).0.1)
              (set-WrittenAt l.handles i (assign_connection m h).0 h (assign_connection m h).1
                (some m) found (assign_connection-TakesAt m h).0.0)
              w.known;
      }

  sign_in-Changed :
      (i j : ℕ) (m : Session) (a : Address) (l : Lobby rt)
      → session_at i j l.handles ≡ some m
      → m.address ≡ []
      → IsLobby l
      → Changed (sign_in rt i j a l)
  unfolding sign_in
  sign_in-Changed i j m a l present e w =
      rw (Changed, present)
        (record {
          counted =
              (with_slot-WrittenAt i j m (record m { address = a }) l.handles present).1 w.counted;
          known =
              sign_in-IsKnown rt l.handles
                (with_slot i j (some (record m { address = a })) l.handles) l.stats i j m a e
                present (with_slot-WrittenAt i j m (record m { address = a }) l.handles present).0
                w.known;
        })

  leave-IsLobby :
      (now i j : ℕ) (h : Handle) (m : Session) (l : Lobby rt)
      → get_elem? l.handles i ≡ some h
      → slot_of (get_elem? h.connections j) ≡ some m
      → IsLobby l
      → IsLobby (record {
        handles = set l.handles i (remove_connection j h);
        stats =
            if same_key m.address []
            then l.stats
            else dec_connection_count rt now m.address (guid i j) l.stats;
      })
  leave-IsLobby now i j h m l found present w = elim (Bool-cases (same_key m.address [])) [
    | inl unnamed ↦ rw unnamed (record {
      counted = counts;
      known =
          part-IsKnown rt l.handles handles' l.stats i j m (same_key→eq m.address [] unnamed) there
            written w.known;
    })
    | inr named ↦ rw named (record {
      counted = counts;
      known = leave-IsKnown rt l.handles handles' l.stats i j now m there written w.known;
    })
  ]
    where
      handles' : List Handle
      handles' = set l.handles i (remove_connection j h)

      there : session_at i j l.handles ≡ some m
      there = ap (slot_at j) found ∙ present

      written : WrittenAt i j none l.handles handles'
      written =
          set-WrittenAt l.handles i j h (remove_connection j h) none found
            (remove_connection-slots h j m present).0

      counts : All IsCounted handles'
      counts = All-set IsCounted l.handles i (remove_connection j h) w.counted (
          remove_connection-IsCounted h j m present
            (All-get IsCounted l.handles i h w.counted found))

  disconnect-Changed : (now i j : ℕ) (l : Lobby rt) → IsLobby l → Changed (disconnect rt now i j l)
  unfolding disconnect
  disconnect-Changed now i j l w = by_handle (get_elem? l.handles i) refl
    where
      gone : Handle → Session → Lobby rt
      gone h m = record {
        handles = set l.handles i (remove_connection j h);
        stats =
            if same_key m.address []
            then l.stats
            else dec_connection_count rt now m.address (guid i j) l.stats;
      }

      by_slot :
          (h : Handle) (r : Option Session)
          → get_elem? l.handles i ≡ some h
          → slot_of (get_elem? h.connections j) ≡ r
          → Changed (elim r [ none ↦ none | some m ↦ some (gone h m) ])
      by_slot h none found present = tt
      by_slot h (some m) found present = leave-IsLobby now i j h m l found present w

      by_handle :
          (r : Option Handle)
          → get_elem? l.handles i ≡ r
          → Changed (elim r [
            | none ↦ none
            | some h ↦ (elim (slot_of (get_elem? h.connections j)) [
              | none ↦ none
              | some m ↦ some (gone h m)
            ])
          ])
      by_handle none found = tt
      by_handle (some h) found = by_slot h (slot_of (get_elem? h.connections j)) found refl

  Step-IsLobby : {l l' : Lobby rt} → Step l l' → IsLobby l → IsLobby l'
  Step-IsLobby {l} (joins m i j unnamed e) w = subst Joined e (connect-Joined m l unnamed w)
  Step-IsLobby {l} (signs_in i j m a present unnamed named e) w =
      subst Changed e (sign_in-Changed i j m a l present unnamed w)
  Step-IsLobby {l} (leaves now i j e) w = subst Changed e (disconnect-Changed now i j l w)

  -- In every run of connections that come without an address, sign in once under an address that
  -- is not empty, and go, the count of each handle stays that of its slots in use modulo 2 ^ 32,
  -- and the statistics of an address stay to know exactly the GUIDs of the connections that are
  -- signed in under it.
  pub Reach-IsLobby : {l l' : Lobby rt} → Reach l l' → IsLobby l → IsLobby l'
  Reach-IsLobby here w = w
  Reach-IsLobby (next run step) w = Step-IsLobby step (Reach-IsLobby run w)
