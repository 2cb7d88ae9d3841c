-- ===== src/Threads/Handles/Serve.antt =====
-- What a daemon handle (src/LLP/daemon.cpp) does for its connections when no flag is set.
use prime_pool_deprecated.Common.{
  ℕ, suc, List, [], ◌∷◌, ◌++◌, Option, none, some, ◌≡◌, ◌⊎◌, inl, inr, refl, sym, ap, ◌∙◌, subst,
  get_elem?, All, take, drop, replicate, append_assoc,
}
use prime_pool_deprecated.Common.Order.{ℕ_order}
use prime_pool_deprecated.Common.StdMap.{StdMap, lookup}
use prime_pool_deprecated.Packet.{Packet}
use prime_pool_deprecated.Core.{Core}
use prime_pool_deprecated.Session.{MiningBlock, Policy, Session}
use prime_pool_deprecated.Daemon.{request_blocks}
use prime_pool_deprecated.Daemon.HandOut.{request_blocks-count}
use prime_pool_deprecated.Threads.{get_block, request}
use prime_pool_deprecated.Threads.Handles.{submit, serve}

-- The slot has no connection that has found a block.
abbrev pub IsUnfound : Option Session → Type 0
IsUnfound none = Unit
IsUnfound (some m) = m.submission ≡ none

-- The requests of the connections, in their order: each asks the server for a block.
abbrev pub requests_of : List (Option Session) → List Packet
requests_of [] = []
requests_of (none ∷ slots) = requests_of slots
requests_of (some m ∷ slots) = replicate m.block_requests (request get_block) ++ requests_of slots

-- The connections once their requests have been sent.
abbrev pub requested : List (Option Session) → List (Option Session)
requested [] = []
requested (none ∷ slots) = none ∷ requested slots
requested (some m ∷ slots) = some (request_blocks m.block_requests m).0 ∷ requested slots

module _ (policy : Policy) where
  -- No connection has found a block; or the one in the slot `i`, `m`, is the first that has, and
  -- its block `b` is submitted behind the requests of those before it.
  abbrev pub Served :
      StdMap ℕ MiningBlock
      → Core
      → List (Option Session)
      → List (Option Session)
      → Core
      → List Packet
      → Type 0
  Served heap c slots slots' c' sent =
      (All IsUnfound slots × (slots' ≡ requested slots) × (c' ≡ c) × (sent ≡ requests_of slots))
      ⊎ ((m : Session) × (pointer : ℕ) × (b : MiningBlock) × (i : ℕ) × (get_elem? slots i
            ≡ some (some m))
          × (m.submission ≡ some pointer)
          × (lookup pointer heap ≡ some b)
          × All IsUnfound (take i slots)
          × (slots'
              ≡ requested (take i slots)
                ++ some (record m { submission = none }) ∷ drop (suc i) slots)
          × (c' ≡ (submit policy m b c).0)
          × (sent ≡ requests_of (take i slots) ++ (submit policy m b c).1))

  abbrev IsServed :
      StdMap ℕ MiningBlock
      → Core
      → List (Option Session)
      → Option (List (Option Session) × Core × List Packet)
      → Type 0
  IsServed heap c slots none = Unit
  IsServed heap c slots (some (slots', c', sent)) = Served heap c slots slots' c' sent

  -- A free slot in front, or one whose connection has found no block.
  Served-free :
      (heap : StdMap ℕ MiningBlock) (c c' : Core) (slots slots' : List (Option Session))
      (sent : List Packet)
      → Served heap c slots slots' c' sent
      → Served heap c (none ∷ slots) (none ∷ slots') c' sent
  Served-free heap c c' slots slots' sent (inl (quiet, same, kept, asked)) =
      inl ((tt, quiet), ap (λ (s : List (Option Session)). none ∷ s) same, kept, asked)
  Served-free heap c c' slots slots' sent
        (inr (m, pointer, b, i, at, own, live, quiet, same, run, e)) =
      inr (
        m,
        pointer,
        b,
        suc i,
        at,
        own,
        live,
        (tt, quiet),
        ap (λ (s : List (Option Session)). none ∷ s) same,
        run,
        e,
      )

  Served-asked :
      (heap : StdMap ℕ MiningBlock) (c c' : Core) (n : Session)
      (slots slots' : List (Option Session)) (sent : List Packet)
      → n.submission ≡ none
      → Served heap c slots slots' c' sent
      → Served heap c
          (some n ∷ slots)
          (some (request_blocks n.block_requests n).0 ∷ slots')
          c'
          (replicate n.block_requests (request get_block) ++ sent)
  Served-asked heap c c' n slots slots' sent unfound (inl (quiet, same, kept, asked)) = inl (
    (unfound, quiet),
    ap (λ (s : List (Option Session)). some (request_blocks n.block_requests n).0 ∷ s) same,
    kept,
    ap (λ (s : List Packet). replicate n.block_requests (request get_block) ++ s) asked,
  )
  Served-asked heap c c' n slots slots' sent unfound
        (inr (m, pointer, b, i, at, own, live, quiet, same, run, e)) =
      inr (
        m,
        pointer,
        b,
        suc i,
        at,
        own,
        live,
        (unfound, quiet),
        ap (λ (s : List (Option Session)). some (request_blocks n.block_requests n).0 ∷ s) same,
        run,
        ap (λ (s : List Packet). replicate n.block_requests (request get_block) ++ s) e
            ∙ sym (
                append_assoc (replicate n.block_requests (request get_block))
                  (requests_of (take i slots)) _),
      )

  serve-IsServed :
      (heap : StdMap ℕ MiningBlock) (c : Core) (slots : List (Option Session))
      → IsServed heap c slots (serve policy heap c slots)
  unfolding serve
  serve-IsServed heap c [] = inl (tt, refl, refl, refl)
  serve-IsServed heap c (none ∷ slots) =
      skip (serve policy heap c slots) (serve-IsServed heap c slots)
    where
      skip :
          (r : Option (List (Option Session) × Core × List Packet))
          → IsServed heap c slots r
          → IsServed heap c
              (none ∷ slots)
              (elim r [ none ↦ none | some (slots', c', sent) ↦ some (none ∷ slots', c', sent) ])
      skip none k = tt
      skip (some (slots', c', sent)) k = Served-free heap c c' slots slots' sent k
  serve-IsServed heap c (some m ∷ slots) =
      by_submission m.submission refl (serve-IsServed heap c slots)
    where
      asked : List Packet
      asked = replicate (request_blocks m.block_requests m).1 (request get_block)

      skip :
          (r : Option (List (Option Session) × Core × List Packet))
          → m.submission ≡ none
          → IsServed heap c slots r
          → IsServed heap c (some m ∷ slots) (elim r [
            | none ↦ none
            | some (slots', c', sent) ↦
                some (some (request_blocks m.block_requests m).0 ∷ slots', c', asked ++ sent)
          ])
      skip none own k = tt
      skip (some (slots', c', sent)) own k =
          rw (request_blocks-count m.block_requests m)
            (Served-asked heap c c' m slots slots' sent own k)

      by_block :
          (pointer : ℕ) (found : Option MiningBlock)
          → m.submission ≡ some pointer
          → lookup pointer heap ≡ found
          → IsServed heap c (some m ∷ slots) (elim found [
            | none ↦ none
            | some b ↦ some (
              some (record m { submission = none }) ∷ slots,
              (submit policy m b c).0,
              (submit policy m b c).1,
            )
          ])
      by_block pointer none own live = tt
      by_block pointer (some b) own live =
          inr (m, pointer, b, 0, refl, own, live, tt, refl, refl, refl)

      by_submission :
          (s : Option ℕ)
          → m.submission ≡ s
          → IsServed heap c slots (serve policy heap c slots)
          → IsServed heap c (some m ∷ slots) (elim s [
            | none ↦ (elim (serve policy heap c slots) [
              | none ↦ none
              | some (slots', c', sent) ↦
                  some (some (request_blocks m.block_requests m).0 ∷ slots', c', asked ++ sent)
            ])
            | some pointer ↦ (elim (lookup pointer heap) [
              | none ↦ none
              | some b ↦ some (
                some (record m { submission = none }) ∷ slots,
                (submit policy m b c).0,
                (submit policy m b c).1,
              )
            ])
          ])
      by_submission none own k = skip (serve policy heap c slots) own k
      by_submission (some pointer) own k = by_block pointer (lookup pointer heap) own refl

  -- What a handle does for its connections when it reads no dangling pointer: either no
  -- connection has found a block, and then the shared state stays, every connection has its
  -- requests sent, and those are all that is sent; or one is the first that has found a block,
  -- and then the block, which is live, is handed to submit, whose packets follow the requests of
  -- the connections before it, its submission is cleared, and the connections behind it stay as
  -- they are.
  pub serve-Served :
      (heap : StdMap ℕ MiningBlock) (c c' : Core) (slots slots' : List (Option Session))
      (sent : List Packet)
      → serve policy heap c slots ≡ some (slots', c', sent)
      → Served heap c slots slots' c' sent
  serve-Served heap c c' slots slots' sent e =
      subst (IsServed heap c slots) e (serve-IsServed heap c slots)
