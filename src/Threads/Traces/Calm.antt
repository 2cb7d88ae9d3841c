-- ===== src/Threads/Traces/Calm.antt =====
-- What holds while a block waits for the server's answer, and the rounds of the orphan thread of
-- src/core.cpp in that time.
use prime_pool_deprecated.Common.{
  ℕ, Bool, true, false, List, [], Option, none, some, ◌||◌, ◌==◌, ◌≡◌, refl, ◌∙◌, inl, inr, All,
  Bool-cases,
}
use prime_pool_deprecated.Common.Order.{bytes_order, ℕ_order}
use prime_pool_deprecated.Packet.{Packet}
use prime_pool_deprecated.Uint.{set_bytes}
use prime_pool_deprecated.Database.{blocks, get_record}
use prime_pool_deprecated.Core.{Core}
use prime_pool_deprecated.Core.Orphan.{refund_read, refund_payouts}
use prime_pool_deprecated.Session.{Difficulty}
use prime_pool_deprecated.Daemon.{Handle}
use prime_pool_deprecated.Threads.{
  submit_block_header, good, fail, coinbase_fail, orphan_block, good_block, Link, up, down, fresh,
  World,
}
use prime_pool_deprecated.Threads.Orphan.{orphan_packet, orphan_requests, orphan_work, orphan_pass}
use prime_pool_deprecated.Threads.Traces.{Pass, master_round, orphan_round, handle_round}

-- No packet submits a block.
abbrev pub NoSubmit : List Packet → Type 0
NoSubmit sent = All (λ (p : Packet). (p.header == submit_block_header) ≡ false) sent

abbrev pub reconnects : Link → Bool
reconnects up = false
reconnects down = false
reconnects fresh = true

-- The server's answers to a submission, and the failure that resets the flag.
abbrev pub answers : Option Packet → Bool
answers none = false
answers (some p) = (p.header == good) || ((p.header == fail) || (p.header == coinbase_fail))

-- A round in which no connection of the orphan thread or of a handle is made anew, and no handle is
-- answered.
abbrev pub IsCalm : Pass → Type 0
IsCalm (master_round link ticked incoming) = Unit
IsCalm (orphan_round link elapsed pinged incoming) = reconnects link ≡ false
IsCalm (handle_round i link pinged incoming) =
    (reconnects link ≡ false) × (answers incoming ≡ false)

module _ (d : Difficulty) where
  abbrev pub IsSubmitting : World d → Type 0
  IsSubmitting w = w.pool.core.submitting_block ≡ true

  abbrev pub Holds : Option (World d × List Packet) → Type 0
  Holds none = Unit
  Holds (some (w, sent)) = IsSubmitting w × NoSubmit sent

  abbrev pub HandleHolds : Option (Handle × World d × List Packet) → Type 0
  HandleHolds none = Unit
  HandleHolds (some (h, w, sent)) = IsSubmitting w × NoSubmit sent

  refund-submitting :
      (hash : ℕ) (c : Core) → (refund_payouts hash c).submitting_block ≡ c.submitting_block
  unfolding refund_payouts refund_read
  refund-submitting hash c =
      elim (Bool-cases ((get_record blocks hash c.block_db).1.coinbase_value == 0)) [
        | inl e ↦ rw e refl
        | inr e ↦ rw e refl
      ]

  requests_held :
      (elapsed pinged : Bool) (w : World d)
      → IsSubmitting w
      → orphan_requests d elapsed pinged w ≡ []
  unfolding orphan_requests
  requests_held elapsed pinged w h = elim (Bool-cases w.pool.core.new_round) [
    | inl e ↦ rw e refl
    | inr e ↦ rw (e, h) refl
  ]

  abbrev Keeps : Option (World d) → Type 0
  Keeps none = Unit
  Keeps (some w) = IsSubmitting w

  Keeps-each :
      (f : ℕ → World d)
      → ((n : ℕ) → IsSubmitting (f n))
      → (r : Option ℕ) → Keeps (elim r [ none ↦ none | some n ↦ some (f n) ])
  Keeps-each f h none = tt
  Keeps-each f h (some n) = h n

  orphan_packet-Keeps : (p : Packet) (w : World d) → IsSubmitting w → Keeps (orphan_packet d p w)
  unfolding orphan_packet
  orphan_packet-Keeps p w h = elim (Bool-cases (p.header == orphan_block)) [
    | inl e ↦ rw e (
        Keeps-each _
          (λ hash.
            refund-submitting hash
              (record w.pool.core { block_db = (get_record blocks hash w.pool.core.block_db).0 })
            ∙ h)
          (set_bytes 32 p.content))
    | inr e ↦ (elim (Bool-cases (p.header == good_block)) [
      | inl g ↦ rw (e, g) (Keeps-each _ (λ hash. h) (set_bytes 32 p.content))
      | inr g ↦ rw (e, g) h
    ])
  ]

  orphan_work-Holds :
      (elapsed pinged : Bool) (incoming : Option Packet) (w : World d)
      → IsSubmitting w
      → Holds (orphan_work d elapsed pinged incoming w)
  unfolding orphan_work
  orphan_work-Holds elapsed pinged none w h = (h, rw (requests_held elapsed pinged w h) tt)
  orphan_work-Holds elapsed pinged (some p) w h =
      after (orphan_packet d p w) (orphan_packet-Keeps p w h)
    where
      after :
          (r : Option (World d))
          → Keeps r
          → Holds
              (elim r [ none ↦ none | some w' ↦ some (w', orphan_requests d elapsed pinged w') ])
      after none k = tt
      after (some w') k = (k, rw (requests_held elapsed pinged w' k) tt)

  pub orphan_pass-Holds :
      (link : Link) (elapsed pinged : Bool) (incoming : Option Packet) (w : World d)
      → reconnects link ≡ false
      → IsSubmitting w
      → Holds (orphan_pass d link elapsed pinged incoming w)
  unfolding orphan_pass
  orphan_pass-Holds up elapsed pinged incoming w calm h =
      orphan_work-Holds elapsed pinged incoming w h
  orphan_pass-Holds down elapsed pinged incoming w calm h = (h, tt)
  orphan_pass-Holds fresh elapsed pinged incoming w calm h = cc
