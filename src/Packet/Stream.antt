-- ===== src/Packet/Stream.antt =====
-- A packet that arrives in pieces: calls of `ReadPacket` between the arrivals.
use prime_pool_deprecated.Common.{
  ℕ, suc, ◌+◌, ◌/◌, ◌^◌, ◌<◌, ◌≡◌, refl, sym, ap, subst, ◌∙◌, ◌⊎◌, inl, inr, true, false, List, [],
  ◌∷◌, ◌++◌, arith, if◌then◌else◌, length, length-append, take-append_exact, drop-append_exact,
  append_split, take-length_self, drop-length_self, concat, append_assoc, Option, none, some,
  Bool-cases, leb,
}
use prime_pool_deprecated.Bytes.{u8, IsU32}
use prime_pool_deprecated.Packet.{
  Packet, null_packet, is_null, has_header, complete, get_bytes, Reader, Fired, packet_read,
  header_read, read_header, read_length, read_content, read_packet,
}
use prime_pool_deprecated.Packet.Framing.{IsData}

-- The stream behind the header byte.
abbrev body : Packet → List ℕ
body p =
    u8 (p.length / 2 ^ 24)
    ∷ u8 (p.length / 2 ^ 16)
    ∷ u8 (p.length / 2 ^ 8)
    ∷ u8 p.length
    ∷ p.content

get_bytes-body : (p : Packet) → IsData p → get_bytes p ≡ p.header ∷ body p
unfolding get_bytes
get_bytes-body p d = ground arith

-- `Reading p inc left`: `inc` holds a part of `p`, and `left` is what is still to come of it.
data Reading (p : Packet) : Packet → List ℕ → Type 0 where
  at_start : Reading p null_packet (p.header ∷ body p)
  at_length : Reading p (record null_packet { header = p.header }) (body p)
  in_content :
      (front back : List ℕ)
      → p.content ≡ front ++ back
      → 0 < length back
      → Reading p (record p { content = front }) back

-- How a call ends: with the whole packet, or with all that had arrived taken in.
abbrev Outcome : Packet → List ℕ → List ℕ → Reader → Type 0
Outcome p future rest r =
    ((complete r.incoming ≡ true) × (r.incoming ≡ p) × (r.available ++ future ≡ rest))
    ⊎ ((left : List ℕ) × (complete r.incoming ≡ false)
        × Reading p r.incoming left
        × (r.available ++ future ≡ left ++ rest)
        × (length r.available < length left))

read_content_idle :
    (p : Packet) (fs : List Fired)
    → read_content false (record { incoming = p; available = []; fired = fs })
      ≡ record { incoming = p; available = []; fired = fs }
unfolding read_content
read_content_idle p fs = refl

-- Fewer bytes than are missing: all are taken.
read_content_part :
    (p : Packet) (a : ℕ) (avail : List ℕ) (fs : List Fired)
    → length p.content + suc (length avail) < p.length
    → read_content false (record { incoming = p; available = a ∷ avail; fired = fs }) ≡ record {
      incoming = record p { content = p.content ++ (a ∷ avail) };
      available = [];
      fired = fs ++ packet_read (suc (length avail)) ∷ [];
    }
unfolding read_content
read_content_part p a avail fs h =
    ground (arith, take-length_self (a ∷ avail), drop-length_self (a ∷ avail))

-- Four bytes are there: they are the length.
read_length_step :
    (p : Packet) (a b c x : ℕ) (avail : List ℕ)
    → IsU32 p.length
    → a ≡ u8 (p.length / 2 ^ 24)
    → b ≡ u8 (p.length / 2 ^ 16)
    → c ≡ u8 (p.length / 2 ^ 8)
    → x ≡ u8 p.length
    → read_length false (record {
      incoming = record null_packet { header = p.header };
      available = a ∷ b ∷ c ∷ x ∷ avail;
      fired = [];
    })
      ≡ record { incoming = record p { content = [] }; available = avail; fired = header_read ∷ [] }
unfolding read_length
read_length_step p a b c x avail h ea eb ec ex = ground arith

read_packet_start :
    (b : ℕ) (avail : List ℕ)
    → b < 128
    → read_packet false null_packet (b ∷ avail)
      ≡ read_content false (
          read_length false (record {
            incoming = record null_packet { header = b };
            available = avail;
            fired = [];
          }))
unfolding read_packet read_header is_null complete has_header
read_packet_start b avail h = ground arith

read_packet_resume :
    (inc : Packet) (avail : List ℕ)
    → inc.header < 128
    → (length inc.content < inc.length) ⊎ (inc.length ≡ 0)
    → read_packet false inc avail
      ≡ read_content false
          (read_length false (record { incoming = inc; available = avail; fired = [] }))
unfolding read_packet read_header is_null complete has_header
read_packet_resume inc [] h g = ground arith
read_packet_resume inc (b ∷ avail) h g = ground arith

read_length_done :
    (inc : Packet) (avail : List ℕ)
    → 0 < inc.length
    → read_length false (record { incoming = inc; available = avail; fired = [] })
      ≡ record { incoming = inc; available = avail; fired = [] }
unfolding read_length
read_length_done inc avail h = ground arith

module _ (p : Packet) (d : IsData p) (future rest : List ℕ) where
  read_content-all :
      (front back t : List ℕ) (fs : List Fired)
      → p.content ≡ front ++ back
      → 0 < length back
      → rest ≡ t ++ future
      → Outcome p future rest (
          read_content false
            (record { incoming = record p { content = front }; available = back ++ t; fired = fs }))
  unfolding read_content complete
  read_content-all front back t fs e h er = inl (
      ground (
        arith,
        d.filled,
        length-append front back,
        length-append back t,
        take-append_exact (length back) back t,
        drop-append_exact (length back) back t,
        ap length e,
      ))

  read_content-part :
      (front avail t : List ℕ) (fs : List Fired)
      → p.content ≡ front ++ (avail ++ t)
      → 0 < length t
      → future ≡ t ++ rest
      → Outcome p future rest (
          read_content false
            (record { incoming = record p { content = front }; available = avail; fired = fs }))
  unfolding complete has_header
  read_content-part front [] t fs e h ef =
      rw (read_content_idle (record p { content = front }) fs)
        (inr (t, ground (arith, lengths), in_content front t e h, ef, h))
    where
      lengths : length front + length t ≡ p.length
      lengths = ground (arith, d.filled, ap length e, length-append front t)
  read_content-part front (a ∷ avail) t fs e h ef =
      rw (read_content_part (record p { content = front }) a avail fs (omega (arith, lengths))) (
        inr (
          t,
          ground (arith, lengths, length-append front (a ∷ avail)),
          in_content (front ++ (a ∷ avail)) t (e ∙ sym (append_assoc front (a ∷ avail) t)) h,
          ef,
          h,
        ))
    where
      lengths : length front + suc (length avail) + length t ≡ p.length
      lengths = ground (
        arith,
        d.filled,
        ap length e,
        length-append front (a ∷ (avail ++ t)),
        length-append avail t,
      )

  read_content-Outcome :
      (front back avail : List ℕ) (fs : List Fired)
      → p.content ≡ front ++ back
      → 0 < length back
      → avail ++ future ≡ back ++ rest
      → Outcome p future rest (
          read_content false
            (record { incoming = record p { content = front }; available = avail; fired = fs }))
  read_content-Outcome front back avail fs e h ea =
      elim (Bool-cases (leb (length back) (length avail))) [
        | inl enough ↦
            let (t, e1, e2) = append_split avail future back rest ea (ground arith) in
            subst
              (λ a. Outcome p future rest (
                read_content false
                  (record { incoming = record p { content = front }; available = a; fired = fs })))
              (sym e1) (read_content-all front back t fs e h e2)
        | inr short ↦
            let (t, e1, e2) = append_split back rest avail future (sym ea) (ground arith) in
            read_content-part front avail t fs (e ∙ ap (◌++◌ front) e1)
              (ground (arith, ap length e1, length-append avail t)) e2
      ]

  -- With fewer than four bytes there the length waits; with four it is read, and the content follows.
  read_length-Outcome :
      (avail : List ℕ)
      → avail ++ future ≡ body p ++ rest
      → Outcome p future rest (
          read_content false (
            read_length false (record {
              incoming = record null_packet { header = p.header };
              available = avail;
              fired = [];
            })))
  unfolding read_length read_content complete has_header
  read_length-Outcome [] e = inr (body p, ground arith, at_length, e, ground arith)
  read_length-Outcome (a ∷ []) e = inr (body p, ground arith, at_length, e, ground arith)
  read_length-Outcome (a ∷ b ∷ []) e = inr (body p, ground arith, at_length, e, ground arith)
  read_length-Outcome (a ∷ b ∷ c ∷ []) e = inr (body p, ground arith, at_length, e, ground arith)
  read_length-Outcome (a ∷ b ∷ c ∷ x ∷ avail) e =
      rw (read_length_step p a b c x avail d.fits (cc) (cc) (cc) (cc)) (
        read_content-Outcome [] p.content avail (header_read ∷ []) refl
          (ground (arith, d.filled, d.nonempty)) (cc))

  -- One call keeps a packet that is being read on its way.
  read_packet-Outcome :
      {inc : Packet} {left : List ℕ} (avail : List ℕ)
      → Reading p inc left
      → avail ++ future ≡ left ++ rest
      → Outcome p future rest (read_packet false inc avail)
  unfolding complete has_header read_packet read_header is_null
  read_packet-Outcome [] at_start e =
      inr (p.header ∷ body p, ground arith, at_start, e, ground arith)
  read_packet-Outcome (b ∷ avail) at_start e =
      let same : b ≡ p.header = cc in
      let tail : avail ++ future ≡ body p ++ rest = cc in
      subst (Outcome p future rest)
        (ap
            (λ k. read_content false (
              read_length false (record {
                incoming = record null_packet { header = k };
                available = avail;
                fired = [];
              })))
            (sym same)
          ∙ sym (read_packet_start b avail (rw same d.is_data)))
        (read_length-Outcome avail tail)
  read_packet-Outcome avail at_length e =
      subst (Outcome p future rest)
        (sym (
          read_packet_resume (record null_packet { header = p.header }) avail d.is_data
            (omega arith)))
        (read_length-Outcome avail e)
  read_packet-Outcome avail (in_content front back q h) e =
      subst (Outcome p future rest)
        (sym (
          read_packet_resume (record p { content = front }) avail d.is_data short
          ∙ ap (read_content false)
              (read_length_done (record p { content = front }) avail d.nonempty)))
        (read_content-Outcome front back avail [] q h e)
    where
      short : length front < p.length ⊎ (p.length ≡ 0)
      short = inl (ground (arith, d.filled, ap length q, length-append front back))

-- `DataThread::Thread` around it: after each arrival one call of `ReadPacket`, until the packet is
-- complete. The result is the packet and what follows it in the stream.
pub receive : Packet → List ℕ → List (List ℕ) → Option (Packet × List ℕ)
receive inc avail [] = none
receive inc avail (c ∷ cs) =
    let r = read_packet false inc (avail ++ c) in
    let rest = receive r.incoming r.available cs in
    if complete r.incoming then some (r.incoming, r.available ++ concat cs) else rest

receive-Reading :
    (p : Packet) (d : IsData p) (rest : List ℕ) (cs : List (List ℕ)) (inc : Packet)
    (left avail : List ℕ)
    → Reading p inc left
    → avail ++ concat cs ≡ left ++ rest
    → length avail < length left
    → receive inc avail cs ≡ some (p, rest)
unfolding receive
receive-Reading p d rest [] inc left avail rd e h =
    absurd (omega (arith, ap length e, length-append avail [], length-append left rest))
receive-Reading p d rest (c ∷ cs) inc left avail rd e h =
    elim (read_packet-Outcome p d (concat cs) rest (avail ++ c) rd
      (append_assoc avail c (concat cs) ∙ e)) [
        | inl (done, same, after) ↦ rw done (rw (same, after))
        | inr (left', more, rd', after, short) ↦
            rw more (receive-Reading p d rest cs _ left' _ rd' after short)
      ]

-- However the stream is cut into arrivals, a data packet that is not empty and that GetBytes
-- wrote is read back whole by the calls of ReadPacket, and what follows it is left for the next
-- packet.
pub receive-get_bytes :
    (p : Packet) (rest : List ℕ) (cs : List (List ℕ))
    → IsData p
    → concat cs ≡ get_bytes p ++ rest
    → receive null_packet [] cs ≡ some (p, rest)
receive-get_bytes p rest cs d e =
    receive-Reading p d rest cs null_packet _ [] at_start
      (e ∙ ap (λ s. s ++ rest) (get_bytes-body p d)) (omega arith)
