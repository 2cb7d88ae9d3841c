-- ===== src/Packet.antt =====
-- The packet of src/LLP/types.h and the reading side of its Connection.
pub mod Framing
pub mod Stream
mod Tests
use prime_pool_deprecated.Common.{
  ℕ, ◌+◌, ◌-◌, ◌*◌, ◌/◌, ◌^◌, Bool, true, false, not, ◌&&◌, ◌||◌, List, [], ◌∷◌, ◌++◌, min, ltb,
  leb, ◌==◌, if◌then◌else◌, length, get_or, take, drop,
}
use prime_pool_deprecated.Bytes.{u8, u32}

pub record Packet : Type 0 where
  pub header : ℕ
  pub length : ℕ
  pub content : List ℕ

-- `SetNull`.
abbrev pub null_packet : Packet
null_packet = record { header = 255; length = 0; content = [] }

pub is_null : Packet → Bool
is_null p = p.header == 255

-- `Header`: the header is fully read. A data packet (below 128) has a length, a request has none.
pub has_header : Packet → Bool
unfolding is_null
has_header p =
    if is_null p
    then false
    else (ltb p.header 128 && ltb 0 p.length)
      || ((leb 128 p.header && ltb p.header 255) && p.length == 0)

pub complete : Packet → Bool
unfolding has_header
complete p = has_header p && length p.content == p.length

pub set_length : Packet → List ℕ → Packet
set_length p bytes = record p {
  length = u32 (
      get_or bytes 0 0 * 2 ^ 24
      + get_or bytes 1 0 * 2 ^ 16
      + get_or bytes 2 0 * 2 ^ 8
      + get_or bytes 3 0);
}

pub get_bytes : Packet → List ℕ
get_bytes p =
    if ltb p.header 128
    then p.header
      ∷ u8 (p.length / 2 ^ 24)
      ∷ u8 (p.length / 2 ^ 16)
      ∷ u8 (p.length / 2 ^ 8)
      ∷ u8 p.length
      ∷ p.content
    else p.header ∷ []

-- What a read has fired: `EVENT_HEADER`, or `EVENT_PACKET` with the number of bytes read.
pub data Fired : Type 0 where
  header_read : Fired
  packet_read : ℕ → Fired

-- The connection's packet, the bytes that wait in the socket, and the events fired so far.
pub record Reader : Type 0 where
  pub incoming : Packet
  pub available : List ℕ
  pub fired : List Fired

-- `errors` is `Errors()`: then `Read` returns 0 and takes nothing.
pub read_header : Bool → Packet → List ℕ → Reader
unfolding is_null
read_header errors p [] = record { incoming = p; available = []; fired = [] }
read_header errors p (b ∷ s) =
    if is_null p && not errors
    then record { incoming = record p { header = b }; available = s; fired = [] }
    else record { incoming = p; available = b ∷ s; fired = [] }

pub read_length : Bool → Reader → Reader
unfolding set_length
read_length errors r =
    if (leb 4 (length r.available) && r.incoming.length == 0) && not errors
    then record {
      incoming = set_length r.incoming (take 4 r.available);
      available = drop 4 r.available;
      fired = r.fired ++ header_read ∷ [];
    }
    else r

pub read_content : Bool → Reader → Reader
read_content errors r =
    let n = min (length r.available) (r.incoming.length - length r.incoming.content) in
    if ((ltb 0 (length r.available) && ltb 0 r.incoming.length)
        && ltb (length r.incoming.content) r.incoming.length)
      && not errors
    then record {
      incoming = record r.incoming { content = r.incoming.content ++ take n r.available };
      available = drop n r.available;
      fired = r.fired ++ packet_read n ∷ [];
    }
    else r

-- `ReadPacket`: what can be read now, and no more than this packet.
pub read_packet : Bool → Packet → List ℕ → Reader
read_packet errors p s =
    let r = read_header errors p s in
    if not (is_null r.incoming) && not (complete r.incoming)
    then read_content errors (read_length errors r)
    else r
