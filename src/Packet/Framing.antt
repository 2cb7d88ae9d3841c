-- ===== src/Packet/Framing.antt =====
-- What one call of `ReadPacket` does on the stream that `GetBytes` wrote.
use prime_pool_deprecated.Common.{
  ℕ, ◌<◌, ◌≡◌, true, false, List, ◌++◌, arith, length, length-append, take-append_exact,
  drop-append_exact,
}
use prime_pool_deprecated.Bytes.{IsU32}
use prime_pool_deprecated.Packet.{
  Packet, null_packet, complete, get_bytes, read_header, read_length, read_content, read_packet,
}

-- A data packet as the pool and its clients send them.
pub record IsData (p : Packet) : Type 0 where
  pub is_data : p.header < 128
  pub nonempty : 0 < p.length
  pub fits : IsU32 p.length
  pub filled : length p.content ≡ p.length

-- A whole data packet that has arrived is read by one call, and nothing behind it is touched.
read_packet-get_bytes_data :
    (p : Packet) (rest : List ℕ)
    → IsData p
    → let r = read_packet false null_packet (get_bytes p ++ rest) in
      (r.incoming ≡ p) × (r.available ≡ rest) × (complete r.incoming ≡ true)
unfolding read_packet get_bytes read_header read_length read_content complete
read_packet-get_bytes_data p rest d = ground (
  arith,
  take-append_exact p.length p.content rest d.filled,
  drop-append_exact p.length p.content rest d.filled,
  length-append p.content rest,
)
