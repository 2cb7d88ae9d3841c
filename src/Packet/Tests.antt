-- ===== src/Packet/Tests.antt =====
-- Concrete runs of the packets.
use prime_pool_deprecated.Common.{◌≡◌, refl, [], ◌∷◌, some, arith}
use prime_pool_deprecated.Packet.{Packet, null_packet, get_bytes}
use prime_pool_deprecated.Packet.Stream.{receive, receive-get_bytes}

-- A login of three bytes.
abbrev login : Packet
login = record { header = 0; length = 3; content = 50 ∷ 83 ∷ 52 ∷ [] }

login_bytes : get_bytes login ≡ 0 ∷ 0 ∷ 0 ∷ 0 ∷ 3 ∷ 50 ∷ 83 ∷ 52 ∷ []
unfolding get_bytes
login_bytes = refl

-- In three arrivals, with the first byte of the next packet behind it.
receive-get_bytes_example :
    receive null_packet [] ((0 ∷ 0 ∷ []) ∷ (0 ∷ 0 ∷ 3 ∷ 50 ∷ []) ∷ (83 ∷ 52 ∷ 129 ∷ []) ∷ [])
    ≡ some (login, 129 ∷ [])
unfolding get_bytes
receive-get_bytes_example =
    receive-get_bytes login (129 ∷ [])
      ((0 ∷ 0 ∷ []) ∷ (0 ∷ 0 ∷ 3 ∷ 50 ∷ []) ∷ (83 ∷ 52 ∷ 129 ∷ []) ∷ [])
      (record { is_data = omega arith; nonempty = omega arith; fits = omega arith; filled = refl })
      refl
