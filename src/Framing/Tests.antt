-- ===== src/Framing/Tests.antt =====
-- A connection of src/server/main.cpp that receives two packets in three pieces.
use exchange_server.Prelude.{ℕ, ◌+◌, List, [], ◌∷◌, ◌≡◌, refl, arith}
use exchange_server.Framing.{
  Packet, Connection, Received, bytes, would_block, interrupted, next_packet, read_all, drain, feed,
  my_echo_business,
}
use exchange_server.Framing.Serve.{serve, answers, serve-packets}

-- A handler that counts the packets and replies with the payload.
abbrev echo : ℕ → ℕ → List ℕ → List ℕ × ℕ
echo n type payload = (payload, n + 1)

abbrev connection : Connection ℕ
connection = record { buffer = []; state = 0; sent = [] }

abbrev packets : List Packet
packets = record { type = 2003; payload = [] } ∷ record { type = 3003; payload = 7 ∷ 8 ∷ [] } ∷ []

abbrev events : List (List Received)
events =
    (bytes (0 ∷ 0 ∷ 0 ∷ []) ∷ would_block ∷ [])
    ∷ (interrupted ∷ bytes (0 ∷ 7 ∷ 211 ∷ 0 ∷ 0 ∷ []) ∷ bytes (0 ∷ 2 ∷ []) ∷ would_block ∷ [])
    ∷ (bytes (11 ∷ 187 ∷ 7 ∷ 8 ∷ []) ∷ would_block ∷ [])
    ∷ []

-- The second packet is answered with the next type.
runs_events : (serve echo events connection).sent ≡ 0 ∷ 0 ∷ 0 ∷ 2 ∷ 11 ∷ 188 ∷ 7 ∷ 8 ∷ []
unfolding my_echo_business read_all feed drain next_packet
runs_events = refl

serve-packets_example : serve echo events connection ≡ answers echo packets connection
unfolding read_all
serve-packets_example =
    serve-packets echo events packets connection refl
      ((omega arith, omega arith), ((omega arith, omega arith), tt))
      (_, _, refl, (_, _, refl, (_, _, refl, refl, refl), refl), refl)
