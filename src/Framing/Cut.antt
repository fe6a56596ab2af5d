-- ===== src/Framing/Cut.antt =====
-- How `next_packet` takes packets off a buffer.
use exchange_server.Prelude.{ℕ, ◌<◌, ◌^◌, some, List, [], ◌∷◌, ◌++◌, length, ◌≡◌, arith}
use exchange_server.Prelude.Bytes.{
  be32, to_be16, to_be32, take-append, drop-append, length-drop, take-length, drop-length,
  be16-to_be16, be32-to_be32,
}
use exchange_server.Framing.{Packet, next_packet}
use exchange_server.Prelude.{length-append}

pub next_packet-shorter :
    (bs : List ℕ) (p : Packet) (rest : List ℕ)
    → next_packet bs ≡ some (p, rest)
    → length rest < length bs
unfolding next_packet
next_packet-shorter [] p rest h = cc
next_packet-shorter (a ∷ []) p rest h = cc
next_packet-shorter (a ∷ b ∷ []) p rest h = cc
next_packet-shorter (a ∷ b ∷ c ∷ []) p rest h = cc
next_packet-shorter (a ∷ b ∷ c ∷ d ∷ []) p rest h = cc
next_packet-shorter (a ∷ b ∷ c ∷ d ∷ e ∷ []) p rest h = cc
next_packet-shorter (a ∷ b ∷ c ∷ d ∷ e ∷ f ∷ bs) p rest h =
    ground (arith, h, length-drop (be32 a b c d) bs)

-- More bytes behind a whole packet do not change it.
pub next_packet-append :
    (bs ys : List ℕ) (p : Packet) (rest : List ℕ)
    → next_packet bs ≡ some (p, rest)
    → next_packet (bs ++ ys) ≡ some (p, rest ++ ys)
unfolding next_packet
next_packet-append [] ys p rest h = cc
next_packet-append (a ∷ []) ys p rest h = cc
next_packet-append (a ∷ b ∷ []) ys p rest h = cc
next_packet-append (a ∷ b ∷ c ∷ []) ys p rest h = cc
next_packet-append (a ∷ b ∷ c ∷ d ∷ []) ys p rest h = cc
next_packet-append (a ∷ b ∷ c ∷ d ∷ e ∷ []) ys p rest h = cc
next_packet-append (a ∷ b ∷ c ∷ d ∷ e ∷ f ∷ bs) ys p rest h =
    let len = be32 a b c d in
    ground (arith, h, length-append bs ys, take-append len bs ys, drop-append len bs ys)

-- `send_pkt` of src/client/client.cpp: the bytes of a packet. Its buffer has 1024
-- bytes, and the payloads of the client are shorter.
abbrev pub send_pkt : ℕ → List ℕ → List ℕ
send_pkt type payload = to_be32 (length payload) ++ to_be16 type ++ payload

pub next_packet-send_pkt :
    (type : ℕ) (payload rest : List ℕ)
    → type < 2 ^ 16
    → length payload < 2 ^ 32
    → next_packet (send_pkt type payload ++ rest)
      ≡ some (record { type = type; payload = payload }, rest)
unfolding next_packet
next_packet-send_pkt type payload rest ht hl = ground (
  arith,
  be16-to_be16 type ht,
  be32-to_be32 (length payload) hl,
  take-length payload rest,
  drop-length payload rest,
  length-append payload rest,
)
