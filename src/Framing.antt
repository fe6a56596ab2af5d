-- ===== src/Framing.antt =====
-- `MyEchoBusiness` of src/server/main.cpp: from the byte stream of a connection to packets, and the
-- replies to them. The dispatch to a handler is a parameter: from the state, the type and the
-- payload of a packet to the reply and the next state; a handler that throws replies nothing.
pub mod Cut
pub mod Stream
pub mod Serve
mod Tests
use exchange_server.Prelude.{
  ℕ, zero, suc, ◌+◌, ◌%◌, ◌^◌, Bool, true, false, Option, none, some, List, [], ◌∷◌, ◌++◌, length,
  leb,
}
use exchange_server.Prelude.Bytes.{take, drop, be16, be32, to_be16, to_be32}

-- `PacketHeader` of include/Protocol.hpp and the payload behind it, as the loop sees them.
pub record Packet : Type 0 where
  pub type : ℕ
  pub payload : List ℕ

-- The first packet of a buffer and what follows it, or nothing where the buffer ends before it does.
pub next_packet : List ℕ → Option (Packet × List ℕ)
next_packet [] = none
next_packet (a ∷ []) = none
next_packet (a ∷ b ∷ []) = none
next_packet (a ∷ b ∷ c ∷ []) = none
next_packet (a ∷ b ∷ c ∷ d ∷ []) = none
next_packet (a ∷ b ∷ c ∷ d ∷ e ∷ []) = none
next_packet (a ∷ b ∷ c ∷ d ∷ e ∷ f ∷ rest) =
    let len = be32 a b c d in
    elim (leb len (length rest)) [
      | false ↦ none
      | true ↦ some (record { type = be16 e f; payload = take len rest }, drop len rest)
    ]

-- A connection: the session's buffer, what the handlers work on, and the bytes sent back.
pub record Connection (S : Type 0) : Type 0 where
  pub buffer : List ℕ
  pub state : S
  pub sent : List ℕ

-- `if (!reply.empty())`: the header and the reply, in one piece.
abbrev pub reply_packet : ℕ → List ℕ → List ℕ
reply_packet type [] = []
reply_packet type (c ∷ cs) = to_be32 (length (c ∷ cs)) ++ to_be16 ((type + 1) % 2 ^ 16) ++ c ∷ cs

-- What `recv` returns.
pub data Received : Type 0 where
  bytes : List ℕ → Received
  would_block interrupted failed closed : Received

-- The first loop: what was read, or nothing where the connection is to be cleaned. Where the list of
-- results ends, `recv` would block.
unfoldable pub read_all : List Received → Option (List ℕ)
read_all [] = some []
read_all (bytes bs ∷ rs) = elim (read_all rs) [ none ↦ none | some cs ↦ some (bs ++ cs) ]
read_all (would_block ∷ rs) = some []
read_all (interrupted ∷ rs) = read_all rs
read_all (failed ∷ rs) = none
read_all (closed ∷ rs) = none

module _ {S : Type 0} (dispatch : S → ℕ → List ℕ → List ℕ × S) where
  -- One packet: dispatched, and answered.
  abbrev pub answer : Packet → Connection S → Connection S
  answer p c =
      let r = dispatch c.state p.type p.payload in
      record c { state = r.1; sent = c.sent ++ reply_packet p.type r.0 }

  -- The second loop, and the bytes that it leaves; each round takes a packet of six bytes or more.
  unfoldable pub drain : ℕ → List ℕ → Connection S → Connection S
  drain zero buf c = record c { buffer = buf }
  drain (suc n) buf c = elim (next_packet buf) [
    | none ↦ record c { buffer = buf }
    | some r ↦ drain n r.1 (answer r.0 c)
  ]

  -- `session->buffer += localData`, the loop, and the clean-up of the buffer.
  unfoldable pub feed : List ℕ → Connection S → Connection S
  feed bs c = let buf = c.buffer ++ bs in drain (length buf) buf c

  -- What the function returns, with `if (localData.empty()) return true;`
  unfoldable pub my_echo_business : List Received → Connection S → Bool × Connection S
  my_echo_business rs c = elim (read_all rs) [
    | none ↦ (false, c)
    | some [] ↦ (true, c)
    | some (b ∷ bs) ↦ (true, feed (b ∷ bs) c)
  ]
