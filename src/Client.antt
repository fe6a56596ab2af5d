-- ===== src/Client.antt =====
-- How src/client/client.cpp sends and receives: the results of `send` and `recv` are arguments.
pub mod Receive
pub mod Requests
pub mod Socket
pub mod Worker
pub mod Counts
pub mod Replies
pub mod Choices
pub mod Bytes
pub mod Rounds
pub mod Served
pub mod View
pub mod Shows
mod Tests
use exchange_server.Prelude.{
  ℕ, zero, suc, ◌-◌, ◌*◌, ◌==◌, Bool, true, false, Option, none, some, List, [], ◌∷◌, ◌++◌, length,
  ltb, leb, if◌then◌else◌,
}
use exchange_server.Prelude.Bytes.{take, drop, be16, be32}

-- `send_all`, with the numbers that the calls of `send` return, 0 for a failure and at the end: whether
-- all was sent, and what was.
pub send_all : List ℕ → List ℕ → Bool × List ℕ
send_all rs [] = (true, [])
send_all [] (b ∷ bs) = (false, [])
send_all (s ∷ rs) (b ∷ bs) =
    let rest = send_all rs (drop s (b ∷ bs)) in
    if s == 0 then (false, []) else (rest.0, take s (b ∷ bs) ++ rest.1)

-- The bytes that have arrived, in pieces; an empty piece and the end are a failure of `recv`.
abbrev pub Arrived : Type 0
Arrived = List (List ℕ)

-- `recv_all`: the bytes and what is left, or nothing. A call of `recv` takes a piece, or as much of it
-- as was asked for.
pub recv_all : Arrived → ℕ → Option (List ℕ × Arrived)
recv_all cs zero = some ([], cs)
recv_all [] (suc n) = none
recv_all ([] ∷ cs) (suc n) = none
recv_all ((b ∷ bs) ∷ cs) (suc n) =
    let rest = recv_all cs (suc n - length (b ∷ bs)) in
    if leb (length (b ∷ bs)) (suc n)
    then elim rest [ none ↦ none | some r ↦ some ((b ∷ bs) ++ r.0, r.1) ]
    else some (take (suc n) (b ∷ bs), drop (suc n) (b ∷ bs) ∷ cs)

abbrev pub max_body : ℕ
max_body = 1024 * 1024

-- The type and the body of a packet, and what is left.
pub record Reply : Type 0 where
  pub type : ℕ
  pub body : List ℕ
  pub rest : Arrived

abbrev pub recv_body : ℕ → ℕ → Arrived → Option Reply
recv_body type len cs = if ltb max_body len then none else elim (recv_all cs len) [
  | none ↦ none
  | some r ↦ some (record { type = type; body = r.0; rest = r.1 })
]

abbrev pub of_header : List ℕ → Arrived → Option Reply
of_header (a ∷ b ∷ c ∷ d ∷ e ∷ f ∷ []) cs = recv_body (be16 e f) (be32 a b c d) cs
of_header hdr cs = none

unfoldable pub recv_pkt : Arrived → Option Reply
recv_pkt cs = elim (recv_all cs 6) [ none ↦ none | some r ↦ of_header r.0 r.1 ]
