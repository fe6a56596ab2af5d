-- ===== src/Client/Receive.antt =====
-- What the client of src/client/client.cpp receives is what the server sent, however it was cut.
use exchange_server.Prelude.{
  ℕ, zero, suc, ◌+◌, ◌-◌, ◌^◌, ◌%◌, ◌/◌, ◌<◌, ◌≤◌, Bool, true, false, Option, none, some, List, [],
  ◌∷◌, ◌++◌, append_assoc, length, length-append, leb, ltb, ◌==◌, if◌then◌else◌, ◌≡◌, refl, sym,
  ◌∙◌, ap, subst, arith, All, Bool-cases, inl, inr,
}
use exchange_server.Prelude.Bytes.{
  take, drop, take-drop, take-append, drop-append, take-length, drop-length, be32, to_be16, to_be32,
  be16-to_be16, be32-to_be32,
}
use exchange_server.Framing.{reply_packet}
use exchange_server.Client.{
  send_all, Arrived, recv_all, max_body, Reply, recv_body, of_header, recv_pkt,
}

abbrev pub stream : Arrived → List ℕ
stream [] = []
stream (c ∷ cs) = c ++ stream cs

abbrev pub NonEmpty : List ℕ → Type 0
NonEmpty c = 0 < length c

-- `n` bytes are received, and they are `bs`; the rest of the stream is left.
pub record Gets (cs : Arrived) (n : ℕ) (bs rest : List ℕ) : Type 0 where
  pub left : Arrived
  pub got : recv_all cs n ≡ some (bs, left)
  pub stream_eq : stream left ≡ rest
  pub pieces : All NonEmpty left

-- A piece at the front of a stream is a prefix of a longer one there.
prefix :
    (c x bs rest : List ℕ)
    → c ++ x ≡ bs ++ rest
    → length c ≤ length bs
    → (c ++ drop (length c) bs ≡ bs) × (x ≡ drop (length c) bs ++ rest)
prefix c x bs rest e h =
    let front = sym (take-length c x) ∙ ap (take (length c)) e ∙ take-append (length c) bs rest h in
    (
      ap (λ y. y ++ drop (length c) bs) front ∙ take-drop (length c) bs,
      sym (drop-length c x) ∙ ap (drop (length c)) e ∙ drop-append (length c) bs rest h,
    )

joined : List ℕ → Option (List ℕ × Arrived) → Option (List ℕ × Arrived)
joined c o = elim o [ none ↦ none | some r ↦ some (c ++ r.0, r.1) ]

received : ℕ → List ℕ → Arrived → ℕ → Bool → Option (List ℕ × Arrived)
received c d cs n whole =
    if whole
    then joined (c ∷ d) (recv_all cs (suc n - length (c ∷ d)))
    else some (take (suc n) (c ∷ d), drop (suc n) (c ∷ d) ∷ cs)

pub recv_all-Gets :
    (cs : Arrived) (n : ℕ) (bs rest : List ℕ)
    → All NonEmpty cs
    → stream cs ≡ bs ++ rest
    → length bs ≡ n
    → Gets cs n bs rest
unfolding recv_all joined received
recv_all-Gets cs zero [] rest full e h = record {
  left = cs;
  got = refl;
  stream_eq = e;
  pieces = full;
}
recv_all-Gets cs zero (b ∷ bs) rest full e h = ground (arith, h)
recv_all-Gets [] (suc n) [] rest full e h = ground (arith, h)
recv_all-Gets [] (suc n) (b ∷ bs) rest full e h = ground (arith, ap length e)
recv_all-Gets ([] ∷ cs) (suc n) bs rest full e h = ground (arith, full.0)
recv_all-Gets ((c ∷ d) ∷ cs) (suc n) bs rest full e h =
    elim (Bool-cases (leb (length (c ∷ d)) (suc n))) [
      | inl k ↦
          let p = prefix (c ∷ d) (stream cs) bs rest e (ground (arith, k, h)) in
          let more = drop (length (c ∷ d)) bs in
          let size = sym (length-append (c ∷ d) more) ∙ ap length p.0 in
          let ih =
            recv_all-Gets cs (suc n - length (c ∷ d)) more rest full.1 p.1
              (omega (arith, size, h)) in
          record {
            left = ih.left;
            got =
                ap (received c d cs n) k
                ∙ ap (λ o. joined (c ∷ d) o) ih.got
                ∙ ap (λ y. some (y, ih.left)) p.0;
            stream_eq = ih.stream_eq;
            pieces = ih.pieces;
          }
      | inr k ↦
          let p = prefix bs rest (c ∷ d) (stream cs) (sym e) (ground (arith, k, h)) in
          let more = drop (length bs) (c ∷ d) in
          let size = sym (length-append bs more) ∙ ap length p.0 in
          let first =
            ap (λ m. take m (c ∷ d)) (sym h)
            ∙ ap (take (length bs)) (sym p.0)
            ∙ take-length bs more in
          record {
            left = drop (suc n) (c ∷ d) ∷ cs;
            got = ap (received c d cs n) k ∙ ap (λ y. some (y, drop (suc n) (c ∷ d) ∷ cs)) first;
            stream_eq = ap (λ m. drop m (c ∷ d) ++ stream cs) (sym h) ∙ sym p.1;
            pieces =
                (subst (λ m. 0 < length (drop m (c ∷ d))) h (ground (arith, size, h, k)), full.1);
          }
    ]

-- The client receives a packet, and the rest of the stream is left.
pub record Receives (cs : Arrived) (type : ℕ) (body rest : List ℕ) : Type 0 where
  pub left : Arrived
  pub got : recv_pkt cs ≡ some (record { type = type; body = body; rest = left })
  pub stream_eq : stream left ≡ rest
  pub pieces : All NonEmpty left

recv_body-Gets :
    (type : ℕ) (cs : Arrived) (body rest : List ℕ)
    → length body ≤ max_body
    → (g : Gets cs (length body) body rest)
    → recv_body type (length body) cs ≡ some (record { type = type; body = body; rest = g.left })
recv_body-Gets type cs body rest h g =
    let fits : ltb max_body (length body) ≡ false = ground (arith, h) in rw (fits, g.got) refl

-- Whatever way the stream was cut into pieces, none of them empty, the client receives a reply of the
-- server, of one byte or more and at most 2^20, with the number after that of the request, and what
-- follows it in the stream is left for the next call.
pub recv_pkt-reply_packet :
    (cs : Arrived) (type c : ℕ) (reply rest : List ℕ)
    → All NonEmpty cs
    → stream cs ≡ reply_packet type (c ∷ reply) ++ rest
    → length (c ∷ reply) ≤ max_body
    → Receives cs ((type + 1) % 2 ^ 16) (c ∷ reply) rest
unfolding recv_pkt
recv_pkt-reply_packet cs type c reply rest full e h =
    let t = (type + 1) % 2 ^ 16 in
    let body = c ∷ reply in
    let size = length body in
    let head = recv_all-Gets cs 6 (to_be32 size ++ to_be16 t) (body ++ rest) full e refl in
    let tail = recv_all-Gets head.left size body rest head.pieces head.stream_eq refl in
    record {
      left = tail.left;
      got =
          ap opened head.got
          ∙ ap
              (λ k.
                recv_body k
                  (be32 (size / 2 ^ 24 % 2 ^ 8) (size / 2 ^ 16 % 2 ^ 8) (size / 2 ^ 8 % 2 ^ 8)
                    (size % 2 ^ 8))
                  head.left)
              (be16-to_be16 t (omega arith))
          ∙ ap (λ n. recv_body t n head.left) (be32-to_be32 size (omega (arith, h)))
          ∙ recv_body-Gets t head.left body rest h tail;
      stream_eq = tail.stream_eq;
      pieces = tail.pieces;
    }
  where
    opened : Option (List ℕ × Arrived) → Option Reply
    opened o = elim o [ none ↦ none | some r ↦ of_header r.0 r.1 ]

-- What `send_all` sent, and what of the message is missing.
pub record Sent (bs : List ℕ) (out : Bool × List ℕ) : Type 0 where
  pub missing : List ℕ
  pub prefix_eq : out.1 ++ missing ≡ bs
  pub complete : out.0 ≡ true → missing ≡ []

-- Whatever `send` returns, the bytes sent are a prefix of the message, and all of it where `send_all`
-- reports success.
pub send_all-Sent : (rs bs : List ℕ) → Sent bs (send_all rs bs)
unfolding send_all
send_all-Sent rs [] = record { missing = []; prefix_eq = refl; complete = λ e. refl }
send_all-Sent [] (b ∷ bs) = record {
  missing = b ∷ bs;
  prefix_eq = refl;
  complete = λ e. ground (arith, e);
}
send_all-Sent (s ∷ rs) (b ∷ bs) =
    let ih = send_all-Sent rs (drop s (b ∷ bs)) in
    elim (Bool-cases (s == 0)) [
      | inl e ↦
          subst (Sent (b ∷ bs)) (sym (ap (sent_by s rs b bs) e))
            (record { missing = b ∷ bs; prefix_eq = refl; complete = λ e. ground (arith, e) })
      | inr e ↦ subst (Sent (b ∷ bs)) (sym (ap (sent_by s rs b bs) e)) (record {
        missing = ih.missing;
        prefix_eq =
            append_assoc (take s (b ∷ bs)) (send_all rs (drop s (b ∷ bs))).1 ih.missing
            ∙ ap (λ y. take s (b ∷ bs) ++ y) ih.prefix_eq
            ∙ take-drop s (b ∷ bs);
        complete = ih.complete;
      })
    ]
  where
    sent_by : ℕ → List ℕ → ℕ → List ℕ → Bool → Bool × List ℕ
    sent_by s rs b bs stopped =
        let rest = send_all rs (drop s (b ∷ bs)) in
        if stopped then (false, []) else (rest.0, take s (b ∷ bs) ++ rest.1)
