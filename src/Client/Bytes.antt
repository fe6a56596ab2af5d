-- ===== src/Client/Bytes.antt =====
-- What src/client/client.cpp receives is made of bytes.
use exchange_server.Prelude.{
  ℕ, zero, suc, ◌-◌, ◌*◌, ◌<◌, ◌^◌, Option, none, some, List, [], ◌∷◌, ◌++◌, length, leb, ltb, ◌≡◌,
  refl, sym, subst, arith, All, All-append, All-append_left, All-append_right, Bool-cases,
  Option-cases, inl, inr,
}
use exchange_server.Prelude.Bytes.{take, drop, take-drop, from_le, be16, be32}
use exchange_server.Protocol.{field}
use exchange_server.Client.{Arrived, recv_all, recv_pkt, max_body, recv_body, of_header, Reply}
use exchange_server.Client.Socket.{Socket, recv_on, orders_at, orders_in, header_size}

abbrev pub AreBytes : List ℕ → Type 0
AreBytes bs = All (λ b. b < 256) bs

abbrev pub AllBytes : Arrived → Type 0
AllBytes cs = All AreBytes cs

drop-AreBytes : (n : ℕ) (bs : List ℕ) → AreBytes bs → AreBytes (drop n bs)
drop-AreBytes n bs h =
    All-append_right _ (take n bs) (drop n bs) (subst AreBytes (sym (take-drop n bs)) h)

take-AreBytes : (n : ℕ) (bs : List ℕ) → AreBytes bs → AreBytes (take n bs)
take-AreBytes n bs h =
    All-append_left _ (take n bs) (drop n bs) (subst AreBytes (sym (take-drop n bs)) h)

-- What `recv_all` gives, where it does.
abbrev BytesOf : Option (List ℕ × Arrived) → Type 0
BytesOf none = Unit
BytesOf (some r) = AreBytes r.0 × AllBytes r.1

recv_all-BytesOf : (cs : Arrived) (n : ℕ) → AllBytes cs → BytesOf (recv_all cs n)
unfolding recv_all
recv_all-BytesOf cs zero h = (tt, h)
recv_all-BytesOf [] (suc n) h = tt
recv_all-BytesOf ([] ∷ cs) (suc n) h = tt
recv_all-BytesOf ((b ∷ bs) ∷ cs) (suc n) h = elim (Bool-cases (leb (length (b ∷ bs)) (suc n))) [
  | inl k ↦ elim (Option-cases (recv_all cs (suc n - length (b ∷ bs)))) [
    | inl e ↦ rw (recv_all, k, e) tt
    | inr (r, e) ↦
        let rest = subst BytesOf e (recv_all-BytesOf cs (suc n - length (b ∷ bs)) h.1) in
        rw (recv_all, k, e) (All-append _ (b ∷ bs) r.0 h.0 rest.0, rest.1)
  ]
  | inr k ↦
      rw (recv_all, k)
        (take-AreBytes (suc n) (b ∷ bs) h.0, (drop-AreBytes (suc n) (b ∷ bs) h.0, h.1))
]

-- One more byte, and 256 times as much.
cap : ℕ → ℕ
cap zero = 1
cap (suc k) = 256 * cap k

from_le-cap : (k : ℕ) (bs : List ℕ) → AreBytes bs → from_le k bs < cap k
unfolding cap
from_le-cap zero bs h = omega arith
from_le-cap (suc k) [] h = omega (arith, from_le-cap k [] tt)
from_le-cap (suc k) (b ∷ bs) h = omega (arith, h.0, from_le-cap k bs h.1)

orders_at-All : (n : ℕ) (bs : List ℕ) → AreBytes bs → All (λ o. o < 2 ^ 64) (orders_at n bs)
unfolding cap
orders_at-All zero bs h = tt
orders_at-All (suc n) bs h =
    (from_le-cap 8 bs h, orders_at-All n (drop 29 bs) (drop-AreBytes 29 bs h))

pub orders_in-All :
    (junk body : List ℕ)
    → AreBytes junk
    → AreBytes body
    → All (λ o. o < 2 ^ 64) (orders_in junk body)
unfolding orders_in
orders_in-All junk body h k =
    orders_at-All (field 1 4 body) (drop header_size body ++ junk)
      (All-append _ (drop header_size body) junk (drop-AreBytes header_size body k) h)

-- What `recv_pkt` gives.
abbrev BytesIn : Option Reply → Type 0
BytesIn none = Unit
BytesIn (some r) = AreBytes r.body × AllBytes r.rest

recv_body-BytesIn : (type n : ℕ) (cs : Arrived) → AllBytes cs → BytesIn (recv_body type n cs)
recv_body-BytesIn type n cs h = elim (Option-cases (recv_all cs n)) [
  | inl e ↦ ground (arith, e)
  | inr (r, e) ↦
      let got = subst BytesOf e (recv_all-BytesOf cs n h) in
      elim (Bool-cases (ltb max_body n)) [ inl k ↦ rw (k) tt | inr k ↦ rw (k, e) got ]
]

of_header-BytesIn : (hdr : List ℕ) (cs : Arrived) → AllBytes cs → BytesIn (of_header hdr cs)
of_header-BytesIn [] cs h = tt
of_header-BytesIn (a ∷ []) cs h = tt
of_header-BytesIn (a ∷ b ∷ []) cs h = tt
of_header-BytesIn (a ∷ b ∷ c ∷ []) cs h = tt
of_header-BytesIn (a ∷ b ∷ c ∷ d ∷ []) cs h = tt
of_header-BytesIn (a ∷ b ∷ c ∷ d ∷ e ∷ []) cs h = tt
of_header-BytesIn (a ∷ b ∷ c ∷ d ∷ e ∷ f ∷ []) cs h =
    recv_body-BytesIn (be16 e f) (be32 a b c d) cs h
of_header-BytesIn (a ∷ b ∷ c ∷ d ∷ e ∷ f ∷ g ∷ hdr) cs h = tt

recv_pkt-BytesIn : (cs : Arrived) → AllBytes cs → BytesIn (recv_pkt cs)
unfolding recv_pkt
recv_pkt-BytesIn cs h = elim (Option-cases (recv_all cs 6)) [
  | inl e ↦ rw (recv_pkt, e) tt
  | inr (r, e) ↦
      rw (recv_pkt, e) (of_header-BytesIn r.0 r.1 (subst BytesOf e (recv_all-BytesOf cs 6 h)).1)
]

-- A reply that is received is made of bytes, and so is what it leaves; nothing is sent.
abbrev pub HasReceived : Socket → Option (List ℕ) × Socket → Type 0
HasReceived s (none, t) = Unit
HasReceived s (some body, t) = AreBytes body × AllBytes t.arrived × (t.sent ≡ s.sent)

pub recv_on-HasReceived : (s : Socket) → AllBytes s.arrived → HasReceived s (recv_on s)
unfolding recv_on
recv_on-HasReceived s h = elim (Option-cases (recv_pkt s.arrived)) [
  | inl k ↦ rw (recv_on, k) tt
  | inr (r, k) ↦
      let got = subst BytesIn k (recv_pkt-BytesIn s.arrived h) in
      rw (recv_on, k) (got.0, got.1, refl)
]
