-- ===== src/Router/Silent.antt =====
-- A dispatch of src/server/main.cpp that finds no handler sends nothing.
use exchange_server.Prelude.{
  ℕ, zero, suc, List, [], ◌∷◌, append-nil, ◌≡◌, refl, ◌∙◌, Option-cases, inl, inr,
}
use exchange_server.Framing.{
  Packet, next_packet, Connection, Received, read_all, answer, drain, feed, my_echo_business,
}
use exchange_server.Framing.Serve.{serve}

-- The connection has sent nothing new, and the handlers' state is as it was.
abbrev pub Unanswered : {S : Type 0} → Connection S → Connection S → Type 0
Unanswered c d = (d.sent ≡ c.sent) × (d.state ≡ c.state)

module _ {S : Type 0} (dispatch : S → ℕ → List ℕ → List ℕ × S)
    (silent : (s : S) (type : ℕ) (req : List ℕ) → dispatch s type req ≡ ([], s)) where
  answer-silent : (p : Packet) (c : Connection S) → Unanswered c (answer dispatch p c)
  answer-silent p c = rw (silent c.state p.type p.payload) (append-nil c.sent, refl)

  drain-silent : (n : ℕ) (bs : List ℕ) (c : Connection S) → Unanswered c (drain dispatch n bs c)
  unfolding drain
  drain-silent zero bs c = (refl, refl)
  drain-silent (suc n) bs c = elim (Option-cases (next_packet bs)) [
    | inl e ↦ rw (drain, e) (refl, refl)
    | inr ((p, rest), e) ↦
        let a = answer-silent p c in
        let d = drain-silent n rest (answer dispatch p c) in rw (drain, e) (d.0 ∙ a.0, d.1 ∙ a.1)
  ]

  echo-silent :
      (rs : List Received) (c : Connection S) → Unanswered c (my_echo_business dispatch rs c).1
  unfolding my_echo_business feed
  echo-silent rs c = elim (Option-cases (read_all rs)) [
    | inl e ↦ rw (my_echo_business, e) (refl, refl)
    | inr ([], e) ↦ rw (my_echo_business, e) (refl, refl)
    | inr (b ∷ bs, e) ↦ rw (my_echo_business, e) (drain-silent _ _ c)
  ]

  pub serve-silent :
      (rss : List (List Received)) (c : Connection S) → Unanswered c (serve dispatch rss c)
  serve-silent [] c = (refl, refl)
  serve-silent (rs ∷ rss) c =
      let e = echo-silent rs c in
      let h = serve-silent rss (my_echo_business dispatch rs c).1 in (h.0 ∙ e.0, h.1 ∙ e.1)
