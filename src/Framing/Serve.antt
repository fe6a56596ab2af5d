-- ===== src/Framing/Serve.antt =====
-- `MyEchoBusiness` of src/server/main.cpp over the events of a connection.
use exchange_server.Prelude.{
  ℕ, ◌<◌, ◌^◌, ◌≤◌, none, some, List, [], ◌∷◌, ◌++◌, length, zero, ◌≡◌, refl, sym, ◌∙◌, ap, subst,
  suc, arith, All,
}
use exchange_server.Framing.{
  Packet, next_packet, Connection, Received, read_all, answer, drain, feed, my_echo_business,
}
use exchange_server.Framing.Cut.{send_pkt, next_packet-send_pkt, next_packet-shorter}
use exchange_server.Framing.Stream.{drain_nil, drain-some, drain-settled, feed-append, feed-nil}

-- The reads of the events give together these bytes.
abbrev pub Reads : List (List Received) → List ℕ → Type 0
Reads [] bs = bs ≡ []
Reads (rs ∷ rss) bs = (cs ds : List ℕ) × (read_all rs ≡ some cs) × Reads rss ds × (bs ≡ cs ++ ds)

-- The bytes of a list of packets, and the packets that fit the header's fields.
abbrev pub stream : List Packet → List ℕ
stream [] = []
stream (p ∷ ps) = send_pkt p.type p.payload ++ stream ps

abbrev pub Sendable : Packet → Type 0
Sendable p = (p.type < 2 ^ 16) × (length p.payload < 2 ^ 32)

module _ {S : Type 0} (dispatch : S → ℕ → List ℕ → List ℕ × S) where
  -- One call of `MyEchoBusiness` for each event of the connection.
  abbrev pub serve : List (List Received) → Connection S → Connection S
  serve [] c = c
  serve (rs ∷ rss) c = serve rss (my_echo_business dispatch rs c).1

  -- The packets answered one after the other.
  abbrev pub answers : List Packet → Connection S → Connection S
  answers [] c = c
  answers (p ∷ ps) c = answers ps (answer dispatch p c)

  feed-settled : (bs : List ℕ) (c : Connection S) → next_packet (feed dispatch bs c).buffer ≡ none
  unfolding feed
  feed-settled bs c =
      drain-settled dispatch (length (c.buffer ++ bs)) (c.buffer ++ bs) c (omega arith)

  -- An event whose reads succeed feeds what was read, also where that is nothing.
  my_echo_business-feed :
      (rs : List Received) (cs : List ℕ) (c : Connection S)
      → next_packet c.buffer ≡ none
      → read_all rs ≡ some cs
      → (my_echo_business dispatch rs c).1 ≡ feed dispatch cs c
  unfolding my_echo_business
  my_echo_business-feed rs [] c n e = rw (my_echo_business, e) (sym (feed-nil dispatch c n))
  my_echo_business-feed rs (b ∷ cs) c n e = rw (my_echo_business, e) refl

  serve-feed :
      (rss : List (List Received)) (bs : List ℕ) (c : Connection S)
      → next_packet c.buffer ≡ none
      → Reads rss bs
      → serve rss c ≡ feed dispatch bs c
  serve-feed [] bs c n r =
      subst (λ bs. c ≡ feed dispatch bs c) (sym r) (sym (feed-nil dispatch c n))
  serve-feed (rs ∷ rss) bs c n (cs, ds, e, r, split) =
      ap (serve rss) (my_echo_business-feed rs cs c n e)
      ∙ serve-feed rss ds (feed dispatch cs c) (feed-settled cs c) r
      ∙ sym (feed-append dispatch cs ds c)
      ∙ ap (λ bs. feed dispatch bs c) (sym split)

  drain-stream :
      (n : ℕ) (ps : List Packet) (c : Connection S)
      → c.buffer ≡ []
      → All Sendable ps
      → length (stream ps) ≤ n
      → drain dispatch n (stream ps) c ≡ answers ps c
  drain-stream n [] c e s h = drain_nil dispatch n c ∙ ap (λ b. record c { buffer = b }) (sym e)
  drain-stream zero (p ∷ ps) c e s h = ground (arith, h)
  drain-stream (suc n) (p ∷ ps) c e s h =
      let whole = next_packet-send_pkt p.type p.payload (stream ps) s.0.0 s.0.1 in
      let shorter = next_packet-shorter (stream (p ∷ ps)) p (stream ps) whole in
      drain-some dispatch n (stream (p ∷ ps)) (stream ps) p c whole
      ∙ drain-stream n ps (answer dispatch p c) e s.1 (omega (arith, h, shorter))

  settled_nil : (c : Connection S) → c.buffer ≡ [] → next_packet c.buffer ≡ none
  unfolding next_packet
  settled_nil c e = subst (λ b. next_packet b ≡ none) (sym e) refl

  -- A connection with nothing buffered answers each packet that a client sent exactly once and in
  -- order, and buffers nothing at the end, however the bytes of these packets are divided among
  -- reads and events; types are below 2^16 and payloads are shorter than 2^32.
  pub serve-packets :
      (rss : List (List Received)) (ps : List Packet) (c : Connection S)
      → c.buffer ≡ []
      → All Sendable ps
      → Reads rss (stream ps)
      → serve rss c ≡ answers ps c
  unfolding feed
  serve-packets rss ps c e s r =
      serve-feed rss (stream ps) c (settled_nil c e) r
      ∙ ap (λ b. drain dispatch (length (b ++ stream ps)) (b ++ stream ps) c) e
      ∙ drain-stream (length (stream ps)) ps c e s (omega arith)
