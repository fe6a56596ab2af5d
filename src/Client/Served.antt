-- ===== src/Client/Served.antt =====
-- The rounds of src/client/client.cpp against `MyEchoBusiness` of src/server/main.cpp.
use exchange_server.Prelude.{
  ℕ, ◌^◌, ◌<◌, List, [], ◌∷◌, ◌++◌, map, length, ◌≡◌, sym, ap, ◌∙◌, subst, All,
}
use exchange_server.Prelude.Bytes.{drop, drop-length}
use exchange_server.Framing.{Connection, Received}
use exchange_server.Framing.Serve.{Reads, Sendable, stream, serve, answers, serve-packets}
use exchange_server.Client.Requests.{Request, packet_of}
use exchange_server.Client.Worker.{Benchmark, rounds}
use exchange_server.Client.Choices.{Ranged, Readable, Ranged-Readable}
use exchange_server.Client.Bytes.{AreBytes}
use exchange_server.Client.Rounds.{Good, rounds-Requests}

append_cancel : (front bs cs : List ℕ) → front ++ bs ≡ front ++ cs → bs ≡ cs
append_cancel front bs cs e =
    sym (drop-length front bs) ∙ ap (drop (length front)) e ∙ drop-length front cs

All-Sendable : (qs : List Request) → All Ranged qs → All Sendable (map packet_of qs)
All-Sendable [] h = tt
All-Sendable (q ∷ qs) h = ((Ranged-Readable q h.0).0, All-Sendable qs h.1)

All-Readable : (qs : List Request) → All Ranged qs → All Readable qs
All-Readable [] h = tt
All-Readable (q ∷ qs) h = (Ranged-Readable q h.0, All-Readable qs h.1)

-- The server answers as many requests, each in its ranges and read as it was made.
abbrev pub Serves :
    {S : Type 0} → (S → ℕ → List ℕ → List ℕ × S) → List (List Received) → Connection S → ℕ → Type 0
Serves dispatch rss c n =
    (qs : List Request) × (length qs ≡ n)
    × All Ranged qs
    × All Readable qs
    × (serve dispatch rss c ≡ answers dispatch (map packet_of qs) c)

-- Where all rounds of a worker succeed, a server with nothing buffered that reads the bytes which they
-- sent, however these are divided among its reads and events, answers in order as many requests
-- as there were rounds: trades with a side of 0 or 1, at least one share, a price, and a cost below
-- 2^63, and requests of the other kinds, each of which its layouts read as the client made it. The
-- tickers are below 2^32, the ids below 2^64, and what arrives at the client is made of bytes, as
-- is the memory behind it.
pub rounds-Serves :
    {S : Type 0} (dispatch : S → ℕ → List ℕ → List ℕ × S) (junk : List ℕ) (rng micros : ℕ → ℕ)
    (mode : ℕ) (tickers : List ℕ) (n i : ℕ) (w : Benchmark) (bs : List ℕ)
    (rss : List (List Received)) (c : Connection S)
    → AreBytes junk
    → All (λ t. t < 2 ^ 32) tickers
    → Good w
    → (rounds junk rng micros mode tickers n i w).fail ≡ w.fail
    → (rounds junk rng micros mode tickers n i w).socket.sent ≡ w.socket.sent ++ bs
    → Reads rss bs
    → c.buffer ≡ []
    → Serves dispatch rss c n
rounds-Serves dispatch junk rng micros mode tickers n i w bs rss c clean small g steady sent reads
      empty =
    let (qs, size, ranged, made) =
      rounds-Requests junk clean rng micros mode tickers small n i w g steady in
    let same = append_cancel w.socket.sent bs (stream (map packet_of qs)) (sym sent ∙ made) in
    (
      qs,
      size,
      ranged,
      All-Readable qs ranged,
      serve-packets dispatch rss (map packet_of qs) c empty (All-Sendable qs ranged)
          (subst (Reads rss) same reads),
    )
