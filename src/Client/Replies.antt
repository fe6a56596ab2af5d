-- ===== src/Client/Replies.antt =====
-- The lists that src/client/client.cpp reads from the replies of include/Handler.hpp.
use exchange_server.Prelude.{
  ℕ, zero, suc, Option, some, true, ◌^◌, ◌<◌, ◌≤◌, List, [], ◌∷◌, ◌++◌, map, length, ◌≡◌, refl, sym,
  ap, ◌∙◌, subst, arith, All, append_assoc, length-append,
}
use exchange_server.Prelude.Bytes.{to_le, from_le, drop}
use exchange_server.Prelude.Names.{Name}
use exchange_server.Common.{Order}
use exchange_server.Protocol.{text_field, order_item, stock_item, list_header}
use exchange_server.Handlers.{Session, Server, is_logged_in}
use exchange_server.Handlers.Queries.{
  concat_map, get_orders_handler, get_all_stocks_handler, symbol_to_ticker_id,
}
use exchange_server.Engine.{Engine, engine_user_active_order}
use exchange_server.Framing.{reply_packet}
use exchange_server.Client.{max_body}
use exchange_server.Client.Receive.{stream, NonEmpty, recv_pkt-reply_packet}
use exchange_server.Tickers.{TickerManager}
use exchange_server.Repositories.{StockRepository}
use exchange_server.Client.Socket.{Socket, recv_on, tickers_at, orders_at, orders_in, tickers_in}

pub drop-text_field :
    (n b : ℕ) (cs : Name) (rest : List ℕ) → drop (suc n) (text_field n cs ++ b ∷ rest) ≡ rest
drop-text_field zero b cs rest = refl
drop-text_field (suc n) b [] rest = drop-text_field n b [] rest
drop-text_field (suc n) b (c ∷ cs) rest = drop-text_field n b cs rest

pub from_le4 : (n : ℕ) (rest : List ℕ) → n < 2 ^ 32 → from_le 4 (to_le 4 n ++ rest) ≡ n
from_le4 n rest h = omega (arith, h)

pub from_le8 : (n : ℕ) (rest : List ℕ) → n < 2 ^ 64 → from_le 8 (to_le 8 n ++ rest) ≡ n
from_le8 n rest h = omega (arith, h)

orders_at-concat_map :
    (os : List Order) (rest : List ℕ)
    → All (λ (o : Order). o.order_id < 2 ^ 64) os
    → orders_at (length os) (concat_map order_item os ++ rest) ≡ map (λ (o : Order). o.order_id) os
orders_at-concat_map [] rest h = refl
orders_at-concat_map (o ∷ os) rest h =
    rw (from_le8 o.order_id [] h.0, orders_at-concat_map os rest h.1) refl

tickers_at-concat_map :
    (id : Name → ℕ) (ss : List Name) (rest : List ℕ)
    → All (λ s. id s < 2 ^ 32) ss
    → tickers_at (length ss) (concat_map (λ s. stock_item (id s) s) ss ++ rest) ≡ map id ss
tickers_at-concat_map id [] rest h = refl
tickers_at-concat_map id (s ∷ ss) rest h =
    let more = concat_map (λ s. stock_item (id s) s) ss in
    let behind =
      ap (drop 16) (
        append_assoc (text_field 15 s ++ 0 ∷ []) more rest
        ∙ append_assoc (text_field 15 s) (0 ∷ []) (more ++ rest))
      ∙ drop-text_field 15 0 s (more ++ rest) in
    rw (behind, from_le4 (id s) [] h.0, tickers_at-concat_map id ss rest h.1) refl

length-order_items : (os : List Order) → length os ≤ length (concat_map order_item os)
length-order_items [] = omega arith
length-order_items (o ∷ os) = omega (arith, length-order_items os)

pub length-stock_items :
    (id : Name → ℕ) (ss : List Name) → length ss ≤ length (concat_map (λ s. stock_item (id s) s) ss)
length-stock_items id [] = omega arith
length-stock_items id (s ∷ ss) =
    let more = concat_map (λ s. stock_item (id s) s) ss in
    omega (arith, length-stock_items id ss, length-append (text_field 15 s ++ 0 ∷ []) more)

-- The client receives the reply whole, and what follows it is left.
abbrev pub ReceivesReply : List ℕ → List ℕ → Option (List ℕ) × Socket → Type 0
ReceivesReply reply rest r =
    (r.0 ≡ some reply) × (stream r.1.arrived ≡ rest) × All NonEmpty r.1.arrived

pub recv_on-reply_packet :
    (s : Socket) (type c : ℕ) (reply rest : List ℕ)
    → All NonEmpty s.arrived
    → stream s.arrived ≡ reply_packet type (c ∷ reply) ++ rest
    → length (c ∷ reply) ≤ max_body
    → ReceivesReply (c ∷ reply) rest (recv_on s)
unfolding recv_on
recv_on-reply_packet s type c reply rest full e h =
    let got = recv_pkt-reply_packet s.arrived type c reply rest full e h in
    rw (recv_on, got.got) (refl, got.stream_eq, got.pieces)

module _ (junk : List ℕ) where
  orders_in-list_header :
      (os : List Order)
      → length os < 2 ^ 32
      → All (λ (o : Order). o.order_id < 2 ^ 64) os
      → orders_in junk (list_header 1 (length os) ++ concat_map order_item os)
        ≡ map (λ (o : Order). o.order_id) os
  unfolding orders_in
  orders_in-list_header os h ids = rw (from_le4 (length os) [] h) (orders_at-concat_map os junk ids)

  tickers_in-list_header :
      (id : Name → ℕ) (ss : List Name)
      → length ss < 2 ^ 32
      → All (λ s. id s < 2 ^ 32) ss
      → tickers_in junk (list_header 1 (length ss) ++ concat_map (λ s. stock_item (id s) s) ss)
        ≡ map id ss
  unfolding tickers_in
  tickers_in-list_header id ss h ids =
      ground (arith, from_le4 (length ss) [] h, tickers_at-concat_map id ss junk ids)

module _ {Db : Type 0} (junk : List ℕ) (sock : Socket) (full : All NonEmpty sock.arrived)
    (rest : List ℕ) (s : Session) (req : List ℕ) (w : Server Db) where
  -- However the reply to a request for the active orders of a user who is logged in was cut into
  -- pieces, the client reads from it the ids of these orders, in their order; the reply is at most
  -- 2^20 bytes long, the ids are below 2^64, and what follows the reply in the stream is left.
  pub orders_in-get_orders_handler :
      (e : Engine)
      → is_logged_in s ≡ true
      → All (λ (o : Order). o.order_id < 2 ^ 64) (engine_user_active_order s.user_id e)
      → length (get_orders_handler e s req w).0 ≤ max_body
      → stream sock.arrived ≡ reply_packet 4005 (get_orders_handler e s req w).0 ++ rest
      → ReceivesReply (get_orders_handler e s req w).0 rest (recv_on sock)
        × (orders_in junk (get_orders_handler e s req w).0
            ≡ map (λ (o : Order). o.order_id) (engine_user_active_order s.user_id e))
  unfolding get_orders_handler orders_in
  orders_in-get_orders_handler e h ids fits cut =
      let os = engine_user_active_order s.user_id e in
      let reply_eq : (get_orders_handler e s req w).0
          ≡ list_header 1 (length os) ++ concat_map order_item os =
        ground (arith, h) in
      let items = length-order_items os in
      subst
        (λ reply.
          length reply ≤ max_body
          → stream sock.arrived ≡ reply_packet 4005 reply ++ rest
          → ReceivesReply reply rest (recv_on sock)
            × (orders_in junk reply ≡ map (λ (o : Order). o.order_id) os))
        (sym reply_eq)
        (λ short cut. (
          recv_on-reply_packet sock 4005 1 (to_le 4 (length os) ++ concat_map order_item os) rest
              full cut short,
          orders_in-list_header junk os (omega (arith, short, items)) ids,
        ))
        fits cut

  -- The same for the tickers of all stocks, which fit 32 bits.
  tickers_in-get_all_stocks_handler :
      (stocks : StockRepository Db) (tickers : TickerManager)
      → let symbols = stocks.get_all_stocks w.db in
        let id = λ (symbol : Name). symbol_to_ticker_id symbol tickers in
        let reply = (get_all_stocks_handler stocks tickers s req w).0 in
        All (λ symbol. id symbol < 2 ^ 32) symbols
        → length reply ≤ max_body
        → stream sock.arrived ≡ reply_packet 4011 reply ++ rest
        → ReceivesReply reply rest (recv_on sock) × (tickers_in junk reply ≡ map id symbols)
  unfolding get_all_stocks_handler
  tickers_in-get_all_stocks_handler stocks tickers ids fits cut =
      let symbols = stocks.get_all_stocks w.db in
      let id = λ (symbol : Name). symbol_to_ticker_id symbol tickers in
      let items = length-stock_items id symbols in
      (
        recv_on-reply_packet sock 4011 1
            (to_le 4 (length symbols) ++ concat_map (λ s. stock_item (id s) s) symbols) rest full
            cut fits,
        tickers_in-list_header junk id symbols (omega (arith, fits, items)) ids,
      )
