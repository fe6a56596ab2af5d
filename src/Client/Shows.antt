-- ===== src/Client/Shows.antt =====
-- What `view_root_stocks` of src/client/client.cpp shows of the replies of include/Handler.hpp.
use exchange_server.Prelude.{
  ℕ, zero, suc, ◌^◌, ◌<◌, ◌≤◌, some, true, List, [], ◌∷◌, ◌++◌, map, length, ◌≡◌, ◌≢◌, refl, sym,
  ap, ◌∙◌, subst, arith, All, append_assoc,
}
use exchange_server.Prelude.Int.{ℤ, pos, negsuc}
use exchange_server.Prelude.Bytes.{take, drop, to_le}
use exchange_server.Prelude.Texts.{codes}
use exchange_server.Prelude.Names.{Name}
use exchange_server.Accounts.{get_holdings}
use exchange_server.Tickers.{TickerManager}
use exchange_server.Repositories.{StockRepository}
use exchange_server.Protocol.{
  value_response, c_string, text_field, stock_item, holding_item, quantity_code, list_header,
}
use exchange_server.Handlers.{Session, Server, is_logged_in}
use exchange_server.Handlers.Queries.{
  concat_map, held, symbol_to_ticker_id, get_holdings_handler, get_all_stocks_handler,
}
use exchange_server.Client.{max_body}
use exchange_server.Framing.{reply_packet}
use exchange_server.Client.Receive.{stream, NonEmpty}
use exchange_server.Client.Requests.{Request, login, holdings, all_stocks}
use exchange_server.Client.Socket.{Socket, send_on, ask}
use exchange_server.Client.Rounds.{send_on-arrived}
use exchange_server.Client.Replies.{
  ReceivesReply, recv_on-reply_packet, from_le8, from_le4, drop-text_field, length-stock_items,
}
use exchange_server.Client.View.{
  shown, view_root_stocks, shows, after_login, StockItem, HoldingItem, stocks_at, holdings_at,
  rows_of, stocks_in, rows_in,
}

-- A symbol that fits its field: at most 15 bytes, none of them a NUL.
abbrev pub Fits : Name → Type 0
Fits s = (length s ≤ 15) × All (λ c. c ≢ 0) s

c_string-text_field :
    (n : ℕ) (cs : Name) (rest : List ℕ)
    → length cs ≤ n
    → All (λ c. c ≢ 0) cs
    → c_string (take (suc n) (text_field n cs ++ 0 ∷ rest)) ≡ cs
c_string-text_field zero [] rest h k = refl
c_string-text_field zero (c ∷ cs) rest h k = ground (arith, h)
c_string-text_field (suc n) [] rest h k = refl
c_string-text_field (suc n) (c ∷ cs) rest h k =
    ground (arith, k.0, c_string-text_field n cs rest (omega (arith, h)) k.1)

abbrev pub item_of : (Name → ℕ) → Name → StockItem
item_of id s = record { ticker_id = id s; symbol = s }

stocks_at-concat_map :
    (id : Name → ℕ) (ss : List Name) (rest : List ℕ)
    → All (λ s. (id s < 2 ^ 32) × Fits s) ss
    → stocks_at (length ss) (concat_map (λ s. stock_item (id s) s) ss ++ rest) ≡ map (item_of id) ss
stocks_at-concat_map id [] rest h = refl
stocks_at-concat_map id (s ∷ ss) rest h =
    let more = concat_map (λ s. stock_item (id s) s) ss in
    let split =
      append_assoc (text_field 15 s ++ 0 ∷ []) more rest
      ∙ append_assoc (text_field 15 s) (0 ∷ []) (more ++ rest) in
    let behind = ap (drop 16) split ∙ drop-text_field 15 0 s (more ++ rest) in
    let text =
      ap (λ bs. c_string (take 16 bs)) split
      ∙ c_string-text_field 15 s (more ++ rest) h.0.1.0 h.0.1.1 in
    rw (behind, text, from_le4 (id s) [] h.0.0, stocks_at-concat_map id ss rest h.1) refl

quantity_code-small : (z : ℤ) → quantity_code z < 2 ^ 32
quantity_code-small (pos n) = omega arith
quantity_code-small (negsuc n) = omega arith

abbrev pub holding_of : ℕ × ℤ → HoldingItem
holding_of h = record { ticker_id = h.0; quantity = quantity_code h.1 }

holdings_at-concat_map :
    (hs : List (ℕ × ℤ)) (rest : List ℕ)
    → All (λ (h : ℕ × ℤ). h.0 < 2 ^ 32) hs
    → holdings_at (length hs) (concat_map holding_item hs ++ rest) ≡ map holding_of hs
holdings_at-concat_map [] rest k = refl
holdings_at-concat_map (h ∷ hs) rest k =
    rw
      (
        from_le4 h.0 [] k.0,
        from_le4 (quantity_code h.1) [] (quantity_code-small h.1),
        holdings_at-concat_map hs rest k.1,
      )
      refl

length-holding_items : (hs : List (ℕ × ℤ)) → length hs ≤ length (concat_map holding_item hs)
length-holding_items [] = omega arith
length-holding_items (h ∷ hs) = omega (arith, length-holding_items hs)

module _ (junk : List ℕ) where
  stocks_in-list_header :
      (id : Name → ℕ) (ss : List Name)
      → length ss < 2 ^ 32
      → All (λ s. (id s < 2 ^ 32) × Fits s) ss
      → stocks_in junk
          (some (list_header 1 (length ss) ++ concat_map (λ s. stock_item (id s) s) ss))
        ≡ some (map (item_of id) ss)
  unfolding stocks_in
  stocks_in-list_header id ss h k =
      ground (arith, from_le4 (length ss) [] h, stocks_at-concat_map id ss junk k)

  rows_in-list_header :
      (stocks : List StockItem) (hs : List (ℕ × ℤ))
      → length hs < 2 ^ 32
      → All (λ (h : ℕ × ℤ). h.0 < 2 ^ 32) hs
      → rows_in junk stocks (some (list_header 1 (length hs) ++ concat_map holding_item hs))
        ≡ some (rows_of stocks (map holding_of hs))
  unfolding rows_in
  rows_in-list_header stocks hs h k =
      ground (arith, from_le4 (length hs) [] h, holdings_at-concat_map hs junk k)

-- A request that is sent whole gets the reply that comes next.
ask-reply_packet :
    (q : Request) (s : Socket) (type c : ℕ) (reply rest : List ℕ)
    → (send_on q s).0 ≡ true
    → All NonEmpty s.arrived
    → stream s.arrived ≡ reply_packet type (c ∷ reply) ++ rest
    → length (c ∷ reply) ≤ max_body
    → ReceivesReply (c ∷ reply) rest (ask q s)
ask-reply_packet q s type c reply rest ok full e h =
    let same = send_on-arrived q s in
    rw ok (
      recv_on-reply_packet (send_on q s).1 type c reply rest
        (subst (λ cs. All NonEmpty cs) (sym same) full) (ap stream same ∙ e) h)

abbrev pub root_login : Request
root_login = login (codes "root") (codes "root")

-- The three requests are sent whole.
pub record SendsAll (s : Socket) : Type 0 where
  pub sends_login : (send_on root_login s).0 ≡ true
  pub sends_stocks : (send_on all_stocks (ask root_login s).1).0 ≡ true
  pub sends_holdings : (send_on holdings (ask all_stocks (ask root_login s).1).1).0 ≡ true

module _ {Db : Type 0} (junk : List ℕ) (s : Socket) (sends : SendsAll s)
    (full : All NonEmpty s.arrived) (uid : ℕ) (rest : List ℕ) (stocks : StockRepository Db)
    (tickers : TickerManager) (u : Session) (req : List ℕ) (w : Server Db) where
  abbrev pub symbols : List Name
  symbols = stocks.get_all_stocks w.db

  abbrev pub ticker_of : Name → ℕ
  ticker_of symbol = symbol_to_ticker_id symbol tickers

  abbrev pub shares : List (ℕ × ℤ)
  shares = held (get_holdings u.user_id w.accounts)

  abbrev pub stocks_reply : List ℕ
  stocks_reply =
      list_header 1 (length symbols) ++ concat_map (λ s. stock_item (ticker_of s) s) symbols

  abbrev pub holdings_reply : List ℕ
  holdings_reply = list_header 1 (length shares) ++ concat_map holding_item shares

  view_shows :
      uid < 2 ^ 64
      → All (λ s. (ticker_of s < 2 ^ 32) × Fits s) symbols
      → All (λ (h : ℕ × ℤ). h.0 < 2 ^ 32) shares
      → length stocks_reply ≤ max_body
      → length holdings_reply ≤ max_body
      → stream s.arrived
        ≡ reply_packet 1003 (value_response 1 uid)
          ++ (reply_packet 4011 stocks_reply ++ (reply_packet 4001 holdings_reply ++ rest))
      → view_root_stocks junk (some s)
        ≡ shown (record {
          user_id = uid;
          stocks = some (map (item_of ticker_of) symbols);
          rows = some (rows_of (map (item_of ticker_of) symbols) (map holding_of shares));
        })
  unfolding view_root_stocks
  view_shows small fits held_small short1 short2 cut =
      let third = reply_packet 4001 holdings_reply ++ rest in
      let second = reply_packet 4011 stocks_reply ++ third in
      let r =
        ask-reply_packet root_login s 1003 1 (to_le 8 uid) second sends.sends_login full cut
          (omega arith) in
      let l =
        ask-reply_packet all_stocks (ask root_login s).1 4011 1
          (to_le 4 (length symbols) ++ concat_map (λ s. stock_item (ticker_of s) s) symbols) third
          sends.sends_stocks r.2 r.1 short1 in
      let h =
        ask-reply_packet holdings (ask all_stocks (ask root_login s).1).1 4001 1
          (to_le 4 (length shares) ++ concat_map holding_item shares) rest sends.sends_holdings l.2
          l.1 short2 in
      let items = map (item_of ticker_of) symbols in
      let found =
        stocks_in-list_header junk ticker_of symbols
          (omega (arith, short1, length-stock_items ticker_of symbols)) fits in
      let table =
        rows_in-list_header junk items shares (omega (arith, short2, length-holding_items shares))
          held_small in
      ap (λ o. after_login junk o (ask root_login s).1) r.0
      ∙ ap
          (λ n.
            shows junk n (stocks_in junk (ask all_stocks (ask root_login s).1).0)
              (ask holdings (ask all_stocks (ask root_login s).1).1).0)
          (from_le8 uid [] small)
      ∙ ap
          (λ o.
            shows junk uid (stocks_in junk o)
              (ask holdings (ask all_stocks (ask root_login s).1).1).0)
          l.0
      ∙ ap (λ o. shows junk uid o (ask holdings (ask all_stocks (ask root_login s).1).1).0) found
      ∙ ap (λ o. shows junk uid (some items) o) h.0
      ∙ ap (λ o. shown (record { user_id = uid; stocks = some items; rows = o })) table

  -- The tool for viewing shows the id of the user, the tickers and symbols of the server's stocks, and
  -- the user's holdings under the symbol of the first stock with their ticker, where its three
  -- requests are sent whole, the user is logged in, and what arrives, however it is cut into pieces,
  -- is the acceptance of the login and the server's two replies. Each of the replies is at most 2^20
  -- bytes long, the id is below 2^64, the tickers are below 2^32, and a symbol has at most 15 bytes,
  -- none of them a NUL. A quantity is shown as it is stored in 32 bits.
  pub view_root_stocks-get_holdings_handler :
      is_logged_in u ≡ true
      → uid < 2 ^ 64
      → All (λ s. (ticker_of s < 2 ^ 32) × Fits s) symbols
      → All (λ (h : ℕ × ℤ). h.0 < 2 ^ 32) shares
      → length (get_all_stocks_handler stocks tickers u req w).0 ≤ max_body
      → length (get_holdings_handler u req w).0 ≤ max_body
      → stream s.arrived
        ≡ reply_packet 1003 (value_response 1 uid)
          ++ (reply_packet 4011 (get_all_stocks_handler stocks tickers u req w).0
              ++ (reply_packet 4001 (get_holdings_handler u req w).0 ++ rest))
      → view_root_stocks junk (some s)
        ≡ shown (record {
          user_id = uid;
          stocks = some (map (item_of ticker_of) symbols);
          rows = some (rows_of (map (item_of ticker_of) symbols) (map holding_of shares));
        })
  unfolding get_all_stocks_handler get_holdings_handler
  view_root_stocks-get_holdings_handler here small fits held_small short1 short2 cut =
      let reply_eq : (get_holdings_handler u req w).0 ≡ holdings_reply = ground (arith, here) in
      view_shows small fits held_small short1 (subst (λ bs. length bs ≤ max_body) reply_eq short2) (
        cut
        ∙ ap
            (λ bs.
              reply_packet 1003 (value_response 1 uid)
              ++ (reply_packet 4011 stocks_reply ++ (reply_packet 4001 bs ++ rest)))
            reply_eq)
