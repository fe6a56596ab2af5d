-- ===== src/OrderBook/Tests.antt =====
-- Runs of include/OrderBook.hpp on a small book, and the theorems at it.
use exchange_server.Prelude.{
  ◌+◌, ◌*◌, ℕ, none, some, List, [], ◌∷◌, ◌++◌, ◌≡◌, refl, arith, All, map,
}
use exchange_server.Common.{buy, MatchRecord}
use exchange_server.OrderBook.{
  Book, process_order, cancel_order, get_best_bid_offer, match_buy_order, match_level, match_levels,
}
use exchange_server.OrderBook.Example.{order, book, clock, book-IsValid, book-IsNew}
use exchange_server.OrderBook.Spec.{market_of, submit}
use exchange_server.OrderBook.Invariant.{IsValid}
use exchange_server.OrderBook.Process.{process_order-IsValid}
use exchange_server.OrderBook.Trades.{process_order-refines}
use exchange_server.OrderBook.Owed.{owed, due, process_order-owed}
use exchange_server.OrderBook.Shares.{shares, process_order-shares, Honours, process_order-Honours}
use exchange_server.OrderBook.Cancel.{Cancels, cancel_order-Cancels, cancel_order-large}

abbrev traded : MatchRecord → ℕ × ℕ × ℕ
traded r = (r.maker_order_id, r.match_price, r.match_quantity)

-- The order takes five at 100 and two at 101.
runs_buy : map traded (process_order clock 4 book).results ≡ (11, 100, 5) ∷ (12, 101, 2) ∷ []
unfolding process_order match_buy_order match_levels match_level
runs_buy = refl

best_after : get_best_bid_offer (process_order clock 4 book) ≡ (99, 101)
unfolding get_best_bid_offer process_order match_buy_order match_levels match_level
best_after = refl

-- Cancelling finds an order of the user alone, and by the low 32 bits of its id.
runs_cancel : (cancel_order 13 9 book).0 ≡ some 3
unfolding cancel_order
runs_cancel = refl

cancel_other : (cancel_order 13 8 book).0 ≡ none
unfolding cancel_order
cancel_other = refl

process_order-IsValid_example : IsValid (process_order clock 4 book)
process_order-IsValid_example = process_order-IsValid clock 4 book book-IsValid book-IsNew

process_order-refines_example :
    market_of (process_order clock 4 book) ≡ submit clock 1 (order 14 9 buy 101 7) (market_of book)
process_order-refines_example = process_order-refines clock 4 book book-IsValid book-IsNew

process_order-shares_example : shares (market_of (process_order clock 4 book)) ≡ 22
process_order-shares_example = process_order-shares clock 4 book book-IsValid book-IsNew

process_order-owed_example :
    (let c = process_order clock 4 book in owed 9 (market_of c).bids + due 9 c.results)
    ≡ 99 * 5 + 101 * 7
process_order-owed_example = process_order-owed 9 clock 4 book book-IsValid book-IsNew

process_order-Honours_example :
    (rs : List MatchRecord) × ((process_order clock 4 book).results ≡ [] ++ rs)
    × All (Honours (order 14 9 buy 101 7)) rs
process_order-Honours_example = process_order-Honours clock 4 book book-IsValid book-IsNew

cancel_order-Cancels_example : Cancels 13 9 book (some 3) (cancel_order 13 9 book)
cancel_order-Cancels_example = cancel_order-Cancels 13 9 book book-IsValid

-- The id that the generator gives an hour after its epoch.
abbrev late_book : Book
late_book = record book { active = (9, (15099494400000, 3) ∷ []) ∷ [] }

cancel_order-large_example : cancel_order 15099494400000 9 late_book ≡ (none, late_book)
cancel_order-large_example = cancel_order-large 15099494400000 9 late_book (omega arith)
