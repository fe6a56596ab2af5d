-- ===== src/OrderBook/Example.antt =====
-- A small book for the tests.
use exchange_server.Prelude.{ℕ, ◌+◌, ◌==◌, if◌then◌else◌, [], ◌∷◌, refl, sym, ◌∙◌, arith}
use exchange_server.Common.{OrderSide, buy, sell, Order}
use exchange_server.OrderBook.{Store, Book}
use exchange_server.OrderBook.Invariant.{IsValid}
use exchange_server.OrderBook.Match.{IsNew}
use exchange_server.OrderBook.Index.{entry_lem}
use exchange_server.OrderBook.Active.{IsIndexed}

abbrev pub order : ℕ → ℕ → OrderSide → ℕ → ℕ → Order
order id user side price quantity = record {
  order_id = id;
  ticker_id = 1;
  user_id = user;
  side = side;
  price = price;
  quantity = quantity;
  timestamp = 0;
}

-- Two asks and a bid rest; a buy order for seven at 101, at address 4, is new.
abbrev pub store : Store
store p =
    if p == 1
    then order 11 7 sell 100 5
    else if p == 2
    then order 12 8 sell 101 5
    else if p == 3
    then order 13 9 buy 99 5
    else order 14 9 buy 101 7

abbrev pub book : Book
book = record {
  ticker_id = 1;
  bids = (99, 3 ∷ []) ∷ [];
  asks = (100, 1 ∷ []) ∷ (101, 2 ∷ []) ∷ [];
  active = (7, (11, 1) ∷ []) ∷ (8, (12, 2) ∷ []) ∷ (9, (13, 3) ∷ []) ∷ [];
  store = store;
  results = [];
  ticks = 0;
}

abbrev pub clock : ℕ → ℕ
clock n = 1000 + n

pub book-IsValid : IsValid book
book-IsValid = record {
  bids = record {
    filled = tt;
    sorted = (tt, tt);
    rests = ((refl, refl, omega arith), tt);
    distinct = (tt, tt);
  };
  asks = record {
    filled = tt;
    sorted = ((refl, tt), (tt, tt));
    rests = ((refl, refl, omega arith), ((refl, refl, omega arith), tt));
    distinct = omega arith;
  };
  apart = omega arith;
  uncrossed = omega arith;
}

pub book-IsNew : IsNew 4 book
book-IsNew = record { bids = omega arith; asks = omega arith }

pub book-IsIndexed : IsIndexed book
book-IsIndexed = record {
  index = record {
    sound = λ u o p h. ground (arith, sym (entry_lem u o book.active) ∙ h);
    complete = λ p h. ground (arith, h, entry_lem (store p).user_id (store p).order_id book.active);
    unique = λ p q h k e. ground (arith, h, k, e);
  };
  once = λ u. ground arith;
}
