-- ===== src/Common.antt =====
-- include/Common.hpp: the orders and the records that the components exchange.
use exchange_server.Prelude.{ℕ}

pub data OrderSide : Type 0 where
  buy sell : OrderSide

pub record Order : Type 0 where
  pub order_id : ℕ
  pub ticker_id : ℕ
  pub user_id : ℕ
  pub side : OrderSide
  pub price : ℕ
  pub quantity : ℕ
  pub timestamp : ℕ

pub record MatchRecord : Type 0 where
  pub ticker_id : ℕ
  pub maker_order_id : ℕ
  pub taker_order_id : ℕ
  pub buyer_user_id : ℕ
  pub sell_user_id : ℕ
  pub buyer_expected_price : ℕ
  pub match_price : ℕ
  pub match_quantity : ℕ
  pub timestamp : ℕ

pub record CancelRecord : Type 0 where
  pub ticker_id : ℕ
  pub order_id : ℕ
  pub user_id : ℕ
  pub side : OrderSide
  pub price : ℕ
  pub quantity : ℕ
  pub timestamp : ℕ
