-- ===== src/Handlers/Trade.antt =====
-- What `TradeHandler` of include/Handler.hpp does with a buy order.
use exchange_server.Prelude.{
  ℕ, ◌*◌, ◌%◌, ◌^◌, ◌<◌, ◌==◌, Bool, true, false, some, List, [], ◌∷◌, length, ltb, if◌then◌else◌,
  ◌≡◌, refl, sym, ap, ◌∙◌, subst, arith, Bool-cases, inl, inr,
}
use exchange_server.Prelude.Int.{ℤ, pos, leb_ℤ}
use exchange_server.Prelude.Words.{as_int64, mul64, as_int64-mul64}
use exchange_server.Common.{Order}
use exchange_server.Accounts.{
  UserAccount, UserManager, get_account, put_account, try_freeze_balance,
}
use exchange_server.Accounts.Laws.{get_account-put}
use exchange_server.Accounts.Freeze.{
  frozen_by, try_freeze_balance-covered, try_freeze_balance-short,
}
use exchange_server.Wal.{append_order}
use exchange_server.Protocol
use exchange_server.Handlers.{Session, Server, is_logged_in, new_order, make_order, trade_handler}

module _ {Db : Type 0} (now_ms now : ℕ → ℕ) (s : Session) (req : List ℕ) (w : Server Db) where
  -- A request with a user, a whole payload and the side BUY.
  abbrev pub BuyRequest : Type 0
  BuyRequest =
      (is_logged_in s ≡ true)
      × (ltb (length req) Protocol.trade_request_size ≡ false)
      × ((Protocol.trade_request req).side ≡ 0)

  abbrev pub placed_order : Order
  placed_order = new_order now_ms now s (Protocol.trade_request req) w

  -- The request is accepted: the log gets an event with the new order, and the account the freeze.
  abbrev pub Accepted : ℤ → UserAccount → List ℕ × Session × Server Db → Type 0
  Accepted cost a out =
      (out.0 ≡ 1 ∷ [])
      × (out.2.log ≡ append_order w.next w.log)
      × (out.2.store w.next ≡ placed_order)
      × ((u : ℕ)
          → get_account u out.2.accounts
            ≡ (if s.user_id == u then some (frozen_by cost a) else get_account u w.accounts))

  -- The request is refused: nothing is logged and no account changes.
  abbrev pub Refused : List ℕ × Session × Server Db → Type 0
  Refused out = (out.0 ≡ 0 ∷ []) × (out.2.log ≡ w.log) × (out.2.accounts ≡ w.accounts)

  trade_handler-freeze :
      (ok : Bool) (m : UserManager)
      → BuyRequest
      → try_freeze_balance s.user_id
          (as_int64 (mul64 (Protocol.trade_request req).price (Protocol.trade_request req).amount))
          w.accounts
        ≡ (ok, m)
      → trade_handler now_ms now s req w ≡ (
        (if ok then 1 ∷ [] else 0 ∷ []),
        s,
        record (make_order now_ms now placed_order w) {
          accounts = m;
          log = if ok then append_order w.next w.log else w.log;
        },
      )
  unfolding trade_handler
  trade_handler-freeze true m (l, n, b) e = rw (trade_handler, l, n, b, e) refl
  trade_handler-freeze false m (l, n, b) e = rw (trade_handler, l, n, b, e) refl

  same_store : (o : Order) → (make_order now_ms now o w).store w.next ≡ o
  same_store o = ground arith

  trade_handler-covered :
      (a : UserAccount) (cost : ℤ)
      → BuyRequest
      → get_account s.user_id w.accounts ≡ some a
      → as_int64 (mul64 (Protocol.trade_request req).price (Protocol.trade_request req).amount)
        ≡ cost
      → leb_ℤ cost a.available_balance ≡ true
      → Accepted cost a (trade_handler now_ms now s req w)
  trade_handler-covered a cost b h e c =
      let m = put_account s.user_id (frozen_by cost a) w.accounts in
      let f =
        ap (λ x. try_freeze_balance s.user_id x w.accounts) e
        ∙ try_freeze_balance-covered s.user_id cost w.accounts a h c in
      subst (λ out. Accepted cost a out) (sym (trade_handler-freeze true m b f))
        (
          refl,
          refl,
          same_store placed_order,
          λ u. get_account-put s.user_id u (frozen_by cost a) w.accounts,
        )

  -- A buy order of a user with an account, whose cost is below 2^63, is accepted exactly when the
  -- available balance covers price times amount, which is then frozen while the order is logged with
  -- the request's fields; else it is refused, and nothing is logged or frozen.
  pub trade_handler-buy :
      (a : UserAccount)
      → BuyRequest
      → get_account s.user_id w.accounts ≡ some a
      → (Protocol.trade_request req).price * (Protocol.trade_request req).amount < 2 ^ 63
      → (let r = Protocol.trade_request req in
          let cost = pos (r.price * r.amount) in
          let out = trade_handler now_ms now s req w in
          if leb_ℤ cost a.available_balance then Accepted cost a out else Refused out)
  trade_handler-buy a b h small =
      let r = Protocol.trade_request req in
      let cost = pos (r.price * r.amount) in
      let e = as_int64-mul64 r.price r.amount small in
      elim (Bool-cases (leb_ℤ cost a.available_balance)) [
        | inl c ↦ rw c (trade_handler-covered a cost b h e c)
        | inr c ↦
            let f =
              ap (λ x. try_freeze_balance s.user_id x w.accounts) e
              ∙ try_freeze_balance-short s.user_id cost w.accounts a h c in
            rw c (
              subst (λ out. Refused out) (sym (trade_handler-freeze false w.accounts b f))
                (refl, refl, refl))
      ]

  wrapped_cost : (n : ℕ) → n % 2 ^ 64 ≡ 0 → as_int64 (n % 2 ^ 64) ≡ pos 0
  wrapped_cost n h = rw h refl

  -- A buy order whose price times amount is a multiple of 2^64 is accepted from a user whose balance
  -- is not negative, and the amount frozen for it is zero.
  pub trade_handler-wraps :
      (a : UserAccount)
      → BuyRequest
      → get_account s.user_id w.accounts ≡ some a
      → (Protocol.trade_request req).price * (Protocol.trade_request req).amount % 2 ^ 64 ≡ 0
      → leb_ℤ (pos 0) a.available_balance ≡ true
      → Accepted (pos 0) a (trade_handler now_ms now s req w)
  trade_handler-wraps a b h wraps c =
      let r = Protocol.trade_request req in
      trade_handler-covered a (pos 0) b h (wrapped_cost (r.price * r.amount) wraps) c
