-- ===== src/Settlement/Lifecycle.antt =====
-- A buy order's money from the freeze to the last fill or the cancellation: include/Handler.hpp
-- freezes price times quantity, include/SettlementProcessor.hpp gives it out again.
use exchange_server.Prelude.{
  ℕ, ◌+◌, ◌-◌, ◌*◌, ◌^◌, ◌≤◌, ◌<◌, Bool, true, none, List, [], ◌∷◌, ◌≡◌, ◌≢◌, refl, subst, sym, ◌∙◌,
  ap, arith, All,
}
use exchange_server.Prelude.Int.{ℤ, pos, ◌+ℤ◌, ◌-ℤ◌, int_laws, pos_add}
use exchange_server.Prelude.Modulo.{
  FitsInt64, Moved, Moved-none, Moved-trans, Moved-exact, wrap64-add_Moved,
}
use exchange_server.Prelude.Words.{sub64, mul64, as_int64, as_int32, as_int64-mul64}
use exchange_server.Common.{buy, MatchRecord, CancelRecord}
use exchange_server.Accounts.{
  UserManager, get_account, commit_buy, unfreeze_balance, try_freeze_balance,
}
use exchange_server.Accounts.Frozen.{
  frozen_of, frozen_of-commit_buy, frozen_of-commit_sell, frozen_of-unfreeze_balance,
  frozen_of-freeze, commit_buy_exists, commit_sell_exists,
}
use exchange_server.Tickers.{TickerManager}
use exchange_server.Repositories.{UserRepository, StockRepository}
use exchange_server.Settlement.{
  Holders, settle_match, settle_matches, settle_cancels, settle_round, unfreeze_order,
}

-- What a fill takes from the frozen balance is the order's price for each share.
parts_of_price :
    (p k q : ℕ)
    → (p + k) * q < 2 ^ 63
    → as_int64 (mul64 p q) +ℤ as_int64 (mul64 k q) ≡ pos ((p + k) * q)
unfolding ◌+ℤ◌
parts_of_price p k q h =
    rw (as_int64-mul64 p q (grind arith), as_int64-mul64 k q (grind arith)) (grind arith)

sub64_le : (a b : ℕ) → b ≤ a → sub64 a b ≡ a - b
sub64_le a b h = ground arith

money_of_fill :
    (limit p q : ℕ)
    → p ≤ limit
    → limit * q < 2 ^ 63
    → as_int64 (mul64 p q) +ℤ as_int64 (mul64 (sub64 limit p) q) ≡ pos (limit * q)
money_of_fill limit p q h b =
    let e : limit ≡ p + (limit - p) = omega arith in
    rw (sub64_le limit p h)
      (parts_of_price p (limit - p) q (rw (← e) b) ∙ ap (λ (x : ℕ). pos (x * q)) (sym e))

give_back :
    (a : ℤ) (l f q : ℕ) → a -ℤ (pos 0 -ℤ pos (l * (f + q)) +ℤ pos (l * f) +ℤ pos (l * q)) ≡ a
give_back a l f q = omega int_laws

module _ {Db : Type 0} (users : UserRepository Db) (stocks : StockRepository Db)
    (tickers : TickerManager) (uid limit : ℕ) where
  -- A fill of a buy order of `uid` at `limit` for `q` shares of the rest.
  abbrev pub FillOf : MatchRecord → Type 0
  FillOf r =
      (r.buyer_user_id ≡ uid)
      × (r.buyer_expected_price ≡ limit)
      × (r.match_price ≤ limit)
      × (limit * r.match_quantity < 2 ^ 63)

  -- What the fills take from the frozen balance.
  abbrev pub spent : List MatchRecord → ℤ
  spent [] = pos 0
  spent (r ∷ rs) = pos (limit * r.match_quantity) +ℤ spent rs

  module _ (r : MatchRecord) (h : Holders Db) (fill : FillOf r)
      (there : get_account uid h.accounts ≢ none) where
    abbrev money : ℤ
    money = as_int64 (mul64 r.match_price r.match_quantity)

    abbrev refund : ℕ → ℤ
    refund expected = as_int64 (mul64 (sub64 expected r.match_price) r.match_quantity)

    abbrev qty : ℤ
    qty = as_int32 r.match_quantity

    abbrev bought : ℕ → ℕ → UserManager
    bought buyer expected = commit_buy buyer r.ticker_id money qty (refund expected) h.accounts

    pub settled_exists : get_account uid (settle_match users stocks tickers r h).accounts ≢ none
    unfolding settle_match
    settled_exists =
        commit_sell_exists uid r.sell_user_id r.ticker_id money qty
          (bought r.buyer_user_id r.buyer_expected_price)
          (commit_buy_exists uid r.buyer_user_id r.ticker_id money qty
            (refund r.buyer_expected_price) h.accounts there)

    -- The fill takes the order's price for each share from the frozen balance.
    pub frozen_of-settle_match :
        Moved
          (pos (limit * r.match_quantity))
          (frozen_of uid h.accounts)
          (frozen_of uid (settle_match users stocks tickers r h).accounts)
    unfolding settle_match
    frozen_of-settle_match =
        let F = frozen_of uid h.accounts in
        let after : frozen_of uid (settle_match users stocks tickers r h).accounts
            ≡ frozen_of uid (bought uid limit) =
          frozen_of-commit_sell uid r.sell_user_id r.ticker_id money qty
            (bought r.buyer_user_id r.buyer_expected_price)
          ∙ ap (λ b. frozen_of uid (bought b r.buyer_expected_price)) fill.0
          ∙ ap (λ e. frozen_of uid (bought uid e)) fill.1 in
        subst (λ z. Moved (pos (limit * r.match_quantity)) F z) (sym after)
          (subst (λ x. Moved x F (frozen_of uid (bought uid limit)))
            (money_of_fill limit r.match_price r.match_quantity fill.2 fill.3)
            (frozen_of-commit_buy uid h.accounts there r.ticker_id money qty (refund limit)))

  frozen_of-settle_matches :
      (rs : List MatchRecord) (h : Holders Db)
      → All FillOf rs
      → get_account uid h.accounts ≢ none
      → Moved
          (spent rs)
          (frozen_of uid h.accounts)
          (frozen_of uid (settle_matches users stocks tickers rs h).accounts)
        × (get_account uid (settle_matches users stocks tickers rs h).accounts ≢ none)
  unfolding settle_matches
  frozen_of-settle_matches [] h fills there =
      let F = frozen_of uid h.accounts in (Moved-none F F refl, there)
  frozen_of-settle_matches (r ∷ rs) h fills there =
      let next = settle_match users stocks tickers r h in
      let last = settle_matches users stocks tickers rs next in
      let rest = frozen_of-settle_matches rs next fills.1 (settled_exists r h fills.0 there) in
      (
        Moved-trans (pos (limit * r.match_quantity)) (spent rs) (frozen_of uid h.accounts)
            (frozen_of uid next.accounts) (frozen_of uid last.accounts)
            (frozen_of-settle_match r h fills.0 there) rest.0,
        rest.1,
      )

  -- The shares of the fills.
  abbrev pub filled : List MatchRecord → ℕ
  filled [] = 0
  filled (r ∷ rs) = r.match_quantity + filled rs

  spent-filled : (rs : List MatchRecord) → spent rs ≡ pos (limit * filled rs)
  spent-filled [] = ap (λ (n : ℕ). pos n) (omega arith)
  spent-filled (r ∷ rs) =
      ap (λ z. pos (limit * r.match_quantity) +ℤ z) (spent-filled rs)
      ∙ pos_add (limit * r.match_quantity) (limit * filled rs)
      ∙ ap (λ (n : ℕ). pos n) (omega arith)

  -- The freeze that include/Handler.hpp makes for `quantity` shares.
  abbrev pub frozen_for : ℕ → Holders Db → Bool × UserManager
  frozen_for quantity h = try_freeze_balance uid (as_int64 (mul64 limit quantity)) h.accounts

  -- A buy order for `filled rs` shares and those of `c` at `limit`, whose cost is below 2^63 and
  -- was frozen, and which is then filled by the trades `rs` within the limit and cancelled by `c`,
  -- leaves its owner's frozen balance, a number of type `int64_t`, as it was before the freeze,
  -- whoever sold.
  pub freeze_settle_cancel :
      (rs : List MatchRecord) (c : CancelRecord) (h : Holders Db)
      → FitsInt64 (frozen_of uid h.accounts)
      → All FillOf rs
      → (c.side ≡ buy) × (c.user_id ≡ uid) × (c.price ≡ limit)
      → limit * (filled rs + c.quantity) < 2 ^ 63
      → (frozen_for (filled rs + c.quantity) h).0 ≡ true
      → frozen_of uid
          (settle_round users stocks tickers rs
            (c ∷ [])
            (record h { accounts = (frozen_for (filled rs + c.quantity) h).1 })).accounts
        ≡ frozen_of uid h.accounts
  unfolding settle_round settle_cancels
  freeze_settle_cancel rs c h fits fills own bound ok =
      let n = filled rs + c.quantity in
      let start : Holders Db = record h { accounts = (frozen_for n h).1 } in
      let m = (settle_matches users stocks tickers rs start).accounts in
      let F = frozen_of uid h.accounts in
      let S = frozen_of uid start.accounts in
      let cost = as_int64 (mul64 limit n) in
      let first = frozen_of-freeze uid cost h.accounts ok in
      let frozen : Moved (pos 0 -ℤ pos (limit * n)) F S =
        subst (λ z. Moved (pos 0 -ℤ z) F S) (as_int64-mul64 limit n bound)
          (subst (λ z. Moved (pos 0 -ℤ cost) F z) (sym first.0) (wrap64-add_Moved cost F)) in
      let second = frozen_of-settle_matches rs start fills first.1 in
      let filled_all : Moved (pos (limit * filled rs)) S (frozen_of uid m) =
        subst (λ x. Moved x S (frozen_of uid m)) (spent-filled rs) second.0 in
      let back = as_int64 (mul64 limit c.quantity) in
      let L = frozen_of uid (unfreeze_balance uid back m) in
      let third : Moved (pos (limit * c.quantity)) (frozen_of uid m) L =
        subst (λ x. Moved x (frozen_of uid m) L) (as_int64-mul64 limit c.quantity (omega arith))
          (frozen_of-unfreeze_balance uid m second.1 back) in
      let x = pos 0 -ℤ pos (limit * n) in
      let y = pos (limit * filled rs) in
      let z = pos (limit * c.quantity) in
      let all : Moved (x +ℤ y +ℤ z) F L =
        Moved-trans (x +ℤ y) z F (frozen_of uid m) L
          (Moved-trans x y F S (frozen_of uid m) frozen filled_all) third in
      ap (λ s. frozen_of uid (unfreeze_order s c m)) own.0
      ∙ ap (λ u. frozen_of uid (unfreeze_balance u (as_int64 (mul64 c.price c.quantity)) m)) own.1
      ∙ ap (λ p. frozen_of uid (unfreeze_balance uid (as_int64 (mul64 p c.quantity)) m)) own.2
      ∙ Moved-exact (x +ℤ y +ℤ z) F L F all fits (give_back F limit (filled rs) c.quantity) fits
