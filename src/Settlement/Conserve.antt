-- ===== src/Settlement/Conserve.antt =====
-- The rounds of include/SettlementProcessor.hpp neither make nor lose cash or shares in the accounts.
use exchange_server.Prelude.{ℕ, ◌^◌, Bool, true, false, List, [], ◌∷◌, ◌≡◌, All, Distinct, ◌==◌}
use exchange_server.Prelude.Int.{ℤ, pos, ◌+ℤ◌, ◌-ℤ◌, int_laws, add_zero}
use exchange_server.Prelude.Modulo.{Same, Same-trans, Same-sum, Same-refl, eq_Same}
use exchange_server.Prelude.Words.{sub64, mul64, as_int64, as_int32}
use exchange_server.Common.{OrderSide, buy, sell, MatchRecord, CancelRecord}
use exchange_server.Accounts.{UserManager, commit_buy}
use exchange_server.Accounts.Totals.{
  signed, cash_total, share_total, Known, cash-commit_buy, cash-commit_sell, cash-unfreeze_balance,
  cash-unfreeze_stock, shares-commit_buy, shares-commit_sell, shares-unfreeze_balance,
  shares-unfreeze_stock, Known-commit_buy, Known-commit_sell, Known-unfreeze_balance,
  Known-unfreeze_stock,
}
use exchange_server.Tickers.{TickerManager}
use exchange_server.Repositories.{UserRepository, StockRepository}
use exchange_server.Settlement.{
  Holders, settle_match, settle_matches, settle_cancels, settle_round, unfreeze_order,
}

signed_cancel : (b : Bool) (a x : ℤ) → a +ℤ signed b x +ℤ signed b (pos 0 -ℤ x) ≡ a
signed_cancel true a x = omega int_laws
signed_cancel false a x = omega int_laws

cost_cancel : (a x : ℤ) → a +ℤ (pos 0 -ℤ x) +ℤ x ≡ a
cost_cancel a x = omega int_laws

-- Two changes that cancel out.
Same-back :
    (n : ℕ) (a b c x y : ℤ) → Same n c (b +ℤ y) → Same n b (a +ℤ x) → a +ℤ x +ℤ y ≡ a → Same n c a
Same-back n a b c x y p q e =
    Same-trans n c (b +ℤ y) a p (Same-sum n b y (a +ℤ x) y a q (Same-refl n y) e)

Same-zero : (n : ℕ) (a b : ℤ) → Same n b (a +ℤ pos 0) → Same n b a
Same-zero n a b p = Same-trans n b (a +ℤ pos 0) a p (eq_Same n _ _ (add_zero a))

module _ {Db : Type 0} (users : UserRepository Db) (stocks : StockRepository Db)
    (tickers : TickerManager) (us : List ℕ) (d : Distinct us) (t : ℕ) where
  abbrev settled : MatchRecord → Holders Db → Holders Db
  settled = settle_match users stocks tickers

  -- Both parties of a trade, and the owner of a cancelled order, are among the users.
  abbrev pub KnownMatch : UserManager → MatchRecord → Type 0
  KnownMatch m r = Known us d t m r.buyer_user_id × Known us d t m r.sell_user_id

  abbrev pub KnownCancel : UserManager → CancelRecord → Type 0
  KnownCancel m r = Known us d t m r.user_id

  Known-settle_match :
      (r : MatchRecord) (h : Holders Db) (u : ℕ)
      → Known us d t h.accounts u
      → Known us d t (settled r h).accounts u
  unfolding settle_match
  Known-settle_match r h u k =
      Known-commit_sell us d t u r.sell_user_id r.ticker_id _
        (Known-commit_buy us d t u r.buyer_user_id r.ticker_id h.accounts k _ _ _) _ _

  module _ (r : MatchRecord) (h : Holders Db) (k : KnownMatch h.accounts r) where
    abbrev money : ℤ
    money = as_int64 (mul64 r.match_price r.match_quantity)

    abbrev qty : ℤ
    qty = as_int32 r.match_quantity

    abbrev refund : ℤ
    refund = as_int64 (mul64 (sub64 r.buyer_expected_price r.match_price) r.match_quantity)

    abbrev bought : UserManager
    bought = commit_buy r.buyer_user_id r.ticker_id money qty refund h.accounts

    seller-Known : Known us d t bought r.sell_user_id
    seller-Known =
        Known-commit_buy us d t r.sell_user_id r.buyer_user_id r.ticker_id h.accounts k.1 money qty
          refund

    cash-settle_match :
        Same (2 ^ 64) (cash_total us d t (settled r h).accounts) (cash_total us d t h.accounts)
    unfolding settle_match
    cash-settle_match =
        Same-back (2 ^ 64) (cash_total us d t h.accounts) (cash_total us d t bought) _
          (pos 0 -ℤ money) money
          (cash-commit_sell us d t r.sell_user_id r.ticker_id bought seller-Known money qty)
          (cash-commit_buy us d t r.buyer_user_id r.ticker_id h.accounts k.0 money qty refund)
          (cost_cancel (cash_total us d t h.accounts) money)

    shares-settle_match :
        Same (2 ^ 32) (share_total us d t (settled r h).accounts) (share_total us d t h.accounts)
    unfolding settle_match
    shares-settle_match =
        let own = r.ticker_id == t in
        Same-back (2 ^ 32) (share_total us d t h.accounts) (share_total us d t bought) _
          (signed own qty) (signed own (pos 0 -ℤ qty))
          (shares-commit_sell us d t r.sell_user_id r.ticker_id bought seller-Known money qty)
          (shares-commit_buy us d t r.buyer_user_id r.ticker_id h.accounts k.0 money qty refund)
          (signed_cancel own (share_total us d t h.accounts) qty)

  -- The cash of the users in all is the same up to multiples of 2^64, and their shares up to those
  -- of 2^32.
  abbrev pub Conserved : UserManager → UserManager → Type 0
  Conserved m n =
      Same (2 ^ 64) (cash_total us d t n) (cash_total us d t m)
      × Same (2 ^ 32) (share_total us d t n) (share_total us d t m)

  Conserved-refl : (m : UserManager) → Conserved m m
  Conserved-refl m =
      (Same-refl (2 ^ 64) (cash_total us d t m), Same-refl (2 ^ 32) (share_total us d t m))

  Conserved-trans : (l m n : UserManager) → Conserved l m → Conserved m n → Conserved l n
  Conserved-trans l m n p q = (
    Same-trans (2 ^ 64) (cash_total us d t n) (cash_total us d t m) (cash_total us d t l) q.0 p.0,
    Same-trans (2 ^ 32) (share_total us d t n) (share_total us d t m) (share_total us d t l) q.1
        p.1,
  )

  All-KnownMatch :
      (r : MatchRecord) (h : Holders Db) (rs : List MatchRecord)
      → All (KnownMatch h.accounts) rs
      → All (KnownMatch (settled r h).accounts) rs
  All-KnownMatch r h [] k = tt
  All-KnownMatch r h (s ∷ rs) k = (
    (Known-settle_match r h s.buyer_user_id k.0.0, Known-settle_match r h s.sell_user_id k.0.1),
    All-KnownMatch r h rs k.1,
  )

  settle_matches-Conserved :
      (rs : List MatchRecord) (h : Holders Db)
      → All (KnownMatch h.accounts) rs
      → Conserved h.accounts (settle_matches users stocks tickers rs h).accounts
  unfolding settle_matches
  settle_matches-Conserved [] h k = Conserved-refl h.accounts
  settle_matches-Conserved (r ∷ rs) h k =
      let next = settled r h in
      let last = settle_matches users stocks tickers rs next in
      Conserved-trans h.accounts next.accounts last.accounts
        (cash-settle_match r h k.0, shares-settle_match r h k.0)
        (settle_matches-Conserved rs next (All-KnownMatch r h rs k.1))

  All-KnownCancel :
      (r : MatchRecord) (h : Holders Db) (cs : List CancelRecord)
      → All (KnownCancel h.accounts) cs
      → All (KnownCancel (settled r h).accounts) cs
  All-KnownCancel r h [] k = tt
  All-KnownCancel r h (c ∷ cs) k =
      (Known-settle_match r h c.user_id k.0, All-KnownCancel r h cs k.1)

  cancels-KnownCancel :
      (rs : List MatchRecord) (h : Holders Db) (cs : List CancelRecord)
      → All (KnownCancel h.accounts) cs
      → All (KnownCancel (settle_matches users stocks tickers rs h).accounts) cs
  unfolding settle_matches
  cancels-KnownCancel [] h cs k = k
  cancels-KnownCancel (r ∷ rs) h cs k =
      cancels-KnownCancel rs (settled r h) cs (All-KnownCancel r h cs k)

  module _ (c : CancelRecord) (m : UserManager) where
    abbrev after : OrderSide → UserManager
    after side = unfreeze_order side c m

    Known-unfreeze_order :
        (side : OrderSide) (u : ℕ) → Known us d t m u → Known us d t (after side) u
    Known-unfreeze_order buy u k =
        Known-unfreeze_balance us d t u c.user_id 0 m k (as_int64 (mul64 c.price c.quantity))
    Known-unfreeze_order sell u k =
        Known-unfreeze_stock us d t u c.user_id c.ticker_id m k (as_int32 c.quantity)

    unfreeze_order-Conserved : (side : OrderSide) → KnownCancel m c → Conserved m (after side)
    unfreeze_order-Conserved buy k =
        let x = as_int64 (mul64 c.price c.quantity) in
        (
          Same-zero (2 ^ 64) (cash_total us d t m) _
              (cash-unfreeze_balance us d t c.user_id 0 m k x),
          Same-zero (2 ^ 32) (share_total us d t m) _
              (shares-unfreeze_balance us d t c.user_id 0 m k x),
        )
    unfreeze_order-Conserved sell k =
        let x = as_int32 c.quantity in
        (
          Same-zero (2 ^ 64) (cash_total us d t m) _
              (cash-unfreeze_stock us d t c.user_id c.ticker_id m k x),
          Same-zero (2 ^ 32) (share_total us d t m) _
              (shares-unfreeze_stock us d t c.user_id c.ticker_id m k x),
        )

  All-unfreeze :
      (c : CancelRecord) (m : UserManager) (cs : List CancelRecord)
      → All (KnownCancel m) cs
      → All (KnownCancel (unfreeze_order c.side c m)) cs
  All-unfreeze c m [] k = tt
  All-unfreeze c m (e ∷ cs) k =
      (Known-unfreeze_order c m c.side e.user_id k.0, All-unfreeze c m cs k.1)

  settle_cancels-Conserved :
      (cs : List CancelRecord) (h : Holders Db)
      → All (KnownCancel h.accounts) cs
      → Conserved h.accounts (settle_cancels users stocks tickers cs h).accounts
  unfolding settle_cancels
  settle_cancels-Conserved [] h k = Conserved-refl h.accounts
  settle_cancels-Conserved (c ∷ cs) h k =
      let m = unfreeze_order c.side c h.accounts in
      let last = settle_cancels users stocks tickers cs (record h { accounts = m }) in
      Conserved-trans h.accounts m last.accounts (unfreeze_order-Conserved c h.accounts c.side k.0)
        (settle_cancels-Conserved cs (record h { accounts = m }) (All-unfreeze c h.accounts cs k.1))

  -- A round of settlement over any batches of trades and cancellations, all of whose users are
  -- among `us` and have accounts, leaves the cash that these users hold in all as it was up to a
  -- multiple of 2^64, by which a balance beyond `int64_t` wraps, and the shares of each ticker `t`
  -- up to a multiple of 2^32, whatever the database answers.
  pub settle_round_conserves :
      (ms : List MatchRecord) (cs : List CancelRecord) (h : Holders Db)
      → All (KnownMatch h.accounts) ms
      → All (KnownCancel h.accounts) cs
      → Conserved h.accounts (settle_round users stocks tickers ms cs h).accounts
  unfolding settle_round
  settle_round_conserves ms cs h km kc =
      let next = settle_matches users stocks tickers ms h in
      let last = settle_cancels users stocks tickers cs next in
      Conserved-trans h.accounts next.accounts last.accounts (settle_matches-Conserved ms h km)
        (settle_cancels-Conserved cs next (cancels-KnownCancel ms h cs kc))
