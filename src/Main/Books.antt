-- ===== src/Main/Books.antt =====
-- The books that `main` of src/server/main.cpp starts.
use exchange_server.Prelude.{
  ℕ, ◌==◌, ==_iff, Bool, false, ◌||◌, none, some, List, [], ◌∷◌, map, if◌then◌else◌, ◌≡◌, refl,
  arith, Option-cases, inl, inr,
}
use exchange_server.Prelude.Map.{Map, lookup, insert, lookup-insert}
use exchange_server.Prelude.Int.{ℤ}
use exchange_server.Prelude.Names.{Name, assign}
use exchange_server.OrderBook.{Store}
use exchange_server.Tickers.{TickerManager, load_all_tickers, get_all_ticker_ids}
use exchange_server.Accounts.Load.{no_tickers}
use exchange_server.Engine.{Engine, Processor, init, empty_book}
use exchange_server.Main.{init_all, start}

abbrev pub contains : ℕ → List ℕ → Bool
contains t [] = false
contains t (u ∷ us) = (u == t) || contains t us

-- A processor with an empty book and nothing queued.
abbrev pub new_processor : Store → ℕ → Processor
new_processor s t = record { book = empty_book s t; queue = [] }

init-lookup :
    (s : Store) (t u : ℕ) (e : Engine)
    → lookup u (init s t e) ≡ (elim (lookup u e) [
      | some p ↦ some p
      | none ↦ if t == u then some (new_processor s u) else none
    ])
unfolding init
init-lookup s t u e = elim (Option-cases (lookup t e)) [
  | inl m ↦ ground (arith, m, lookup-insert t u (new_processor s t) e, ==_iff t u)
  | inr (p, m) ↦ ground (arith, m, ==_iff t u)
]

init_all-lookup :
    (s : Store) (ids : List ℕ) (u : ℕ) (e : Engine)
    → lookup u (init_all s ids e) ≡ (elim (lookup u e) [
      | some p ↦ some p
      | none ↦ if contains u ids then some (new_processor s u) else none
    ])
unfolding init_all
init_all-lookup s [] u e = elim (Option-cases (lookup u e)) [
  | inl m ↦ rw m refl
  | inr (p, m) ↦ rw m refl
]
init_all-lookup s (t ∷ ids) u e =
    ground (arith, init_all-lookup s ids u (init s t e), init-lookup s t u e)

abbrev pub ids_of : List (ℕ × Name) → List ℕ
ids_of rows = map (λ r. r.0) rows

contains-insert :
    (u k : ℕ) (v : Name) (m : Map Name)
    → contains u (ids_of (insert k v m)) ≡ ((k == u) || contains u (ids_of m))
contains-insert u k v [] = refl
contains-insert u k v ((j, w) ∷ m) = ground (arith, contains-insert u k v m, ==_iff j k)

contains-load :
    (u : ℕ) (rows : List (ℕ × Name)) (t : TickerManager)
    → contains u (get_all_ticker_ids (load_all_tickers rows t))
      ≡ (contains u (ids_of rows) || contains u (get_all_ticker_ids t))
unfolding load_all_tickers get_all_ticker_ids
contains-load u [] t = refl
contains-load u ((id, symbol) ∷ rows) t = ground (
  arith,
  contains-load u rows (record {
    symbol_to_id = assign symbol id t.symbol_to_id;
    id_to_symbol = insert id symbol t.id_to_symbol;
  }),
  contains-insert u id symbol t.id_to_symbol,
)

-- When the server starts, a ticker has a processor exactly when its id is in the rows of the table of
-- stocks; the processor has an empty book for that ticker and an empty queue.
start-books :
    (s : Store) (accounts holdings : List (ℕ × Name × ℤ)) (rows : List (ℕ × Name)) (u : ℕ)
    → lookup u (start s accounts holdings rows).engine
      ≡ (if contains u (ids_of rows) then some (new_processor s u) else none)
unfolding start get_all_ticker_ids
start-books s accounts holdings rows u = ground (
  arith,
  init_all-lookup s (get_all_ticker_ids (load_all_tickers rows no_tickers)) u [],
  contains-load u rows no_tickers,
  no_ids u,
)
  where
    no_ids : (u : ℕ) → contains u (get_all_ticker_ids no_tickers) ≡ false
    no_ids u = refl
