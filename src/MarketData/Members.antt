-- ===== src/MarketData/Members.antt =====
-- The members that include/MarketDataPublisher.hpp adds to the history of a ticker.
use exchange_server.Prelude.{
  ℕ, zero, suc, ◌+◌, ◌-◌, ◌*◌, ◌/◌, ◌%◌, ◌<◌, Bool, true, false, [], ◌∷◌, ◌++◌, ltb, append_assoc,
  append-nil, if◌then◌else◌, ◌↔◌, ◌≡◌, refl, sym, ◌∙◌, ap, arith, Bool-cases, inl, inr,
}
use exchange_server.Prelude.Names.{Name}
use exchange_server.Prelude.Texts.{codes}
use exchange_server.Prelude.Bytes.{drop}
use exchange_server.Common.{MatchRecord}
use exchange_server.MarketData.{digits, to_string, json_data}

abbrev is_digit : ℕ → Bool
is_digit c = if ltb c 48 then false else ltb c 58

-- The number that a text starts with, after some digits, and what follows it.
read_number : Name → ℕ → ℕ × Name
read_number [] n = (n, [])
read_number (c ∷ cs) n = if is_digit c then read_number cs (n * 10 + (c - 48)) else (n, c ∷ cs)

is_digit-add : (d : ℕ) → d < 10 → is_digit (48 + d) ≡ true
is_digit-add d h = ground (arith, h)

read_number-digit :
    (d n : ℕ) (xs : Name) → d < 10 → read_number ((48 + d) ∷ xs) n ≡ read_number xs (n * 10 + d)
unfolding read_number
read_number-digit d n xs h =
    rw (is_digit-add d h) (ap (λ k. read_number xs (n * 10 + k)) (omega arith))

shown : ℕ → ℕ → Bool → Name
shown most n small = elim small [
  | true ↦ (48 + n) ∷ []
  | false ↦ digits most (n / 10) ++ (48 + n % 10) ∷ []
]

-- One clause of `digits`, whichever its test gives.
digits-by :
    (most n : ℕ) (xs : Name) (b : Bool)
    → ltb n 10 ≡ b
    → digits (suc most) n ++ xs
      ≡ (if b then (48 + n) ∷ xs else digits most (n / 10) ++ (48 + n % 10) ∷ xs)
unfolding digits shown
digits-by most n xs true e = ap (λ b. shown most n b ++ xs) e
digits-by most n xs false e =
    ap (λ b. shown most n b ++ xs) e ∙ append_assoc (digits most (n / 10)) ((48 + n % 10) ∷ []) xs

read_number-digits :
    (most n : ℕ) (xs : Name) → n < most → read_number (digits most n ++ xs) 0 ≡ read_number xs n
read_number-digits zero n xs h = ground (arith, h)
read_number-digits (suc most) n xs h =
    let ih = read_number-digits most (n / 10) ((48 + n % 10) ∷ xs) in
    elim (Bool-cases (ltb n 10)) [
      | inl e ↦
          ap (λ t. read_number t 0) (digits-by most n xs true e)
          ∙ read_number-digit n 0 xs (ground (arith, e))
          ∙ ap (read_number xs) (omega arith)
      | inr e ↦
          ap (λ t. read_number t 0) (digits-by most n xs false e)
          ∙ ih (ground (arith, e, h))
          ∙ read_number-digit (n % 10) (n / 10) xs (omega arith)
          ∙ ap (read_number xs) (omega arith)
    ]

read_number-whole : (n : ℕ) → read_number (to_string n) 0 ≡ (n, [])
unfolding read_number
read_number-whole n =
    ap (λ s. read_number s 0) (sym (append-nil (to_string n)))
    ∙ read_number-digits (suc n) n [] (omega arith)

-- Different numbers have different digits.
pub to_string-same : (a b : ℕ) → to_string a ≡ to_string b → a ≡ b
to_string-same a b e =
    ap (λ r. r.0) (sym (read_number-whole a) ∙ ap (λ s. read_number s 0) e ∙ read_number-whole b)

-- The three numbers of a member: the first, the second after it, the third after both.
abbrev third : ℕ → ℕ × Name → ℕ × ℕ × ℕ
third ticker_id b = (ticker_id, b.0, (read_number (drop 7 b.1) 0).0)

abbrev second : ℕ × Name → ℕ × ℕ × ℕ
second a = third a.0 (read_number (drop 9 a.1) 0)

abbrev read_member : Name → ℕ × ℕ × ℕ
read_member m = second (read_number (drop 10 m) 0)

read_number-to_string :
    (n c : ℕ) (xs : Name) → is_digit c ≡ false → read_number (to_string n ++ c ∷ xs) 0 ≡ (n, c ∷ xs)
unfolding read_number
read_number-to_string n c xs h = read_number-digits (suc n) n (c ∷ xs) (omega arith) ∙ rw h refl

abbrev after_price : MatchRecord → Name
after_price r = codes ",\"qty\":" ++ (to_string r.match_quantity ++ codes "}")

abbrev after_ticker : MatchRecord → Name
after_ticker r = codes ",\"price\":" ++ (to_string r.match_price ++ after_price r)

read_member-json_data :
    (r : MatchRecord) → read_member (json_data r) ≡ (r.ticker_id, r.match_price, r.match_quantity)
read_member-json_data r =
    let a : read_number (drop 10 (json_data r)) 0 ≡ (r.ticker_id, after_ticker r) =
      read_number-to_string r.ticker_id 44 (drop 1 (after_ticker r)) refl in
    let b : read_number (drop 9 (after_ticker r)) 0 ≡ (r.match_price, after_price r) =
      read_number-to_string r.match_price 44 (drop 1 (after_price r)) refl in
    let c : read_number (drop 7 (after_price r)) 0 ≡ (r.match_quantity, codes "}") =
      read_number-to_string r.match_quantity 125 [] refl in
    ap second a ∙ ap (third r.ticker_id) b ∙ ap (λ c. (r.ticker_id, r.match_price, c.0)) c

-- Two trades have one member exactly when ticker, price and quantity agree, whatever their times and
-- their orders: the set of a ticker holds such trades once.
pub json_data-same :
    (r q : MatchRecord)
    → (json_data r ≡ json_data q) ↔ (
        (r.ticker_id ≡ q.ticker_id)
        × (r.match_price ≡ q.match_price)
        × (r.match_quantity ≡ q.match_quantity))
json_data-same r q = (
  λ e.
      let f = sym (read_member-json_data r) ∙ ap read_member e ∙ read_member-json_data q in
      (ap (λ m. m.0) f, ap (λ m. m.1) f, ap (λ m. m.2) f),
  λ e i. json_data (record r { ticker_id = e.0 i; match_price = e.1 i; match_quantity = e.2 i }),
)

-- The price that a member holds.
pub read_price : Name → ℕ
read_price m = (read_member m).1

pub read_price-json_data : (r : MatchRecord) → read_price (json_data r) ≡ r.match_price
unfolding read_price
read_price-json_data r = ap (λ t. t.1) (read_member-json_data r)
