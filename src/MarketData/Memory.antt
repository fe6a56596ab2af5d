-- ===== src/MarketData/Memory.antt =====
-- Sorted sets in memory that do what Redis promises, for the tests of include/MarketDataPublisher.hpp.
use exchange_server.Prelude.{
  ℕ, ◌*◌, ◌/◌, ◌^◌, ltb, Bool, Option, none, some, List, [], map, if◌then◌else◌, ◌≡◌, refl, sym,
  ◌∙◌, ap, Bool-cases, inl, inr,
}
use exchange_server.Prelude.Names.{
  Name, NameMap, find, assign, find-assign, same_name, same_name-eq,
}
use exchange_server.Prelude.Bytes.{take}
use exchange_server.MarketData.{Redis}
use exchange_server.MarketData.Trend.{Entry, IsSortedSets, put_entry, without}

abbrev pub Sets : Type 0
Sets = NameMap (List Entry)

-- A conversion to doubles that is exact up to 2^53, and above keeps the multiples of 256, which are
-- those that a number of 61 bits can have; it goes down to the next one.
abbrev pub rounded : ℕ → ℕ
rounded n = if ltb (2 ^ 53) n then n / 256 * 256 else n

abbrev or_empty : Option (List Entry) → List Entry
or_empty none = []
or_empty (some xs) = xs

abbrev pub entries : Name → Sets → List Entry
entries k db = or_empty (find k db)

abbrev pub sorted_sets : Redis Sets
sorted_sets = record {
  zadd = λ k score m db. assign k (put_entry (rounded score, m) (without m (entries k db))) db;
  zrevrange = λ k db. some (take 10 (map (λ (e : Entry). e.1) (entries k db)));
}

pub sorted_sets-IsSortedSets : IsSortedSets rounded sorted_sets entries
sorted_sets-IsSortedSets = record {
  zadd_rows = λ k u score m db. rows k u score m db;
  range = λ k db. refl;
}
  where
    rows :
        (k u : Name) (score : ℕ) (m : Name) (db : Sets)
        → entries u (sorted_sets.zadd k score m db) ≡ (
            if same_name k u
            then put_entry (rounded score, m) (without m (entries u db))
            else entries u db)
    rows k u score m db =
        let x = λ (j : Name). put_entry (rounded score, m) (without m (entries j db)) in
        let e = ap or_empty (find-assign k u (x k) db) in
        let left = λ (b : Bool). or_empty (if b then some (x k) else find u db) in
        let right = λ (b : Bool). if b then x u else entries u db in
        elim (Bool-cases (same_name k u)) [
          | inl h ↦ e ∙ ap left h ∙ ap x (same_name-eq k u h) ∙ sym (ap right h)
          | inr h ↦ e ∙ ap left h ∙ sym (ap right h)
        ]
