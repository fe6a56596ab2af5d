-- ===== src/Prelude/Map.antt =====
-- `std::unordered_map` with number keys, as an association list that holds a key once.
use Prim.Native.Nat.{ℕ}
use mathlib.Core.Path.{◌≡◌, refl}
use mathlib.Core.Option.{Option, none, some}
use mathlib.Core.List.{List, [], ◌∷◌}
use native.Mathlib.Omega.{arith}
use exchange_server.Prelude.Tests.{◌==◌, if◌then◌else◌}

abbrev pub Map {ℓ} : Type ℓ → Type ℓ
Map V = List (ℕ × V)

module _ {ℓ} {V : Type ℓ} where
  -- `find`
  abbrev pub lookup : ℕ → Map V → Option V
  lookup k [] = none
  lookup k ((j, v) ∷ m) = if j == k then some v else lookup k m

  -- `m[k]` where a missing key reads as `d`
  abbrev pub lookup_or : V → ℕ → Map V → V
  lookup_or d k m = elim (lookup k m) [ none ↦ d | some v ↦ v ]

  -- `m[k] = v`
  abbrev pub insert : ℕ → V → Map V → Map V
  insert k v [] = (k, v) ∷ []
  insert k v ((j, w) ∷ m) = if j == k then (k, v) ∷ m else (j, w) ∷ insert k v m

  -- `erase(k)`
  abbrev pub erase : ℕ → Map V → Map V
  erase k [] = []
  erase k ((j, w) ∷ m) = let rest = erase k m in if j == k then rest else (j, w) ∷ rest

  pub lookup-insert :
      (k j : ℕ) (v : V) (m : Map V)
      → lookup j (insert k v m) ≡ (if k == j then some v else lookup j m)
  lookup-insert k j v [] = refl
  lookup-insert k j v ((i, w) ∷ m) = ground (arith, lookup-insert k j v m)

  pub lookup-erase :
      (k j : ℕ) (m : Map V) → lookup j (erase k m) ≡ (if k == j then none else lookup j m)
  lookup-erase k j [] = ground arith
  lookup-erase k j ((i, w) ∷ m) = ground (arith, lookup-erase k j m)
