-- ===== src/Prelude/Names.antt =====
-- `std::string` as a list of bytes, and maps with such keys.
use Prim.Native.Nat.{ℕ}
use mathlib.Core.Path.{◌≡◌, refl}
use mathlib.Core.Bool.{Bool, true, false, ◌&&◌}
use mathlib.Core.Option.{Option, none, some}
use mathlib.Core.List.{List, [], ◌∷◌}
use native.Mathlib.Omega.{arith}
use exchange_server.Prelude.Tests.{◌==◌, if◌then◌else◌}

abbrev pub Name : Type 0
Name = List ℕ

unfoldable pub same_name : Name → Name → Bool
same_name [] [] = true
same_name [] (d ∷ ds) = false
same_name (c ∷ cs) [] = false
same_name (c ∷ cs) (d ∷ ds) = (c == d) && same_name cs ds

pub same_name_refl : (a : Name) → same_name a a ≡ true
unfolding same_name
same_name_refl [] = refl
same_name_refl (c ∷ cs) = ground (arith, same_name_refl cs)

pub same_name-eq : (a b : Name) → same_name a b ≡ true → a ≡ b
unfolding same_name
same_name-eq [] [] h = refl
same_name-eq [] (d ∷ ds) h = cc
same_name-eq (c ∷ cs) [] h = cc
same_name-eq (c ∷ cs) (d ∷ ds) h = ground (arith, same_name-eq cs ds)

abbrev pub NameMap {ℓ} : Type ℓ → Type ℓ
NameMap V = List (Name × V)

module _ {ℓ} {V : Type ℓ} where
  abbrev pub find : Name → NameMap V → Option V
  find k [] = none
  find k ((j, v) ∷ m) = if same_name j k then some v else find k m

  abbrev pub assign : Name → V → NameMap V → NameMap V
  assign k v [] = (k, v) ∷ []
  assign k v ((j, w) ∷ m) = if same_name j k then (k, v) ∷ m else (j, w) ∷ assign k v m

  pub find-assign :
      (k j : Name) (v : V) (m : NameMap V)
      → find j (assign k v m) ≡ (if same_name k j then some v else find j m)
  find-assign k j v [] = refl
  find-assign k j v ((i, w) ∷ m) = ground (
    arith,
    find-assign k j v m,
    same_name-eq i k,
    same_name-eq i j,
    same_name-eq k j,
    same_name_refl k,
    same_name_refl i,
    same_name_refl j,
  )
