-- ===== src/Prelude/Members.antt =====
-- Lists of addresses as Boolean sets.
use Prim.Native.Nat.{ℕ, ◌+◌}
use mathlib.Core.Path.{◌≡◌, refl, subst, sym}
use mathlib.Core.Logic.{inl, inr}
use mathlib.Core.Bool.{Bool, true, false, ◌||◌}
use mathlib.Core.List.{List, [], ◌∷◌, ◌++◌}
use native.Mathlib.Omega.{arith}
use exchange_server.Prelude.Tests.{if◌then◌else◌, ◌==◌, ==_iff, Bool-cases}
use exchange_server.Prelude.Lists.{All, Fresh}

abbrev pub elem : ℕ → List ℕ → Bool
elem p [] = false
elem p (x ∷ xs) = (p == x) || elem p xs

pub elem-append : (p : ℕ) (xs ys : List ℕ) → elem p (xs ++ ys) ≡ (elem p xs || elem p ys)
elem-append p [] ys = refl
elem-append p (x ∷ xs) ys = ground (arith, elem-append p xs ys)

pub elem-All : (P : ℕ → Type 0) (p : ℕ) (xs : List ℕ) → All P xs → elem p xs ≡ true → P p
elem-All P p [] h e = ground arith
elem-All P p (x ∷ xs) h e = elim (Bool-cases (p == x)) [
  | inl k ↦ subst P (sym ((==_iff p x).0 k)) h.0
  | inr k ↦ elem-All P p xs h.1 (ground arith)
]

pub elem-Fresh : (p : ℕ) (xs : List ℕ) → Fresh p xs → elem p xs ≡ false
elem-Fresh p [] f = refl
elem-Fresh p (x ∷ xs) f = ground (arith, f.0, elem-Fresh p xs f.1)

-- How often an address is in a list.
abbrev pub count : ℕ → List ℕ → ℕ
count c [] = 0
count c (d ∷ ds) = (if d == c then 1 else 0) + count c ds

pub count-append : (c : ℕ) (xs ys : List ℕ) → count c (xs ++ ys) ≡ count c xs + count c ys
count-append c [] ys = omega arith
count-append c (x ∷ xs) ys = omega (arith, count-append c xs ys)
