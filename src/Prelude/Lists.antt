-- ===== src/Prelude/Lists.antt =====
-- Lists measured by native numbers, predicates on lists by recursion, and distinct addresses.
use Prim.Native.Nat.{ℕ, suc, ◌+◌}
use mathlib.Core.Path.{◌≡◌, sym}
use mathlib.Core.Logic.{◌≢◌}
use mathlib.Core.List.{List, [], ◌∷◌, ◌++◌}
use native.Mathlib.Omega.{arith}

module _ {ℓ} {A : Type ℓ} where
  abbrev pub length : List A → ℕ
  length [] = 0
  length (x ∷ xs) = suc (length xs)

  pub length-append : (xs ys : List A) → length (xs ++ ys) ≡ length xs + length ys
  length-append [] ys = omega arith
  length-append (x ∷ xs) ys = omega (arith, length-append xs ys)

module _ {ℓ κ} {A : Type ℓ} where
  abbrev pub All : (A → Type κ) → List A → Type κ
  All P [] = Unit
  All P (x ∷ xs) = P x × All P xs

  pub All-append : (P : A → Type κ) (xs ys : List A) → All P xs → All P ys → All P (xs ++ ys)
  All-append P [] ys h k = k
  All-append P (x ∷ xs) ys h k = (h.0, All-append P xs ys h.1 k)

  pub All-append_left : (P : A → Type κ) (xs ys : List A) → All P (xs ++ ys) → All P xs
  All-append_left P [] ys h = tt
  All-append_left P (x ∷ xs) ys h = (h.0, All-append_left P xs ys h.1)

  pub All-append_right : (P : A → Type κ) (xs ys : List A) → All P (xs ++ ys) → All P ys
  All-append_right P [] ys h = h
  All-append_right P (x ∷ xs) ys h = All-append_right P xs ys h.1

-- No address of the list is `a`.
abbrev pub Fresh : ℕ → List ℕ → Type 0
Fresh a bs = All (λ b. a ≢ b) bs

abbrev pub Distinct : List ℕ → Type 0
Distinct [] = Unit
Distinct (a ∷ bs) = Fresh a bs × Distinct bs

pub Distinct-append :
    (xs ys : List ℕ) → Distinct (xs ++ ys) → Distinct xs × Distinct ys × All (λ a. Fresh a ys) xs
Distinct-append [] ys d = (tt, d, tt)
Distinct-append (a ∷ xs) ys d =
    let (dxs, dys, cross) = Distinct-append xs ys d.1 in
    ((All-append_left _ xs ys d.0, dxs), dys, (All-append_right _ xs ys d.0, cross))

-- Two lists that share no address, read from the other side.
Fresh-All :
    (a : ℕ) (xs ys : List ℕ)
    → Fresh a ys
    → All (λ b. Fresh b xs) ys
    → All (λ b. Fresh b (a ∷ xs)) ys
Fresh-All a xs [] f h = tt
Fresh-All a xs (b ∷ ys) f h = ((λ e. f.0 (sym e), h.0), Fresh-All a xs ys f.1 h.1)

All-Fresh-nil : (ys : List ℕ) → All (λ b. Fresh b []) ys
All-Fresh-nil [] = tt
All-Fresh-nil (b ∷ ys) = (tt, All-Fresh-nil ys)

pub Fresh-swap : (xs ys : List ℕ) → All (λ a. Fresh a ys) xs → All (λ b. Fresh b xs) ys
Fresh-swap [] ys h = All-Fresh-nil ys
Fresh-swap (a ∷ xs) ys h = Fresh-All a xs ys h.0 (Fresh-swap xs ys h.1)
