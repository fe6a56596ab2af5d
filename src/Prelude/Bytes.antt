-- ===== src/Prelude/Bytes.antt =====
-- Byte strings: prefixes, and numbers in network order and in the order of the machine.
use Prim.Native.Nat.{ℕ, zero, suc, ◌+◌, ◌*◌, ◌/◌, ◌%◌, ◌^◌, ◌≤◌, ◌<◌}
use mathlib.Core.Path.{◌≡◌, refl, ap}
use mathlib.Core.List.{List, [], ◌∷◌, ◌++◌}
use native.Mathlib.Omega.{arith}
use exchange_server.Prelude.Lists.{length}

module _ {ℓ} {A : Type ℓ} where
  abbrev pub take : ℕ → List A → List A
  take zero xs = []
  take (suc n) [] = []
  take (suc n) (x ∷ xs) = x ∷ take n xs

  abbrev pub drop : ℕ → List A → List A
  drop zero xs = xs
  drop (suc n) [] = []
  drop (suc n) (x ∷ xs) = drop n xs

  pub take-drop : (n : ℕ) (xs : List A) → take n xs ++ drop n xs ≡ xs
  take-drop zero xs = refl
  take-drop (suc n) [] = refl
  take-drop (suc n) (x ∷ xs) = ap (λ ys. x ∷ ys) (take-drop n xs)

  pub take-append : (n : ℕ) (xs ys : List A) → n ≤ length xs → take n (xs ++ ys) ≡ take n xs
  take-append zero xs ys h = refl
  take-append (suc n) [] ys h = ground (arith, h)
  take-append (suc n) (x ∷ xs) ys h = ap (λ zs. x ∷ zs) (take-append n xs ys (omega (arith, h)))

  pub drop-append : (n : ℕ) (xs ys : List A) → n ≤ length xs → drop n (xs ++ ys) ≡ drop n xs ++ ys
  drop-append zero xs ys h = refl
  drop-append (suc n) [] ys h = ground (arith, h)
  drop-append (suc n) (x ∷ xs) ys h = drop-append n xs ys (omega (arith, h))

  pub length-drop : (n : ℕ) (xs : List A) → length (drop n xs) ≤ length xs
  length-drop zero xs = omega arith
  length-drop (suc n) [] = omega arith
  length-drop (suc n) (x ∷ xs) = omega (arith, length-drop n xs)

  pub take-length : (xs ys : List A) → take (length xs) (xs ++ ys) ≡ xs
  take-length [] ys = refl
  take-length (x ∷ xs) ys = ap (λ zs. x ∷ zs) (take-length xs ys)

  pub drop-length : (xs ys : List A) → drop (length xs) (xs ++ ys) ≡ ys
  drop-length [] ys = refl
  drop-length (x ∷ xs) ys = drop-length xs ys

-- `ntohs` and `ntohl` on the bytes as they arrive
abbrev pub be16 : ℕ → ℕ → ℕ
be16 a b = a * 2 ^ 8 + b

abbrev pub be32 : ℕ → ℕ → ℕ → ℕ → ℕ
be32 a b c d = a * 2 ^ 24 + b * 2 ^ 16 + c * 2 ^ 8 + d

-- `htons` and `htonl`: the bytes as they are sent
abbrev pub to_be16 : ℕ → List ℕ
to_be16 n = n / 2 ^ 8 % 2 ^ 8 ∷ n % 2 ^ 8 ∷ []

abbrev pub to_be32 : ℕ → List ℕ
to_be32 n = n / 2 ^ 24 % 2 ^ 8 ∷ n / 2 ^ 16 % 2 ^ 8 ∷ n / 2 ^ 8 % 2 ^ 8 ∷ n % 2 ^ 8 ∷ []

pub be16-to_be16 : (n : ℕ) → n < 2 ^ 16 → be16 (n / 2 ^ 8 % 2 ^ 8) (n % 2 ^ 8) ≡ n
be16-to_be16 n h = omega arith

pub be32-to_be32 :
    (n : ℕ)
    → n < 2 ^ 32
    → be32 (n / 2 ^ 24 % 2 ^ 8) (n / 2 ^ 16 % 2 ^ 8) (n / 2 ^ 8 % 2 ^ 8) (n % 2 ^ 8) ≡ n
be32-to_be32 n h = omega arith

-- A number of `k` bytes in the machine's order, the lowest byte first.
abbrev pub to_le : ℕ → ℕ → List ℕ
to_le zero n = []
to_le (suc k) n = n % 2 ^ 8 ∷ to_le k (n / 2 ^ 8)

abbrev pub from_le : ℕ → List ℕ → ℕ
from_le zero bs = 0
from_le (suc k) [] = 0
from_le (suc k) (b ∷ bs) = b + 2 ^ 8 * from_le k bs
