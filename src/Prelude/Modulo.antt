-- ===== src/Prelude/Modulo.antt =====
-- Signed machine integers: wrap-around to 64 and to 32 bits, and equality up to multiples of a number.
use Prim.Native.Nat.{ℕ, ◌+◌, ◌-◌, ◌*◌, ◌/◌, ◌%◌, ◌^◌, ◌≤◌}
use mathlib.Core.Path.{◌≡◌, refl, ap}
use native.Mathlib.Omega.{arith}
use exchange_server.Prelude.Tests.{ltb, if◌then◌else◌}
use exchange_server.Prelude.Int.{
  ℤ, pos, negsuc, pos_part, neg_part, ◌+ℤ◌, ◌-ℤ◌, int_laws, eq_of_parts, sub_sub,
}
use exchange_server.Prelude.Words.{as_int64, as_int32}

-- A sum or difference of two numbers of type `int64_t`, in 64 bits.
unfoldable pub wrap64 : ℤ → ℤ
wrap64 (pos n) = as_int64 (n % 2 ^ 64)
wrap64 (negsuc n) = as_int64 (2 ^ 64 - 1 - n % 2 ^ 64)

-- A sum or difference of two numbers of type `int`, in 32 bits.
unfoldable pub wrap32 : ℤ → ℤ
wrap32 (pos n) = as_int32 n
wrap32 (negsuc n) = as_int32 (2 ^ 32 - 1 - n % 2 ^ 32)

-- The two numbers differ by a multiple of `m`.
abbrev pub Same : ℕ → ℤ → ℤ → Type 0
Same m a b =
    (j : ℕ) × ((k : ℕ) × (pos_part a + neg_part b + j * m ≡ pos_part b + neg_part a + k * m))

module _ (m : ℕ) where
  pub eq_Same : (a b : ℤ) → a ≡ b → Same m a b
  eq_Same a b e = (0, (0, rw e (omega arith)))

  pub Same-trans : (a b c : ℤ) → Same m a b → Same m b c → Same m a c
  Same-trans a b c (i, (j, e)) (k, (l, f)) = (i + k, (j + l, omega (arith, e, f)))

  pub Same-add : (a b c d : ℤ) → Same m a b → Same m c d → Same m (a +ℤ c) (b +ℤ d)
  Same-add a b c d (i, (j, e)) (k, (l, f)) = (i + k, (j + l, omega (int_laws, e, f)))

  pub Same-sub : (a b c d : ℤ) → Same m a b → Same m c d → Same m (a -ℤ c) (b -ℤ d)
  Same-sub a b c d (i, (j, e)) (k, (l, f)) = (i + l, (j + k, omega (int_laws, e, f)))

abbrev pub FitsInt64 : ℤ → Type 0
FitsInt64 a = (pos_part a + 1 ≤ 2 ^ 63) × (neg_part a ≤ 2 ^ 63)

pub wrap64-FitsInt64 : (a : ℤ) → FitsInt64 (wrap64 a)
unfolding wrap64
wrap64-FitsInt64 (pos n) = ground arith
wrap64-FitsInt64 (negsuc n) = ground arith

pub wrap64-Same : (a : ℤ) → Same (2 ^ 64) (wrap64 a) a
unfolding wrap64
wrap64-Same (pos n) = (n / 2 ^ 64 + (if ltb (n % 2 ^ 64) (2 ^ 63) then 0 else 1), (0, ground arith))
wrap64-Same (negsuc n) =
    ((if ltb (2 ^ 64 - 1 - n % 2 ^ 64) (2 ^ 63) then 0 else 1), (n / 2 ^ 64 + 1, ground arith))

pub wrap32-Same : (a : ℤ) → Same (2 ^ 32) (wrap32 a) a
unfolding wrap32
wrap32-Same (pos n) = (n / 2 ^ 32 + (if ltb (n % 2 ^ 32) (2 ^ 31) then 0 else 1), (0, ground arith))
wrap32-Same (negsuc n) =
    ((if ltb (2 ^ 32 - 1 - n % 2 ^ 32) (2 ^ 31) then 0 else 1), (n / 2 ^ 32 + 1, ground arith))

-- Sums of numbers that are replaced by others up to a multiple.
module _ (m : ℕ) where
  pub Same-sum : (a b c d x : ℤ) → Same m a c → Same m b d → c +ℤ d ≡ x → Same m (a +ℤ b) x
  Same-sum a b c d x p q e =
      Same-trans m (a +ℤ b) (c +ℤ d) x (Same-add m a c b d p q) (eq_Same m (c +ℤ d) x e)

  pub Same-refl : (a : ℤ) → Same m a a
  Same-refl a = eq_Same m a a refl

pub wrap64-sub : (a b : ℤ) → Same (2 ^ 64) (wrap64 (a -ℤ wrap64 b)) (a -ℤ b)
wrap64-sub a b =
    Same-trans (2 ^ 64) (wrap64 (a -ℤ wrap64 b)) (a -ℤ wrap64 b) (a -ℤ b)
      (wrap64-Same (a -ℤ wrap64 b))
      (Same-sub (2 ^ 64) a a (wrap64 b) b (Same-refl (2 ^ 64) a) (wrap64-Same b))

-- Two numbers in range that differ by a multiple of the modulus are equal.
pub Same-FitsInt64 : (a b : ℤ) → Same (2 ^ 64) a b → FitsInt64 a → FitsInt64 b → a ≡ b
Same-FitsInt64 a b (j, (k, e)) f g = eq_of_parts a b (ground (arith, e, f.0, f.1, g.0, g.1))

-- The number b is a less x in 64 bits, and stays in range.
abbrev pub Moved : ℤ → ℤ → ℤ → Type 0
Moved x a b = Same (2 ^ 64) b (a -ℤ x) × (FitsInt64 a → FitsInt64 b)

pub wrap64-Moved : (x a : ℤ) → Moved x a (wrap64 (a -ℤ x))
wrap64-Moved x a = (wrap64-Same (a -ℤ x), λ f. wrap64-FitsInt64 (a -ℤ x))

pub wrap64-add_Moved : (x a : ℤ) → Moved (pos 0 -ℤ x) a (wrap64 (a +ℤ x))
wrap64-add_Moved x a = (
  Same-trans (2 ^ 64) (wrap64 (a +ℤ x)) (a +ℤ x) (a -ℤ (pos 0 -ℤ x)) (wrap64-Same (a +ℤ x))
      (eq_Same (2 ^ 64) (a +ℤ x) (a -ℤ (pos 0 -ℤ x)) (omega int_laws)),
  λ f. wrap64-FitsInt64 (a +ℤ x),
)

pub Moved-trans : (x y a b c : ℤ) → Moved x a b → Moved y b c → Moved (x +ℤ y) a c
Moved-trans x y a b c (e, f) (g, h) = (
  Same-trans (2 ^ 64) c (b -ℤ y) (a -ℤ (x +ℤ y)) g (
      Same-trans (2 ^ 64) (b -ℤ y) (a -ℤ x -ℤ y) (a -ℤ (x +ℤ y))
        (Same-sub (2 ^ 64) b (a -ℤ x) y y e (eq_Same (2 ^ 64) y y refl))
        (eq_Same (2 ^ 64) (a -ℤ x -ℤ y) (a -ℤ (x +ℤ y)) (sub_sub a x y))),
  λ k. h (f k),
)

pub Moved-none : (a b : ℤ) → b ≡ a → Moved (pos 0) a b
Moved-none a b e =
    (eq_Same (2 ^ 64) b (a -ℤ pos 0) (omega (int_laws, ap pos_part e, ap neg_part e)), λ f. rw e f)

-- The exact result, where it is in range.
pub Moved-exact : (x a b c : ℤ) → Moved x a b → FitsInt64 a → a -ℤ x ≡ c → FitsInt64 c → b ≡ c
Moved-exact x a b c m f e g =
    Same-FitsInt64 b c (Same-trans (2 ^ 64) b (a -ℤ x) c m.0 (eq_Same (2 ^ 64) (a -ℤ x) c e))
      (m.1 f) g
