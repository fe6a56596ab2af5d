-- ===== src/Prelude/Words.antt =====
-- Machine integers: wrap-around on `uint64_t`, and the conversions to signed types.
use Prim.Native.Nat.{ℕ, ◌+◌, ◌-◌, ◌*◌, ◌%◌, ◌^◌, ◌<◌}
use mathlib.Core.Path.{◌≡◌}
use native.Mathlib.Omega.{arith}
use exchange_server.Prelude.Tests.{leb, ltb, if◌then◌else◌}
use exchange_server.Prelude.Int.{ℤ, pos, negsuc}

-- `a - b` on `uint64_t`, for a and b in its range
abbrev pub sub64 : ℕ → ℕ → ℕ
sub64 a b = if leb b a then a - b else a + 2 ^ 64 - b

-- `a * b` on `uint64_t`
abbrev pub mul64 : ℕ → ℕ → ℕ
mul64 a b = a * b % 2 ^ 64

-- A `uint64_t` stored in an `int64_t`.
abbrev pub as_int64 : ℕ → ℤ
as_int64 n = if ltb n (2 ^ 63) then pos n else negsuc (2 ^ 64 - n - 1)

-- A wider unsigned number stored in an `int`.
abbrev pub as_int32 : ℕ → ℤ
as_int32 n = let low = n % 2 ^ 32 in if ltb low (2 ^ 31) then pos low else negsuc (2 ^ 32 - low - 1)

-- A `uint64_t` stored in a `uint32_t`.
abbrev pub as_uint32 : ℕ → ℕ
as_uint32 n = n % 2 ^ 32

pub as_int64-mul64 : (a b : ℕ) → a * b < 2 ^ 63 → as_int64 (mul64 a b) ≡ pos (a * b)
as_int64-mul64 a b h = ground arith

pub as_int32-small : (n : ℕ) → n < 2 ^ 31 → as_int32 n ≡ pos n
as_int32-small n h = ground arith
