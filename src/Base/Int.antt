-- ===== src/Base/Int.antt =====
-- Go's int64 as an integer. `negsuc n` is -(n + 1).
use Prim.Native.Nat.{ℕ, ◌-◌, ◌%◌, ◌^◌, ◌<◌}
use mathlib.Core.Path.{◌≡◌}
use native.Mathlib.Omega.{arith}
use simplex_go.Base.Tests.{ltb, if◌then◌else◌}

pub data ℤ : Type 0 where
  pos : ℕ → ℤ
  negsuc : ℕ → ℤ

-- -2^63 ≤ z < 2^63
abbrev pub IsInt64 : ℤ → Type 0
IsInt64 (pos n) = n < 2 ^ 63
IsInt64 (negsuc n) = n < 2 ^ 63

-- The conversion uint64(v): the two's complement pattern of v.
unfoldable pub uint64_of : ℤ → ℕ
uint64_of (pos n) = n % 2 ^ 64
uint64_of (negsuc n) = 2 ^ 64 - 1 - n % 2 ^ 64

-- The conversion int64(w) of a uint64.
unfoldable pub int64_of : ℕ → ℤ
int64_of w = if ltb w (2 ^ 63) then pos w else negsuc (2 ^ 64 - 1 - w)

pub int64_of-uint64_of : (z : ℤ) → IsInt64 z → int64_of (uint64_of z) ≡ z
unfolding int64_of uint64_of
int64_of-uint64_of (pos n) h = ground arith
int64_of-uint64_of (negsuc n) h = ground arith

pub uint64_of-lt : (z : ℤ) → uint64_of z < 2 ^ 64
unfolding uint64_of
uint64_of-lt (pos n) = omega arith
uint64_of-lt (negsuc n) = omega arith

pub uint64_of-int64_of : (w : ℕ) → w < 2 ^ 64 → (uint64_of (int64_of w) ≡ w) × IsInt64 (int64_of w)
unfolding int64_of uint64_of
uint64_of-int64_of w h = ground arith
