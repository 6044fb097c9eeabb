-- ===== src/Base/Words.antt =====
-- encoding/binary's big-endian words.
use Prim.Native.Nat.{ℕ, ◌+◌, ◌*◌, ◌/◌, ◌%◌, ◌^◌, ◌<◌}
use mathlib.Core.Path.{◌≡◌}
use mathlib.Core.List.{[], ◌∷◌}
use native.Mathlib.Omega.{arith}
use simplex_go.Base.Lists.{Bytes, All, IsByte}

-- What AppendUint16 and AppendUint32 append.
abbrev pub be16 : ℕ → Bytes
be16 v = (v / 256 % 256) ∷ (v % 256) ∷ []

abbrev pub be32 : ℕ → Bytes
be32 v = (v / 2 ^ 24 % 256) ∷ (v / 2 ^ 16 % 256) ∷ (v / 2 ^ 8 % 256) ∷ (v % 256) ∷ []

-- BigEndian.Uint16 and Uint32. They panic on a shorter slice; their callers pass 2 and 4 bytes.
abbrev pub uint16_of : Bytes → ℕ
uint16_of (a ∷ b ∷ bs) = a * 256 + b
uint16_of _ = 0

abbrev pub uint32_of : Bytes → ℕ
uint32_of (a ∷ b ∷ c ∷ d ∷ bs) = a * 2 ^ 24 + b * 2 ^ 16 + c * 2 ^ 8 + d
uint32_of _ = 0

pub uint16_of-be16 : (v : ℕ) → v < 2 ^ 16 → uint16_of (be16 v) ≡ v
uint16_of-be16 v h = omega arith

pub uint32_of-be32 : (v : ℕ) → v < 2 ^ 32 → uint32_of (be32 v) ≡ v
uint32_of-be32 v h = omega arith

pub be16-bytes : (v : ℕ) → All IsByte (be16 v)
be16-bytes v = omega arith

pub be32-bytes : (v : ℕ) → All IsByte (be32 v)
be32-bytes v = omega arith
