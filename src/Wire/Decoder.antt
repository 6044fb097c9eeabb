-- ===== src/Wire/Decoder.antt =====
-- The Decoder of smp/encoding.go. `pos + n` does not overflow Go's int: `n` is at most 65535, and
-- a slice is shorter than 2^63 - 65536.
use simplex_go.Base.{
  ℕ, ◌+◌, ◌-◌, ◌*◌, ◌^◌, Bool, true, false, Option, none, some, [], ◌∷◌, uint16_of, uint32_of, ltb,
  leb, ◌==◌, if◌then◌else◌, length, take, drop, Bytes, Result, Op, pure, fail, ◌>>=◌, truncated,
  bad_encoding, sentinel, ok,
}
use simplex_go.Base.Int.{ℤ, int64_of}

pub record Decoder : Type 0 where
  pub buf : Bytes
  pub pos : ℕ

abbrev pub new_decoder : Bytes → Decoder
new_decoder buf = record { buf = buf; pos = 0 }

-- len(d.buf) - d.pos, where `pos` is at most the length.
unfoldable pub remaining : Decoder → ℕ
remaining d = length d.buf - d.pos

unfoldable pub done : Decoder → Bool
done d = leb (length d.buf) d.pos

-- The slice d.buf[d.pos : d.pos+n].
unfoldable pub need : ℕ → Op Decoder Bytes
need n d =
    if ltb (length d.buf) (d.pos + n)
    then fail (sentinel truncated) d
    else (ok (take n (drop d.pos d.buf)), record d { pos = d.pos + n })

unfoldable pub word16 : Op Decoder ℕ
unfolding need
word16 = do b ← need 2; pure (uint16_of b)

unfoldable pub word32 : Op Decoder ℕ
unfolding need
word32 = do b ← need 4; pure (uint32_of b)

-- `uint64(hi)<<32 | uint64(lo)`: the two halves have no bit in common.
unfoldable pub int64 : Op Decoder ℤ
unfolding word32
int64 = do hi ← word32; lo ← word32; pure (int64_of (hi * 2 ^ 32 + lo))

-- b[0]
abbrev pub first : Bytes → ℕ
first [] = 0
first (b ∷ bs) = b

unfoldable pub short_string : Op Decoder Bytes
unfolding need
short_string = do lb ← need 1; need (first lb)

unfoldable pub large : Op Decoder Bytes
unfolding word16 need
large = do n ← word16; need n

unfoldable pub bool : Op Decoder Bool
unfolding need
bool = do
  b ← need 1
  if first b == b'T'
      then pure true
      else if first b == b'F'
      then pure false
      else fail (sentinel bad_encoding)

unfoldable pub char : Op Decoder ℕ
unfolding need
char = do b ← need 1; pure (first b)

unfoldable pub tail : Op Decoder Bytes
tail d = (ok (drop d.pos d.buf), record d { pos = length d.buf })

-- `none` is present = false, `some v` is present = true with v.
unfoldable pub maybe_short_string : Op Decoder (Option Bytes)
unfolding char short_string
maybe_short_string = do
  tag ← char
  if tag == b'0'
      then pure none
      else if tag == b'1'
      then short_string >>= (λ v. pure (some v))
      else fail (sentinel bad_encoding)

-- d := NewDecoder(buf), a chain of its methods, and the result of the chain.
abbrev pub decode {ℓ} : {A : Type ℓ} → Op Decoder A → Bytes → Result A
decode m buf = (m (new_decoder buf)).0
