-- ===== src/Wire/Encoder.antt =====
-- The Encoder of smp/encoding.go. The conversions to byte, uint16 and uint32 are the `%` here.
use simplex_go.Base.{
  ℕ, ◌/◌, ◌%◌, ◌^◌, Bool, [], ◌∷◌, ◌++◌, Bytes, length, ltb, if◌then◌else◌, be16, be32, Result, ok,
  Op, fail, ◌>>◌, sentinel, short_string_too_long, large_string_too_long, err,
}
use simplex_go.Base.Int.{ℤ, uint64_of}

abbrev pub max_short_string : ℕ
max_short_string = 255

abbrev pub max_large_string : ℕ
max_large_string = 65535

pub record Encoder : Type 0 where
  pub buf : Bytes

abbrev pub new_encoder : Encoder
new_encoder = record { buf = [] }

-- e.buf = append(e.buf, v...)
abbrev pub append : Bytes → Op Encoder (Unit {0})
append v e = (ok tt, record { buf = e.buf ++ v })

unfoldable pub word16 : ℕ → Op Encoder (Unit {0})
word16 v = append (be16 v)

unfoldable pub word32 : ℕ → Op Encoder (Unit {0})
word32 v = append (be32 v)

unfoldable pub int64 : ℤ → Op Encoder (Unit {0})
unfolding word32
int64 v = do word32 (uint64_of v / 2 ^ 32 % 2 ^ 32); word32 (uint64_of v % 2 ^ 32)

unfoldable pub short_string : Bytes → Op Encoder (Unit {0})
short_string v =
    if ltb max_short_string (length v)
    then fail (sentinel short_string_too_long)
    else do append ((length v % 256) ∷ []); append v

unfoldable pub large : Bytes → Op Encoder (Unit {0})
unfolding word16
large v =
    if ltb max_large_string (length v)
    then fail (sentinel large_string_too_long)
    else do word16 (length v % 2 ^ 16); append v

unfoldable pub bool : Bool → Op Encoder (Unit {0})
bool v = if v then append (b'T' ∷ []) else append (b'F' ∷ [])

unfoldable pub char : ℕ → Op Encoder (Unit {0})
char c = append (c ∷ [])

unfoldable pub tail : Bytes → Op Encoder (Unit {0})
tail v = append v

unfoldable pub maybe_short_string : Bool → Bytes → Op Encoder (Unit {0})
unfolding short_string
maybe_short_string present v =
    if present then (do append (b'1' ∷ []); short_string v) else append (b'0' ∷ [])

unfoldable pub raw : Bytes → Op Encoder (Unit {0})
raw v = append v

-- e := NewEncoder(); …; return e.Bytes(), nil, or return nil, err
abbrev pub finish : Result (Unit {0}) × Encoder → Result Bytes
finish (ok _, e) = ok e.buf
finish (err x, e) = err x

abbrev pub encode : Op Encoder (Unit {0}) → Result Bytes
encode m = finish (m new_encoder)
