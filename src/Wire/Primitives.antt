-- ===== src/Wire/Primitives.antt =====
-- What each method of the Encoder writes, and that the Decoder's method reads it back.
use simplex_go.Base.{
  ℕ, ◌+◌, ◌*◌, ◌/◌, ◌%◌, ◌^◌, ◌≤◌, ◌<◌, ◌≡◌, refl, sym, ap, ◌∙◌, subst, Bool, true, false, Option,
  none, some, [], ◌∷◌, ◌++◌, append-nil, append_assoc, arith, be16, be32, uint16_of, uint32_of,
  uint16_of-be16, uint32_of-be32, if◌then◌else◌, le→ltb, length, Bytes, pure, ◌>>=◌, ok,
}
use simplex_go.Base.Int.{ℤ, IsInt64, uint64_of, int64_of, int64_of-uint64_of, uint64_of-lt}
use simplex_go.Wire.Encoder
use simplex_go.Wire.Decoder
use simplex_go.Wire.Encoder.{max_short_string, max_large_string}
use simplex_go.Wire.Decoder.{need}
use simplex_go.Wire.Reads.{Reads, Writes, Reads-need, Reads-pure, Reads->>=, Writes->>}

abbrev pub short_bytes : Bytes → Bytes
short_bytes v = length v ∷ v

abbrev pub large_bytes : Bytes → Bytes
large_bytes v = be16 (length v) ++ v

abbrev pub bool_bytes : Bool → Bytes
bool_bytes true = b'T' ∷ []
bool_bytes false = b'F' ∷ []

abbrev pub maybe_bytes : Option Bytes → Bytes
maybe_bytes none = b'0' ∷ []
maybe_bytes (some v) = b'1' ∷ short_bytes v

-- A present short string is at most 255 bytes.
abbrev pub FitsMaybe : Option Bytes → Type 0
FitsMaybe none = Unit {0}
FitsMaybe (some v) = length v ≤ 255

abbrev pub int64_bytes : ℤ → Bytes
int64_bytes z = be32 (uint64_of z / 2 ^ 32) ++ be32 (uint64_of z % 2 ^ 32)

pub Writes-append : (bs : Bytes) → Writes (Encoder.append bs) bs
Writes-append bs e = refl

pub Writes-word16 : (v : ℕ) → Writes (Encoder.word16 v) (be16 v)
unfolding Encoder.word16
Writes-word16 v e = refl

pub Writes-word32 : (v : ℕ) → Writes (Encoder.word32 v) (be32 v)
unfolding Encoder.word32
Writes-word32 v e = refl

pub Writes-char : (c : ℕ) → Writes (Encoder.char c) (c ∷ [])
unfolding Encoder.char
Writes-char c e = refl

pub Writes-raw : (bs : Bytes) → Writes (Encoder.raw bs) bs
unfolding Encoder.raw
Writes-raw bs e = refl

pub Writes-tail : (bs : Bytes) → Writes (Encoder.tail bs) bs
unfolding Encoder.tail
Writes-tail bs e = refl

pub Writes-bool : (b : Bool) → Writes (Encoder.bool b) (bool_bytes b)
unfolding Encoder.bool
Writes-bool true e = refl
Writes-bool false e = refl

pub Writes-short_string :
    (v : Bytes) → length v ≤ 255 → Writes (Encoder.short_string v) (short_bytes v)
unfolding Encoder.short_string
Writes-short_string v h e =
    let p : length v % 256 ≡ length v = omega arith in
    rw (le→ltb 255 (length v) h, p)
      (λ i. (ok tt, record e { buf = append_assoc e.buf (length v ∷ []) v i }))

pub Writes-large : (v : Bytes) → length v ≤ 65535 → Writes (Encoder.large v) (large_bytes v)
unfolding Encoder.large
Writes-large v h e =
    let p : length v % 2 ^ 16 ≡ length v = omega arith in
    rw (le→ltb 65535 (length v) h, p)
      (λ i. (ok tt, record e { buf = append_assoc e.buf (be16 (length v)) v i }))

pub Writes-maybe :
    (present : Bool) (v : Bytes)
    → length v ≤ 255
    → Writes (Encoder.maybe_short_string present v) (maybe_bytes (if present then some v else none))
unfolding Encoder.maybe_short_string
Writes-maybe true v h =
    Writes->> _ _ (b'1' ∷ []) (short_bytes v) (Writes-append _) (Writes-short_string v h)
Writes-maybe false v h = Writes-append _

pub Writes-int64 : (z : ℤ) → Writes (Encoder.int64 z) (int64_bytes z)
unfolding Encoder.int64
Writes-int64 z e =
    let p : uint64_of z / 2 ^ 32 % 2 ^ 32 ≡ uint64_of z / 2 ^ 32 = omega (arith, uint64_of-lt z) in
    rw p (λ i. (
      ok tt,
      record e {
        buf = append_assoc e.buf (be32 (uint64_of z / 2 ^ 32)) (be32 (uint64_of z % 2 ^ 32)) i;
      },
    ))

pub Reads-word16 : (v : ℕ) → v < 2 ^ 16 → Reads Decoder.word16 (be16 v) v
unfolding Decoder.word16
Reads-word16 v h =
    Reads->>= (need 2) (λ b. pure (uint16_of b)) (be16 v) [] (be16 v) v (Reads-need (be16 v))
      (subst (λ (w : ℕ). Reads (pure w) [] v) (sym (uint16_of-be16 v h)) (Reads-pure v))

pub Reads-word32 : (v : ℕ) → v < 2 ^ 32 → Reads Decoder.word32 (be32 v) v
unfolding Decoder.word32
Reads-word32 v h =
    Reads->>= (need 4) (λ b. pure (uint32_of b)) (be32 v) [] (be32 v) v (Reads-need (be32 v))
      (subst (λ (w : ℕ). Reads (pure w) [] v) (sym (uint32_of-be32 v h)) (Reads-pure v))

pub Reads-char : (c : ℕ) → Reads Decoder.char (c ∷ []) c
unfolding Decoder.char
Reads-char c = Reads->>= (need 1) _ (c ∷ []) [] (c ∷ []) c (Reads-need (c ∷ [])) (Reads-pure c)

pub Reads-short_string : (v : Bytes) → Reads Decoder.short_string (short_bytes v) v
unfolding Decoder.short_string
Reads-short_string v =
    Reads->>= (need 1) _ (length v ∷ []) v (length v ∷ []) v (Reads-need (length v ∷ []))
      (Reads-need v)

pub Reads-large : (v : Bytes) → length v ≤ 65535 → Reads Decoder.large (large_bytes v) v
unfolding Decoder.large
Reads-large v h =
    Reads->>= Decoder.word16 _ (be16 (length v)) v (length v) v
      (Reads-word16 (length v) (omega arith)) (Reads-need v)

pub Reads-bool : (b : Bool) → Reads Decoder.bool (bool_bytes b) b
unfolding Decoder.bool
Reads-bool true =
    Reads->>= (need 1) _ (b'T' ∷ []) [] (b'T' ∷ []) true (Reads-need (b'T' ∷ [])) (Reads-pure true)
Reads-bool false =
    Reads->>= (need 1) _ (b'F' ∷ []) [] (b'F' ∷ []) false (Reads-need (b'F' ∷ []))
      (Reads-pure false)

pub Reads-maybe : (o : Option Bytes) → Reads Decoder.maybe_short_string (maybe_bytes o) o
unfolding Decoder.maybe_short_string
Reads-maybe none =
    Reads->>= Decoder.char _ (b'0' ∷ []) [] b'0' none (Reads-char b'0') (Reads-pure none)
Reads-maybe (some v) =
    Reads->>= Decoder.char _ (b'1' ∷ []) (short_bytes v) b'1' (some v) (Reads-char b'1') (
      subst (λ bs. Reads (Decoder.short_string >>= (λ w. pure (some w))) bs (some v))
        (append-nil (short_bytes v))
        (Reads->>= Decoder.short_string _ (short_bytes v) [] v (some v) (Reads-short_string v)
          (Reads-pure (some v))))

int64_halves : (z : ℤ) → uint64_of z / 2 ^ 32 * 2 ^ 32 + uint64_of z % 2 ^ 32 ≡ uint64_of z
int64_halves z = omega arith

pub Reads-int64 : (z : ℤ) → IsInt64 z → Reads Decoder.int64 (int64_bytes z) z
unfolding Decoder.int64
Reads-int64 z h =
    let hi = uint64_of z / 2 ^ 32 in
    let lo = uint64_of z % 2 ^ 32 in
    Reads->>= Decoder.word32 _ (be32 hi) (be32 lo) hi z
      (Reads-word32 hi (omega (arith, uint64_of-lt z)))
      (Reads->>= Decoder.word32 _ (be32 lo) [] lo z (Reads-word32 lo (omega arith)) (
        subst (λ (w : ℤ). Reads (pure w) [] z)
          (sym (ap int64_of (int64_halves z) ∙ int64_of-uint64_of z h)) (Reads-pure z)))
