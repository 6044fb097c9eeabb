-- ===== src/Wire/Bounds.antt =====
-- No method of the Decoder leaves the buffer, on success or on an error.
use simplex_go.Base.{
  ℕ, ◌+◌, ◌≤◌, ◌≡◌, refl, ◌∙◌, inl, inr, Bool, true, false, Option, none, some, List, [], ◌∷◌, ◌++◌,
  arith, ltb, ◌==◌, if◌then◌else◌, ltb→le, Bool-cases, length, Bytes, Error, Result, Op, pure, fail,
  resume, ◌>>=◌, short_string_too_long, large_string_too_long, bad_encoding, sentinel, ok, err,
}
use simplex_go.Wire.Primitives.{
  short_bytes, large_bytes, maybe_bytes, Writes-short_string, Writes-large, Writes-maybe,
}
use simplex_go.Wire.Encoder
use simplex_go.Wire.Decoder
use simplex_go.Wire.Encoder.{Encoder}
use simplex_go.Wire.Decoder.{Decoder, need}
use simplex_go.Wire.Reads.{IsValid}
use simplex_go.Wire.Fields.{
  Kind, word16, word32, int64, short, large, bool, char, maybe, read, read_all,
}

-- The position stays in the buffer and never moves back, and the buffer does not change.
abbrev Stays : Decoder → Decoder → Type 0
Stays d d' = IsValid d' × (d'.buf ≡ d.buf) × (d.pos ≤ d'.pos)

pub record Keeps {ℓ} {A : Type ℓ} (m : Op Decoder A) : Type 0 where
  pub stays : (d : Decoder) → IsValid d → Stays d (m d).1

Keeps-pure {ℓ} : {A : Type ℓ} (a : A) → Keeps (pure a)
Keeps-pure a = record { stays = λ d v. (v, refl, omega arith) }

Keeps-need : (n : ℕ) → Keeps (need n)
unfolding need
Keeps-need n = record {
  stays = λ d v. elim (Bool-cases (ltb (length d.buf) (d.pos + n))) [
    | inl past ↦ rw past (v, refl, omega arith)
    | inr fits ↦ rw fits (ltb→le _ _ fits, refl, omega arith)
  ];
}

Keeps-resume {ℓ κ} :
    {A : Type ℓ} {B : Type κ} (r : Result A × Decoder) (f : A → Op Decoder B) (d : Decoder)
    → Stays d r.1
    → ((a : A) → Keeps (f a))
    → Stays d (resume r.0 r.1 f).1
Keeps-resume (ok a, d₁) f d h k =
    let (v, b, p) = (k a).stays d₁ h.0 in (v, b ∙ h.1, omega (arith, p, h.2))
Keeps-resume (err x, d₁) f d h k = h

pub Keeps->>= {ℓ κ} :
    {A : Type ℓ} {B : Type κ} (m : Op Decoder A) (f : A → Op Decoder B)
    → Keeps m
    → ((a : A) → Keeps (f a))
    → Keeps (m >>= f)
Keeps->>= m f hm hf = record { stays = λ d v. Keeps-resume (m d) f d (hm.stays d v) hf }

Keeps-if {ℓ} :
    {A : Type ℓ} (c : Bool) (m k : Op Decoder A) → Keeps m → Keeps k → Keeps (if c then m else k)
Keeps-if true m k hm hk = hm
Keeps-if false m k hm hk = hk

Keeps-fail {ℓ} : (A : Type ℓ) (x : Error) → Keeps {A = A} (fail x)
Keeps-fail A x = record { stays = λ d v. (v, refl, omega arith) }

Keeps-word16 : Keeps Decoder.word16
unfolding Decoder.word16
Keeps-word16 = Keeps->>= _ _ (Keeps-need 2) (λ b. Keeps-pure _)

Keeps-word32 : Keeps Decoder.word32
unfolding Decoder.word32
Keeps-word32 = Keeps->>= _ _ (Keeps-need 4) (λ b. Keeps-pure _)

Keeps-char : Keeps Decoder.char
unfolding Decoder.char
Keeps-char = Keeps->>= _ _ (Keeps-need 1) (λ b. Keeps-pure _)

Keeps-short_string : Keeps Decoder.short_string
unfolding Decoder.short_string
Keeps-short_string = Keeps->>= _ _ (Keeps-need 1) (λ b. Keeps-need _)

Keeps-tail : Keeps Decoder.tail
unfolding Decoder.tail
Keeps-tail = record { stays = λ d v. (omega arith, refl, v) }

read-Keeps : (k : Kind) → Keeps (read k)
unfolding read Decoder.int64 Decoder.large Decoder.bool Decoder.maybe_short_string
read-Keeps word16 = Keeps-word16
read-Keeps word32 = Keeps-word32
read-Keeps int64 =
    Keeps->>= _ _ Keeps-word32 (λ hi. Keeps->>= _ _ Keeps-word32 (λ lo. Keeps-pure _))
read-Keeps short = Keeps-short_string
read-Keeps large = Keeps->>= _ _ Keeps-word16 (λ n. Keeps-need n)
read-Keeps bool = Keeps->>= _ _ (Keeps-need 1) (λ b.
    Keeps-if (Decoder.first b == b'T') (pure true)
      (if Decoder.first b == b'F' then pure false else fail (sentinel bad_encoding))
      (Keeps-pure true)
      (Keeps-if (Decoder.first b == b'F') (pure false) (fail (sentinel bad_encoding))
        (Keeps-pure false) (Keeps-fail Bool (sentinel bad_encoding))))
read-Keeps char = Keeps-char
read-Keeps maybe =
    let present : Op Decoder (Option Bytes) = Decoder.short_string >>= (λ v. pure (some v)) in
    Keeps->>= _ _ Keeps-char (λ c.
      Keeps-if (c == b'0') (pure none) (if c == b'1' then present else fail (sentinel bad_encoding))
        (Keeps-pure none)
        (Keeps-if (c == b'1') present (fail (sentinel bad_encoding))
          (Keeps->>= _ _ Keeps-short_string (λ v. Keeps-pure (some v)))
          (Keeps-fail (Option Bytes) (sentinel bad_encoding))))

read_all-Keeps : (ks : List Kind) → Keeps (read_all ks)
unfolding read_all
read_all-Keeps [] = Keeps->>= _ _ Keeps-tail (λ rest. Keeps-pure _)
read_all-Keeps (k ∷ ks) =
    Keeps->>= _ _ (read-Keeps k) (λ v. Keeps->>= _ _ (read_all-Keeps ks) (λ w. Keeps-pure _))

-- The decoder's methods in any order, then Tail, on any decoder whose position is in its buffer: on
-- success and on an error alike the position stays within the buffer and does not move back, and
-- the buffer is unchanged.
pub read_all-stays :
    (ks : List Kind) (d : Decoder)
    → IsValid d
    → let d' = (read_all ks d).1 in IsValid d' × (d'.buf ≡ d.buf) × (d.pos ≤ d'.pos)
read_all-stays ks d v = (read_all-Keeps ks).stays d v

short_string-result :
    (v : Bytes) (e : Encoder)
    → Encoder.short_string v e ≡ (
        if ltb 255 (length v)
        then (err (sentinel short_string_too_long), e)
        else (ok tt, record e { buf = e.buf ++ short_bytes v }))
short_string-result v e = elim (Bool-cases (ltb 255 (length v))) [
  | inl long ↦ unfold Encoder.short_string in rw long
  | inr fits ↦ Writes-short_string v (ltb→le _ _ fits) e ∙ rw fits
]

large-result :
    (v : Bytes) (e : Encoder)
    → Encoder.large v e ≡ (
        if ltb 65535 (length v)
        then (err (sentinel large_string_too_long), e)
        else (ok tt, record e { buf = e.buf ++ large_bytes v }))
large-result v e = elim (Bool-cases (ltb 65535 (length v))) [
  | inl long ↦ unfold Encoder.large in rw long
  | inr fits ↦ Writes-large v (ltb→le _ _ fits) e ∙ rw fits
]

maybe-result :
    (v : Bytes) (e : Encoder)
    → Encoder.maybe_short_string true v e ≡ (
        if ltb 255 (length v)
        then (err (sentinel short_string_too_long), record e { buf = e.buf ++ (b'1' ∷ []) })
        else (ok tt, record e { buf = e.buf ++ maybe_bytes (some v) }))
maybe-result v e = elim (Bool-cases (ltb 255 (length v))) [
  | inl long ↦ unfold Encoder.maybe_short_string Encoder.short_string in rw long
  | inr fits ↦ Writes-maybe true v (ltb→le _ _ fits) e ∙ rw fits
]

-- On every input: a string past its limit is refused with the limit's error variable, where
-- ShortString and Large leave the buffer as it was and MaybeShortString leaves the tag that it has
-- written; any other string is appended behind its length, and behind its tag.
pub string_writes :
    (v : Bytes) (e : Encoder)
    → (Encoder.short_string v e ≡ (
        if ltb 255 (length v)
        then (err (sentinel short_string_too_long), e)
        else (ok tt, record e { buf = e.buf ++ short_bytes v })))
      × (Encoder.large v e ≡ (
          if ltb 65535 (length v)
          then (err (sentinel large_string_too_long), e)
          else (ok tt, record e { buf = e.buf ++ large_bytes v })))
      × (Encoder.maybe_short_string true v e ≡ (
          if ltb 255 (length v)
          then (err (sentinel short_string_too_long), record e { buf = e.buf ++ (b'1' ∷ []) })
          else (ok tt, record e { buf = e.buf ++ maybe_bytes (some v) })))
string_writes v e = (short_string-result v e, large-result v e, maybe-result v e)
