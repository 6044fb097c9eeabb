-- ===== src/Wire/Fields.antt =====
-- A message as a sequence of fields: the calls of the Encoder in order, and the calls of the
-- Decoder that match them. A tail, which has no length prefix, may only come last.
use simplex_go.Base.{
  ℕ, ◌^◌, ◌≤◌, ◌<◌, ◌≡◌, refl, sym, ap, ap₂, ◌∙◌, subst, Bool, true, false, Option, none, some,
  List, [], ◌∷◌, ◌++◌, arith, be16, be32, length, All, Bytes, IsByte, Result, Op, pure, ◌>>=◌, ◌>>◌,
  ok,
}
use simplex_go.Base.Int.{ℤ, IsInt64}
use simplex_go.Wire.Encoder
use simplex_go.Wire.Decoder
use simplex_go.Wire.Encoder.{Encoder, encode}
use simplex_go.Wire.Decoder.{Decoder, new_decoder}
use simplex_go.Wire.Reads.{
  IsValid, unread, advance, Reads, Writes, advance-fits, unread-advance, Writes->>,
}
use simplex_go.Wire.Consumes.{Consumes}
use simplex_go.Wire.Exhausts.{Exhausts, Exhausts->>=, Exhausts-tail, Exhausts-decode, Exhausts-map}
use simplex_go.Wire.Canonical.{
  Consumes-word16, Consumes-word32, Consumes-char, Consumes-short_string, Consumes-large,
  Consumes-bool, Consumes-int64, Consumes-maybe,
}
use simplex_go.Wire.Primitives.{
  short_bytes, large_bytes, bool_bytes, maybe_bytes, FitsMaybe, int64_bytes, Writes-word16,
  Writes-word32, Writes-char, Writes-tail, Writes-bool, Writes-short_string, Writes-large,
  Writes-maybe, Writes-int64, Reads-word16, Reads-word32, Reads-char, Reads-short_string,
  Reads-large, Reads-bool, Reads-maybe, Reads-int64,
}

pub data Kind : Type 0 where
  word16 word32 int64 short large bool char maybe : Kind

-- The value that a field of a kind holds.
abbrev pub Value : Kind → Type 0
Value word16 = ℕ
Value word32 = ℕ
Value int64 = ℤ
Value short = Bytes
Value large = Bytes
Value bool = Bool
Value char = ℕ
Value maybe = Option Bytes

abbrev pub Field : Type 0
Field = (k : Kind) × Value k

-- The values that the Go types and the length prefixes admit.
abbrev pub Fits : (k : Kind) → Value k → Type 0
Fits word16 v = v < 2 ^ 16
Fits word32 v = v < 2 ^ 32
Fits int64 v = IsInt64 v
Fits short v = length v ≤ 255
Fits large v = length v ≤ 65535
Fits bool v = Unit {0}
Fits char v = v < 256
Fits maybe o = FitsMaybe o

abbrev pub AllFit : List Field → Type 0
AllFit [] = Unit {0}
AllFit ((k, v) ∷ fs) = Fits k v × AllFit fs

unfoldable pub write : (k : Kind) → Value k → Op Encoder (Unit {0})
write word16 v = Encoder.word16 v
write word32 v = Encoder.word32 v
write int64 v = Encoder.int64 v
write short v = Encoder.short_string v
write large v = Encoder.large v
write bool v = Encoder.bool v
write char v = Encoder.char v
write maybe none = Encoder.maybe_short_string false []
write maybe (some v) = Encoder.maybe_short_string true v

unfoldable pub read : (k : Kind) → Op Decoder (Value k)
read word16 = Decoder.word16
read word32 = Decoder.word32
read int64 = Decoder.int64
read short = Decoder.short_string
read large = Decoder.large
read bool = Decoder.bool
read char = Decoder.char
read maybe = Decoder.maybe_short_string

unfoldable pub write_all : List Field → Bytes → Op Encoder (Unit {0})
unfolding write
write_all [] rest = Encoder.tail rest
write_all ((k, v) ∷ fs) rest = do write k v; write_all fs rest

unfoldable pub read_all : List Kind → Op Decoder (List Field × Bytes)
unfolding read
read_all [] = do rest ← Decoder.tail; pure ([], rest)
read_all (k ∷ ks) = do v ← read k; (fs, rest) ← read_all ks; pure ((k, v) ∷ fs, rest)

abbrev pub kinds : List Field → List Kind
kinds [] = []
kinds ((k, v) ∷ fs) = k ∷ kinds fs

abbrev pub bytes_of : (k : Kind) → Value k → Bytes
bytes_of word16 v = be16 v
bytes_of word32 v = be32 v
bytes_of int64 v = int64_bytes v
bytes_of short v = short_bytes v
bytes_of large v = large_bytes v
bytes_of bool v = bool_bytes v
bytes_of char v = v ∷ []
bytes_of maybe v = maybe_bytes v

abbrev pub all_bytes : List Field → Bytes → Bytes
all_bytes [] rest = rest
all_bytes ((k, v) ∷ fs) rest = bytes_of k v ++ all_bytes fs rest

write-Writes : (k : Kind) (v : Value k) → Fits k v → Writes (write k v) (bytes_of k v)
unfolding write
write-Writes word16 v h = Writes-word16 v
write-Writes word32 v h = Writes-word32 v
write-Writes int64 v h = Writes-int64 v
write-Writes short v h = Writes-short_string v h
write-Writes large v h = Writes-large v h
write-Writes bool v h = Writes-bool v
write-Writes char v h = Writes-char v
write-Writes maybe none h = Writes-maybe false [] (omega arith)
write-Writes maybe (some v) h = Writes-maybe true v h

read-Reads : (k : Kind) (v : Value k) → Fits k v → Reads (read k) (bytes_of k v) v
unfolding read
read-Reads word16 v h = Reads-word16 v h
read-Reads word32 v h = Reads-word32 v h
read-Reads int64 v h = Reads-int64 v h
read-Reads short v h = Reads-short_string v
read-Reads large v h = Reads-large v h
read-Reads bool v h = Reads-bool v
read-Reads char v h = Reads-char v
read-Reads maybe v h = Reads-maybe v

write_all-Writes :
    (fs : List Field) (rest : Bytes) → AllFit fs → Writes (write_all fs rest) (all_bytes fs rest)
unfolding write_all
write_all-Writes [] rest h = Writes-tail rest
write_all-Writes ((k, v) ∷ fs) rest h =
    Writes->> _ _ _ _ (write-Writes k v h.0) (write_all-Writes fs rest h.1)

read_all-result :
    (fs : List Field) (rest : Bytes) (d : Decoder)
    → AllFit fs
    → IsValid d
    → unread d ≡ all_bytes fs rest
    → (read_all (kinds fs) d).0 ≡ ok (fs, rest)
unfolding read_all Decoder.tail
read_all-result [] rest d h v e = ap (λ (x : Bytes). ok ([], x)) e
read_all-result ((k, w) ∷ fs) rest d h v e = rw (read-Reads k w h.0 d (all_bytes fs rest) v e) (
    let d' = advance (length (bytes_of k w)) d in
    let ih =
      read_all-result fs rest d' h.1 (advance-fits d (bytes_of k w) _ v e)
        (unread-advance d (bytes_of k w) _ e) in
    rw (resume-ok (read_all (kinds fs) d') ih) refl)
  where
    resume-ok :
        (r : Result (List Field × Bytes) × Decoder) → r.0 ≡ ok (fs, rest) → r ≡ (ok (fs, rest), r.1)
    resume-ok (r, x) p = λ i. (p i, x)

-- Any sequence of fields whose values fit, written in order and followed by a tail, encodes without
-- an error, and the decoder's methods called in that order on the bytes return each field and the
-- tail.
pub read_all-write_all :
    (fs : List Field) (rest : Bytes)
    → AllFit fs
    → (bs : Bytes) × (encode (write_all fs rest) ≡ ok bs)
      × ((read_all (kinds fs) (new_decoder bs)).0 ≡ ok (fs, rest))
read_all-write_all fs rest h = (
  all_bytes fs rest,
  ap Encoder.finish (write_all-Writes fs rest h (record { buf = [] })),
  read_all-result fs rest (new_decoder (all_bytes fs rest)) h (omega arith) refl,
)

read-Consumes : (k : Kind) → Consumes (read k) (λ v bs. (bs ≡ bytes_of k v) × Fits k v)
unfolding read
read-Consumes word16 = Consumes-word16
read-Consumes word32 = Consumes-word32
read-Consumes int64 = Consumes-int64
read-Consumes short = Consumes-short_string
read-Consumes large = Consumes-large
read-Consumes bool =
    λ d a d' v all e. let (bs, u, w, b, p) = Consumes-bool d a d' v all e in (bs, u, w, b, (p, tt))
read-Consumes char = Consumes-char
read-Consumes maybe = Consumes-maybe

abbrev Spelled : List Kind → List Field × Bytes → Bytes → Type 0
Spelled ks r bs = (kinds r.0 ≡ ks) × AllFit r.0 × (bs ≡ all_bytes r.0 r.1)

abbrev after_field : (k : Kind) → Value k → List Field × Bytes → List Field × Bytes
after_field k v w = ((k, v) ∷ w.0, w.1)

read_all-Exhausts : (ks : List Kind) → Exhausts (read_all ks) (Spelled ks)
unfolding read_all
read_all-Exhausts [] = Exhausts-tail (λ rest. ([], rest)) (Spelled []) (λ bs. (refl, tt, refl))
read_all-Exhausts (k ∷ ks) =
    Exhausts->>= (read k) _ (λ v bs. (bs ≡ bytes_of k v) × Fits k v)
      (λ v r bs. (w : List Field × Bytes) × (r ≡ after_field k v w) × Spelled ks w bs)
      (Spelled (k ∷ ks)) (read-Consumes k)
      (λ v. Exhausts-map (read_all ks) (after_field k v) (Spelled ks) (read_all-Exhausts ks))
      (λ v r bs cs p q.
        let (w, e, t) = q in
        subst (λ r. Spelled (k ∷ ks) r (bs ++ cs)) (sym e)
          (ap (◌∷◌ k) t.0, (p.1, t.1), ap₂ ◌++◌ p.0 t.2))

-- The converse: when the decoder's methods succeed on a buffer of bytes, the fields that they
-- return are of the kinds asked for and in range, and the encoder writes that very buffer for them.
pub write_all-read_all :
    (ks : List Kind) (bs : Bytes) (fs : List Field) (rest : Bytes)
    → All IsByte bs
    → (read_all ks (new_decoder bs)).0 ≡ ok (fs, rest)
    → (kinds fs ≡ ks) × AllFit fs × (encode (write_all fs rest) ≡ ok bs)
write_all-read_all ks bs fs rest all e =
    let (same, fit, spelled) =
      Exhausts-decode (read_all ks) (Spelled ks) (read_all-Exhausts ks) bs all e in
    (
      same,
      fit,
      ap Encoder.finish (write_all-Writes fs rest fit (record { buf = [] })) ∙ ap ok (sym spelled),
    )
