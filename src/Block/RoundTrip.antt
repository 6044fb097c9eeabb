-- ===== src/Block/RoundTrip.antt =====
-- When EncodeBlock succeeds, and that DecodeBlock reads back what it wrote.
use simplex_go.Base.{
  ℕ, suc, ◌%◌, ◌^◌, ◌≤◌, ◌≡◌, refl, sym, ap, ◌∙◌, subst, ◌↔◌, inl, inr, List, [], ◌∷◌, ◌++◌,
  append-nil, arith, be16, ltb, le→ltb, ltb→le, Bool-cases, length, All, Bytes, Result, pure, ◌>>=◌,
  ok, err,
}
use simplex_go.Wire.Encoder
use simplex_go.Wire.Decoder
use simplex_go.Wire.Encoder.{Encoder, encode, finish}
use simplex_go.Wire.Decoder.{Decoder, decode, new_decoder}
use simplex_go.Wire.Reads.{
  Reads, Writes, Reads-need, Reads-pure, Reads->>=, Reads-wrap, Writes->>, Writes-nothing,
}
use simplex_go.Wire.Primitives.{Writes-word16, Writes-char, Writes-raw, Reads-word16, Reads-char}
use simplex_go.Wire.Exhausts.{Ends-decode}
use simplex_go.Transmission.{
  Transmission, encode_transmission, read_transmission, decode_transmission,
}
use simplex_go.Transmission.Format.{Ends-transmission, wire_format}
use simplex_go.Transmission.Errors.{encode_transmission-eq-ok}
use simplex_go.Block.{write_transmissions, encode_block, lift, read_transmissions, decode_block}
use simplex_go.Block.Format.{framed, block_format, Parsed}

abbrev pub FitsPrefix : Bytes → Type 0
FitsPrefix w = length w ≤ 65535

Writes-framed : (ws : List Bytes) → All FitsPrefix ws → Writes (write_transmissions ws) (framed ws)
unfolding write_transmissions
Writes-framed [] h = Writes-nothing
Writes-framed (w ∷ ws) h =
    let p : length w % 2 ^ 16 ≡ length w = omega (arith, h.0) in
    rw (le→ltb 65535 (length w) h.0, p)
      (Writes->> _ _ _ _ (Writes-word16 (length w))
        (Writes->> _ _ _ _ (Writes-raw w) (Writes-framed ws h.1)))

pub encode_block-format :
    (ws : List Bytes) → length ws ≤ 255 → All FitsPrefix ws → encode_block ws ≡ ok (block_format ws)
unfolding encode_block
encode_block-format ws n h =
    let p : length ws % 256 ≡ length ws = omega arith in
    rw (le→ltb 255 (length ws) n, p)
      (ap finish
        (Writes->> _ _ _ _ (Writes-char (length ws)) (Writes-framed ws h) (record { buf = [] })))

write_transmissions-ok :
    (ws : List Bytes) (e e' : Encoder) → write_transmissions ws e ≡ (ok tt, e') → All FitsPrefix ws
unfolding write_transmissions Encoder.word16 Encoder.raw
write_transmissions-ok [] e e' h = tt
write_transmissions-ok (w ∷ ws) e e' h = elim (Bool-cases (ltb 65535 (length w))) [
  | inl long ↦ cc (rw long at h)
  | inr fits ↦ (ltb→le _ _ fits, write_transmissions-ok ws _ e' (rw fits at h))
]

finish-ok : (r : Result (Unit {0}) × Encoder) (bs : Bytes) → finish r ≡ ok bs → r ≡ (ok tt, r.1)
finish-ok (ok x, e) bs h = refl
finish-ok (err x, e) bs h = cc

-- EncodeBlock succeeds on exactly the lists of at most 255 transmissions of at most 65535 bytes
-- each, and then writes their number, a byte, and each behind its length in two bytes.
pub encode_block-eq-ok_iff :
    (ws : List Bytes) (block : Bytes)
    → (encode_block ws ≡ ok block)
      ↔ ((length ws ≤ 255) × All FitsPrefix ws × (block ≡ block_format ws))
unfolding encode_block Encoder.char
encode_block-eq-ok_iff ws block = (forward, λ h. encode_block-format ws h.0 h.1 ∙ ap ok (sym h.2))
  where
    forward :
        encode_block ws ≡ ok block
        → (length ws ≤ 255) × All FitsPrefix ws × (block ≡ block_format ws)
    forward h = elim (Bool-cases (ltb 255 (length ws))) [
      | inl many ↦ cc (rw many at h)
      | inr few ↦
          let n = ltb→le _ _ few in
          let all = write_transmissions-ok ws _ _ (finish-ok _ block (rw few at h)) in
          (n, all, cc (h, encode_block-format ws n all))
    ]

Reads-lift {ℓ} : {A : Type ℓ} (r : Result A) (a : A) → r ≡ ok a → Reads (lift r) [] a
Reads-lift r a h d more v e = rw h (Reads-pure a d more v e)

pub Reads-framed :
    (v : ℕ) (s : Bytes) (ws : List Bytes) (ts : List Transmission)
    → Parsed v s ws ts
    → Reads (read_transmissions v s (length ts)) (framed ws) ts
unfolding read_transmissions
Reads-framed v s [] [] h = Reads-pure []
Reads-framed v s [] (t ∷ ts) h = absurd h
Reads-framed v s (w ∷ ws) [] h = absurd h
Reads-framed v s (w ∷ ws) (t ∷ ts) h =
    Reads->>= _ _ (be16 (length w)) (w ++ framed ws) (length w) (t ∷ ts)
      (Reads-wrap _ Decoder.word16 (be16 (length w)) (length w)
        (Reads-word16 (length w) (omega (arith, h.0))))
      (Reads->>= _ _ w (framed ws) w (t ∷ ts)
        (Reads-wrap _ (Decoder.need (length w)) w w (Reads-need w))
        (Reads->>= _ _ [] (framed ws) t (t ∷ ts)
          (Reads-wrap _ (lift (decode_transmission v s w)) [] t (Reads-lift _ t h.1))
          (subst
            (λ bs.
              Reads (read_transmissions v s (length ts) >>= (λ out. pure (t ∷ out))) bs (t ∷ ts))
            (append-nil (framed ws))
            (Reads->>= _ _ (framed ws) [] ts (t ∷ ts) (Reads-framed v s ws ts h.2)
              (Reads-pure (t ∷ ts))))))

pub Parsed-length :
    (v : ℕ) (s : Bytes) (ws : List Bytes) (ts : List Transmission)
    → Parsed v s ws ts
    → length ws ≡ length ts
Parsed-length v s [] [] h = refl
Parsed-length v s [] (t ∷ ts) h = absurd h
Parsed-length v s (w ∷ ws) [] h = absurd h
Parsed-length v s (w ∷ ws) (t ∷ ts) h = ap suc (Parsed-length v s ws ts h.2)

Parsed-fits :
    (v : ℕ) (s : Bytes) (ws : List Bytes) (ts : List Transmission)
    → Parsed v s ws ts
    → All FitsPrefix ws
Parsed-fits v s [] [] h = tt
Parsed-fits v s [] (t ∷ ts) h = absurd h
Parsed-fits v s (w ∷ ws) [] h = absurd h
Parsed-fits v s (w ∷ ws) (t ∷ ts) h = (h.0, Parsed-fits v s ws ts h.2)

pub decode_block-format :
    (v : ℕ) (s : Bytes) (ws : List Bytes) (ts : List Transmission) (more : Bytes)
    → Parsed v s ws ts
    → decode_block v s (block_format ws ++ more) ≡ ok ts
unfolding decode_block
decode_block-format v s ws ts more h =
    let n = Parsed-length v s ws ts h in
    ap (λ (r : Result (List Transmission) × Decoder). r.0)
      (Reads->>= _ _ (length ws ∷ []) (framed ws) (length ws) ts
        (Reads-wrap _ Decoder.char (length ws ∷ []) (length ws) (Reads-char (length ws)))
        (rw n (Reads-framed v s ws ts h)) (new_decoder (block_format ws ++ more)) more (omega arith)
        refl)

-- `w` is the wire form that the code makes of `t`, and fits its length prefix.
abbrev pub Encoded : ℕ → Bytes → List Transmission → List Bytes → Type 0
Encoded v s [] [] = Unit {0}
Encoded v s (t ∷ ts) (w ∷ ws) =
    (length t.corr_id ≡ 24)
    × (length w ≤ 65535)
    × ((auth : Bytes) × (encode_transmission v s t ≡ ok (w, auth)))
    × Encoded v s ts ws
Encoded v s _ _ = ⊥

pub Encoded-Parsed :
    (v : ℕ) (s : Bytes) (ts : List Transmission) (ws : List Bytes)
    → Encoded v s ts ws
    → Parsed v s ws ts
unfolding decode_transmission
Encoded-Parsed v s [] [] h = tt
Encoded-Parsed v s [] (w ∷ ws) h = absurd h
Encoded-Parsed v s (t ∷ ts) [] h = absurd h
Encoded-Parsed v s (t ∷ ts) (w ∷ ws) h =
    let parts = encode_transmission-eq-ok v s t w h.2.0 h.2.1 in
    let parsed : decode_transmission v s w ≡ ok t =
      rw parts.3
        (Ends-decode (read_transmission v s) (wire_format v s t) t (Ends-transmission v s t h.0)) in
    (h.1, parsed, Encoded-Parsed v s ts ws h.3)

-- At most 255 transmissions with 24-byte correlation ids, each encoded by EncodeTransmission to at
-- most 65535 bytes, go into a block without an error, and DecodeBlock under the same version and
-- session id returns them in order, also where other bytes follow the block.
pub decode_block-encode_block :
    (v : ℕ) (sess_id : Bytes) (ts : List Transmission) (ws : List Bytes) (more : Bytes)
    → length ws ≤ 255
    → Encoded v sess_id ts ws
    → (block : Bytes) × (encode_block ws ≡ ok block)
      × (decode_block v sess_id (block ++ more) ≡ ok ts)
decode_block-encode_block v s ts ws more n h =
    let parsed = Encoded-Parsed v s ts ws h in
    (
      block_format ws,
      encode_block-format ws n (Parsed-fits v s ws ts parsed),
      decode_block-format v s ws ts more parsed,
    )
