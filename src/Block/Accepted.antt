-- ===== src/Block/Accepted.antt =====
-- The blocks that DecodeBlock accepts.
use simplex_go.Base.{
  ℕ, zero, suc, ◌^◌, ◌<◌, ◌≡◌, refl, sym, ap, ap₂, ◌∙◌, subst, ◌↔◌, List, [], ◌∷◌, ◌++◌, append-nil,
  arith, be16, length, All, Bytes, IsByte, Result, Op, pure, wrap, ◌>>=◌, within, ok, err,
}
use simplex_go.Wire.Decoder
use simplex_go.Wire.Decoder.{Decoder, need, new_decoder}
use simplex_go.Wire.Reads.{IsValid, unread}
use simplex_go.Wire.Consumes.{
  Consumes, Consumes->>=, Consumes-pure, Consumes-fail, Consumes-wrap, Consumes-need,
}
use simplex_go.Wire.Canonical.{Consumes-word16, Consumes-char}
use simplex_go.Transmission.{Transmission, decode_transmission}
use simplex_go.Block.{lift, read_transmissions, decode_block}
use simplex_go.Block.Format.{framed, block_format, Parsed}
use simplex_go.Block.RoundTrip.{decode_block-format}

Consumes-lift {ℓ} : {A : Type ℓ} (r : Result A) → Consumes (lift r) (λ a bs. (r ≡ ok a) × (bs ≡ []))
Consumes-lift r d a d' v all e =
    let same : d ≡ d' = cc in
    ([], ap unread same, subst IsValid same v, ap (λ (x : Decoder). x.buf) (sym same), (cc, refl))

abbrev Framed : ℕ → Bytes → ℕ → List Transmission → Bytes → Type 0
Framed v s n ts bs = (ws : List Bytes) × (bs ≡ framed ws) × (length ws ≡ n) × Parsed v s ws ts

-- After the body of one transmission.
abbrev FromBody : ℕ → Bytes → ℕ → Bytes → List Transmission → Bytes → Type 0
FromBody v s n body ts bs =
    (t : Transmission) × (rest : List Transmission) × (ts ≡ t ∷ rest)
    × (decode_transmission v s body ≡ ok t)
    × Framed v s n rest bs

Consumes-out :
    (v : ℕ) (s : Bytes) (n : ℕ) (body : Bytes) (t : Transmission)
    → decode_transmission v s body ≡ ok t
    → Consumes (read_transmissions v s n) (Framed v s n)
    → Consumes (read_transmissions v s n >>= (λ out. pure (t ∷ out))) (FromBody v s n body)
Consumes-out v s n body t parsed h =
    Consumes->>= _ _ (Framed v s n) (λ rest ts bs. (ts ≡ t ∷ rest) × (bs ≡ []))
      (FromBody v s n body) h
      (λ rest. Consumes-pure (t ∷ rest) (λ ts bs. (ts ≡ t ∷ rest) × (bs ≡ [])) (refl, refl))
      (λ rest ts bs cs p q.
        (t, rest, q.0, parsed, (p.0, ap (◌++◌ bs) q.1 ∙ append-nil bs ∙ p.1, p.2, p.3)))

Consumes-body :
    (v : ℕ) (s : Bytes) (n : ℕ) (body : Bytes)
    → Consumes (read_transmissions v s n) (Framed v s n)
    → Consumes
        (wrap "smp: tx" (lift (decode_transmission v s body))
          >>= (λ tx. read_transmissions v s n >>= (λ out. pure (tx ∷ out))))
        (FromBody v s n body)
Consumes-body v s n body h = by_result (decode_transmission v s body) refl
  where
    by_result :
        (r : Result Transmission)
        → decode_transmission v s body ≡ r
        → Consumes
            (wrap "smp: tx" (lift r)
              >>= (λ tx. read_transmissions v s n >>= (λ out. pure (tx ∷ out))))
            (FromBody v s n body)
    by_result (ok t) parsed = Consumes-out v s n body t parsed h
    by_result (err x) failed = Consumes-fail (within "smp: tx" x) (FromBody v s n body)

-- One transmission more.
Framed-cons :
    (v : ℕ) (s : Bytes) (n m : ℕ) (body bs cs : Bytes) (ts : List Transmission)
    → (bs ≡ be16 m) × (m < 2 ^ 16)
    → length body ≡ m
    → FromBody v s n body ts cs
    → Framed v s (suc n) ts (bs ++ (body ++ cs))
Framed-cons v s n m body bs cs ts p len (t, rest, e, parsed, (ws, spelled, count, all)) = rw e (
  body ∷ ws,
  ap₂ ◌++◌ (p.0 ∙ ap be16 (sym len)) (ap (◌++◌ body) spelled),
  ap suc count,
  (omega (arith, p.1, len), parsed, all),
)

Consumes-Framed : (v : ℕ) (s : Bytes) (n : ℕ) → Consumes (read_transmissions v s n) (Framed v s n)
unfolding read_transmissions
Consumes-Framed v s zero = Consumes-pure [] (Framed v s 0) ([], refl, refl, tt)
Consumes-Framed v s (suc n) =
    Consumes->>= _ _ (λ m bs. (bs ≡ be16 m) × (m < 2 ^ 16))
      (λ m ts bs.
        (body : Bytes) × (cs : Bytes) × (bs ≡ body ++ cs)
        × (length body ≡ m)
        × FromBody v s n body ts cs)
      (Framed v s (suc n)) (Consumes-wrap "smp: tx length" Decoder.word16 _ Consumes-word16)
      (λ m.
        Consumes->>= _ _ (λ a bs. (a ≡ bs) × (length a ≡ m) × All IsByte a) (FromBody v s n)
          (λ ts bs.
            (body : Bytes) × (cs : Bytes) × (bs ≡ body ++ cs)
            × (length body ≡ m)
            × FromBody v s n body ts cs)
          (Consumes-wrap "smp: tx body" (need m) _ (Consumes-need m))
          (λ body. Consumes-body v s n body (Consumes-Framed v s n))
          (λ body ts bs cs p q. (body, cs, ap (λ (x : Bytes). x ++ cs) (sym p.0), p.1, q)))
      (λ m ts bs cs p q.
        let (body, rest, e, len, h) = q in
        subst (λ (x : Bytes). Framed v s (suc n) ts (bs ++ x)) (sym e)
          (Framed-cons v s n m body bs rest ts p len h))

-- On a buffer of bytes DecodeBlock succeeds in exactly these cases: a first byte that counts the
-- transmissions, each of them behind its length and parsed by the parser of one transmission, and
-- after them anything at all. One transmission that does not parse fails the whole block.
pub decode_block-eq-ok_iff :
    (v : ℕ) (sess_id block : Bytes) (ts : List Transmission)
    → All IsByte block
    → (decode_block v sess_id block ≡ ok ts) ↔ (
        (ws : List Bytes) × (more : Bytes) × (block ≡ block_format ws ++ more)
        × Parsed v sess_id ws ts)
unfolding decode_block
decode_block-eq-ok_iff v s block ts all =
    (forward, λ h. rw h.2 (decode_block-format v s h.0 ts h.1 h.3))
  where
    read :
        Consumes
          (wrap "smp: block count" Decoder.char >>= read_transmissions v s)
          (λ ts bs. (ws : List Bytes) × (bs ≡ block_format ws) × Parsed v s ws ts)
    read =
        Consumes->>= _ _ (λ c bs. (bs ≡ c ∷ []) × (c < 256)) (λ n. Framed v s n) _
          (Consumes-wrap "smp: block count" Decoder.char _ Consumes-char) (Consumes-Framed v s)
          (λ n ts bs cs p q.
            let (ws, spelled, count, parsed) = q in
            (ws, ap₂ ◌++◌ (p.0 ∙ ap (λ (x : ℕ). x ∷ []) (sym count)) spelled, parsed))

    forward :
        decode_block v s block ≡ ok ts
        → (ws : List Bytes) × (more : Bytes) × (block ≡ block_format ws ++ more) × Parsed v s ws ts
    forward e =
        let d = new_decoder block in
        let m : Op Decoder (List Transmission) =
          wrap "smp: block count" Decoder.char >>= read_transmissions v s in
        let (bs, u, w, b, (ws, spelled, parsed)) =
          read d ts (m d).1 (omega arith) all (λ i. (e i, (m d).1)) in
        (ws, unread (m d).1, u ∙ ap (λ (x : Bytes). x ++ unread (m d).1) spelled, parsed)
