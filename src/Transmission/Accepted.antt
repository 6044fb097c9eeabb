-- ===== src/Transmission/Accepted.antt =====
-- What the parser of a transmission accepts.
use simplex_go.Base.{
  ℕ, ◌≤◌, ◌<◌, String, ◌≡◌, refl, sym, ap, ap₂, ◌∙◌, subst, ◌⊎◌, inl, inr, [], ◌∷◌, ◌++◌,
  append-nil, ltb, ==_iff, length, All, Bytes, IsByte, bytes_eq_iff, pure, wrap, ◌>>=◌, ok,
}
use simplex_go.Wire.Decoder
use simplex_go.Wire.Decoder.{Decoder, need}
use simplex_go.Wire.Consumes.{
  Consumes, Consumes->>=, Consumes-pure, Consumes-fail, Consumes-if, Consumes-wrap, Consumes-need,
}
use simplex_go.Wire.Canonical.{Consumes-char, Consumes-short_string}
use simplex_go.Wire.Exhausts.{Exhausts, Exhausts->>=, Exhausts-tail, Exhausts-decode}
use simplex_go.Wire.Primitives.{short_bytes}
use simplex_go.Transmission.{
  version_v7, no_corr_id, Transmission, decode_corr_id, check_session, read_transmission,
  decode_transmission,
}
use simplex_go.Transmission.Format.{session_bytes}

-- A correlation id is spelled by the tag 0x00, if it is the zero one, or by 0x18 and its bytes.
abbrev pub SpellsCorr : Bytes → Bytes → Type 0
SpellsCorr c bs = ((c ≡ no_corr_id) × (bs ≡ 0x00 ∷ [])) ⊎ (bs ≡ 0x18 ∷ c)

Consumes-corr_id : Consumes decode_corr_id (λ c bs. (length c ≡ 24) × SpellsCorr c bs)
unfolding decode_corr_id
Consumes-corr_id =
    Consumes->>= _ _ (λ c bs. (bs ≡ c ∷ []) × (c < 256))
      (λ tag c bs. (length c ≡ 24) × SpellsCorr c (tag ∷ bs)) _
      (Consumes-wrap "corrId tag" Decoder.char _ Consumes-char)
      (λ tag.
        Consumes-if _ _ _ _
          (λ t.
            Consumes-pure no_corr_id _
              (refl, inl (refl, ap (λ (x : ℕ). x ∷ []) ((==_iff _ _).0 t))))
          (λ _.
            Consumes-if _ _ _ _
              (λ t d a d' v all e.
                let (bs, u, w, b, p) =
                  Consumes-wrap "corrId bytes" (need 24) _ (Consumes-need 24) d a d' v all e in
                (bs, u, w, b, (p.1, inr (ap₂ ◌∷◌ ((==_iff _ _).0 t) (sym p.0)))))
              (λ _. Consumes-fail _ _)))
      (λ tag c bs cs p q. (q.0, subst (λ (x : Bytes). SpellsCorr c (x ++ cs)) (sym p.0) q.1))

Consumes-IsShort :
    (c : String)
    → Consumes (wrap c Decoder.short_string) (λ v bs. (bs ≡ short_bytes v) × (length v ≤ 255))
Consumes-IsShort c = Consumes-wrap c Decoder.short_string _ Consumes-short_string

Consumes-session :
    (v : ℕ) (s : Bytes) → Consumes (check_session v s) (λ _ bs. bs ≡ session_bytes v s)
unfolding check_session
Consumes-session v s =
    Consumes-if (ltb v version_v7) _ _ _
      (λ sent. rw sent (
        Consumes->>= _ _ (λ got bs. (bs ≡ short_bytes got) × (length got ≤ 255))
          (λ got _ bs. (got ≡ s) × (bs ≡ [])) _ (Consumes-IsShort "sessId")
          (λ got.
            Consumes-if _ _ _ _ (λ same. Consumes-pure tt _ ((bytes_eq_iff got s).0 same, refl))
              (λ _. Consumes-fail _ _))
          (λ got _ bs cs p q. ap (◌++◌ bs) q.1 ∙ append-nil bs ∙ p.0 ∙ ap short_bytes q.0)))
      (λ implied. rw implied (Consumes-pure tt _ refl))

-- The wire bytes of `t`, its correlation id spelled in either way.
abbrev pub Spells : ℕ → Bytes → Transmission → Bytes → Type 0
Spells v s t body =
    (length t.corr_id ≡ 24)
    × (length t.entity_id ≤ 255)
    × (length t.authorization ≤ 255)
    × ((cb : Bytes) × SpellsCorr t.corr_id cb
        × (body
            ≡ short_bytes t.authorization
              ++ (session_bytes v s ++ (cb ++ (short_bytes t.entity_id ++ t.command)))))

-- What is left to read at each step of the parser, and what of the result is known there.
abbrev FromCommand : Bytes → Bytes → Bytes → Transmission → Bytes → Type 0
FromCommand auth c e t bs =
    (t.authorization ≡ auth) × (t.corr_id ≡ c) × (t.entity_id ≡ e) × (bs ≡ t.command)

abbrev FromEntity : Bytes → Bytes → Transmission → Bytes → Type 0
FromEntity auth c t bs =
    (t.authorization ≡ auth)
    × (t.corr_id ≡ c)
    × (length t.entity_id ≤ 255)
    × (bs ≡ short_bytes t.entity_id ++ t.command)

abbrev FromCorr : Bytes → Transmission → Bytes → Type 0
FromCorr auth t bs =
    (t.authorization ≡ auth)
    × (length t.corr_id ≡ 24)
    × (length t.entity_id ≤ 255)
    × ((cb : Bytes) × SpellsCorr t.corr_id cb × (bs ≡ cb ++ (short_bytes t.entity_id ++ t.command)))

abbrev FromSession : ℕ → Bytes → Bytes → Transmission → Bytes → Type 0
FromSession v s auth t bs =
    (t.authorization ≡ auth)
    × (length t.corr_id ≡ 24)
    × (length t.entity_id ≤ 255)
    × ((cb : Bytes) × SpellsCorr t.corr_id cb
        × (bs ≡ session_bytes v s ++ (cb ++ (short_bytes t.entity_id ++ t.command))))

abbrev IsShort : Bytes → Type 0
IsShort x = length x ≤ 255

Exhausts-entity :
    (auth c : Bytes)
    → Exhausts
        (wrap "entityId" Decoder.short_string >>= (λ e. Decoder.tail >>= (λ cmd.
          pure (record { corr_id = c; entity_id = e; command = cmd; authorization = auth }))))
        (FromEntity auth c)
Exhausts-entity auth c =
    Exhausts->>= _ _ (λ e bs. (bs ≡ short_bytes e) × IsShort e) (FromCommand auth c)
      (FromEntity auth c) (Consumes-IsShort _)
      (λ e.
        Exhausts-tail
          (λ cmd. record { corr_id = c; entity_id = e; command = cmd; authorization = auth })
          (FromCommand auth c e) (λ bs. (refl, refl, refl, refl)))
      (λ e t bs cs p q.
        (q.0, q.1, subst IsShort (sym q.2) p.1, ap₂ ◌++◌ (p.0 ∙ ap short_bytes (sym q.2)) q.3))

pub Exhausts-transmission : (v : ℕ) (s : Bytes) → Exhausts (read_transmission v s) (Spells v s)
unfolding read_transmission
Exhausts-transmission v s =
    Exhausts->>= _ _ (λ auth bs. (bs ≡ short_bytes auth) × IsShort auth) (FromSession v s)
      (Spells v s) (Consumes-IsShort _)
      (λ auth.
        Exhausts->>= _ _ (λ _ bs. bs ≡ session_bytes v s) (λ _. FromCorr auth)
          (FromSession v s auth) (Consumes-session v s)
          (λ _.
            Exhausts->>= _ _ (λ c bs. (length c ≡ 24) × SpellsCorr c bs) (FromEntity auth)
              (FromCorr auth) Consumes-corr_id (Exhausts-entity auth)
              (λ c t bs cs p q. (
                q.0,
                subst (λ (x : Bytes). length x ≡ 24) (sym q.1) p.0,
                q.2,
                (bs, subst (λ (x : Bytes). SpellsCorr x bs) (sym q.1) p.1, ap (◌++◌ bs) q.3),
              )))
          (λ _ t bs cs p q. (q.0, q.1, q.2, (q.3.0, q.3.1, ap₂ ◌++◌ p q.3.2))))
      (λ auth t bs cs p q. (
        q.1,
        q.2,
        subst IsShort (sym q.0) p.1,
        (q.3.0, q.3.1, ap₂ ◌++◌ (p.0 ∙ ap short_bytes (sym q.0)) q.3.2),
      ))

-- A buffer of bytes that parses is, to the last byte, the wire form of the transmission returned:
-- its fields are within their limits, below version 7 the session id is the expected one, and the
-- one freedom is that a zero correlation id may be spelled out in full.
pub decode_transmission-accepted :
    (v : ℕ) (sess_id body : Bytes) (t : Transmission)
    → All IsByte body
    → decode_transmission v sess_id body ≡ ok t
    → Spells v sess_id t body
unfolding decode_transmission
decode_transmission-accepted v s body t all e =
    Exhausts-decode (read_transmission v s) (Spells v s) (Exhausts-transmission v s) body all e
