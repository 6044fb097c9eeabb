-- ===== src/Transmission/Format.antt =====
-- The byte format of a transmission, and that the two encoders and the parser follow it.
use simplex_go.Base.{
  ℕ, ◌≤◌, String, ◌≡◌, refl, sym, subst, inl, inr, Bool, true, false, [], ◌∷◌, ◌++◌, append-nil,
  ltb, if◌then◌else◌, Bool-cases, length, Bytes, bytes_eq, bytes_eq_iff, bytes_eq_self, Op, pure,
  fail, wrap, ◌>>=◌, bad_encoding, sentinel, ok,
}
use simplex_go.Wire.Encoder
use simplex_go.Wire.Decoder
use simplex_go.Wire.Encoder.{Encoder, encode, finish}
use simplex_go.Wire.Decoder.{Decoder, decode}
use simplex_go.Wire.Reads.{
  Reads, Writes, Reads-need, Reads-pure, Reads->>=, Reads-wrap, Writes->>, Writes-wrap, Writes-if,
  Writes-nothing,
}
use simplex_go.Wire.Primitives.{
  short_bytes, Writes-char, Writes-raw, Writes-short_string, Reads-char, Reads-short_string,
}
use simplex_go.Wire.Exhausts.{Ends, Ends->>=, Ends-tail}
use simplex_go.Transmission.{
  version_v7, no_corr_id, Transmission, encode_corr_id, decode_corr_id, auth_fields, wire_fields,
  encode_transmission, check_session, read_transmission,
}

-- What the Go types and the length prefixes admit: 24 bytes, and at most 255.
pub record Fits (sess_id : Bytes) (t : Transmission) : Type 0 where
  pub corr_id : length t.corr_id ≡ 24
  pub session : length sess_id ≤ 255
  pub entity_id : length t.entity_id ≤ 255
  pub authorization : length t.authorization ≤ 255

-- corrId = %x18 24*24 OCTET / %x0
abbrev pub corr_bytes : Bytes → Bytes
corr_bytes c = if bytes_eq c no_corr_id then 0x00 ∷ [] else 0x18 ∷ c

abbrev pub auth_format : Bytes → Transmission → Bytes
auth_format sess_id t =
    short_bytes sess_id ++ (corr_bytes t.corr_id ++ (short_bytes t.entity_id ++ t.command))

-- The session id travels before version 7 only.
abbrev pub session_bytes : ℕ → Bytes → Bytes
session_bytes v sess_id = if ltb v version_v7 then short_bytes sess_id else []

abbrev pub wire_format : ℕ → Bytes → Transmission → Bytes
wire_format v sess_id t =
    short_bytes t.authorization
    ++ (session_bytes v sess_id ++ (corr_bytes t.corr_id ++ (short_bytes t.entity_id ++ t.command)))

pub Writes-corr_id : (c : Bytes) → Writes (encode_corr_id c) (corr_bytes c)
unfolding encode_corr_id
Writes-corr_id c =
    Writes-if (bytes_eq c no_corr_id) _ _ _ _ (Writes-char 0x00)
      (Writes->> _ _ _ _ (Writes-char 0x18) (Writes-raw c))

Writes-wrapped :
    (c : String) (v : Bytes)
    → length v ≤ 255
    → Writes (wrap c (Encoder.short_string v)) (short_bytes v)
Writes-wrapped c v h = Writes-wrap c _ _ (Writes-short_string v h)

pub Writes-auth :
    (s : Bytes) (t : Transmission)
    → length s ≤ 255
    → length t.entity_id ≤ 255
    → Writes (auth_fields s t) (auth_format s t)
unfolding auth_fields
Writes-auth s t hs he = Writes->> _ _ _ _ (Writes-wrapped _ s hs) (
    Writes->> _ _ _ _ (Writes-corr_id t.corr_id)
      (Writes->> _ _ _ _ (Writes-wrapped _ t.entity_id he) (Writes-raw t.command)))

pub Writes-wire :
    (v : ℕ) (s : Bytes) (t : Transmission)
    → length s ≤ 255
    → length t.entity_id ≤ 255
    → length t.authorization ≤ 255
    → Writes (wire_fields v s t) (wire_format v s t)
unfolding wire_fields
Writes-wire v s t hs he ha = Writes->> _ _ _ _ (Writes-wrapped _ t.authorization ha) (
    Writes->> _ _ _ _ (Writes-if (ltb v version_v7) _ _ _ _ (Writes-wrapped _ s hs) Writes-nothing)
      (Writes->> _ _ _ _ (Writes-corr_id t.corr_id)
        (Writes->> _ _ _ _ (Writes-wrapped _ t.entity_id he) (Writes-raw t.command))))

pub encode_transmission-format :
    (v : ℕ) (s : Bytes) (t : Transmission)
    → length s ≤ 255
    → length t.entity_id ≤ 255
    → length t.authorization ≤ 255
    → encode_transmission v s t ≡ ok (wire_format v s t, auth_format s t)
unfolding encode_transmission
encode_transmission-format v s t hs he ha =
    rw (
      Writes-auth s t hs he (record { buf = [] }),
      Writes-wire v s t hs he ha (record { buf = [] }),
    )

pub Reads-wrapped : (c : String) (v : Bytes) → Reads (wrap c Decoder.short_string) (short_bytes v) v
Reads-wrapped c v = Reads-wrap c Decoder.short_string (short_bytes v) v (Reads-short_string v)

Reads-corr_cases :
    (c : Bytes) (b : Bool)
    → bytes_eq c no_corr_id ≡ b
    → length c ≡ 24
    → Reads decode_corr_id (if b then 0x00 ∷ [] else 0x18 ∷ c) c
unfolding decode_corr_id
Reads-corr_cases c true e h =
    subst (λ (x : Bytes). Reads decode_corr_id (0x00 ∷ []) x)
      (sym ((bytes_eq_iff c no_corr_id).0 e))
      (Reads->>= _ _ (0x00 ∷ []) [] 0x00 no_corr_id
        (Reads-wrap _ Decoder.char (0x00 ∷ []) 0x00 (Reads-char 0x00)) (Reads-pure no_corr_id))
Reads-corr_cases c false e h =
    Reads->>= _ _ (0x18 ∷ []) c 0x18 c
      (Reads-wrap _ Decoder.char (0x18 ∷ []) 0x18 (Reads-char 0x18))
      (subst (λ (n : ℕ). Reads (wrap "corrId bytes" (Decoder.need n)) c c) h
        (Reads-wrap _ (Decoder.need (length c)) c c (Reads-need c)))

pub Reads-corr_id : (c : Bytes) → length c ≡ 24 → Reads decode_corr_id (corr_bytes c) c
Reads-corr_id c h = Reads-corr_cases c (bytes_eq c no_corr_id) refl h

abbrev compare_session : Bytes → Bytes → Op Decoder (Unit {0})
compare_session s got = if bytes_eq got s then pure tt else fail (sentinel bad_encoding)

pub Reads-session : (v : ℕ) (s : Bytes) → Reads (check_session v s) (session_bytes v s) tt
unfolding check_session
Reads-session v s = elim (Bool-cases (ltb v version_v7)) [
  | inl sent ↦ rw sent (
      subst (λ (bs : Bytes). Reads (wrap "sessId" Decoder.short_string >>= compare_session s) bs tt)
        (append-nil (short_bytes s))
        (Reads->>= (wrap "sessId" Decoder.short_string) (compare_session s) (short_bytes s) [] s tt
          (Reads-wrapped _ s) (rw (bytes_eq_self s) (Reads-pure tt))))
  | inr implied ↦ rw implied (Reads-pure tt)
]

pub Ends-transmission :
    (v : ℕ) (s : Bytes) (t : Transmission)
    → length t.corr_id ≡ 24
    → Ends (read_transmission v s) (wire_format v s t) t
unfolding read_transmission
Ends-transmission v s t h =
    Ends->>= _ _ (short_bytes t.authorization) _ t.authorization t (Reads-wrapped _ t.authorization)
      (Ends->>= _ _ (session_bytes v s) _ tt t (Reads-session v s) (
        Ends->>= _ _ (corr_bytes t.corr_id) _ t.corr_id t (Reads-corr_id t.corr_id h) (
          Ends->>= _ _ (short_bytes t.entity_id) t.command t.entity_id t
            (Reads-wrapped _ t.entity_id) (Ends-tail _ t.command))))
