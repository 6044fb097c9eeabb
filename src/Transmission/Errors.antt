-- ===== src/Transmission/Errors.antt =====
-- When EncodeTransmission fails, and what its two results are otherwise.
use simplex_go.Base.{
  ℕ, ◌≤◌, String, ◌≡◌, ◌∙◌, inl, inr, true, false, [], ltb, if◌then◌else◌, ltb→le, Bool-cases,
  length, Bytes, Result, short_string_too_long, sentinel, within, ok, err,
}
use simplex_go.Wire.Encoder
use simplex_go.Wire.Encoder.{encode}
use simplex_go.Transmission.{Transmission, auth_fields, wire_fields, encode_transmission}
use simplex_go.Transmission.Format.{
  auth_format, wire_format, Writes-auth, Writes-corr_id, encode_transmission-format,
}

abbrev too_long : String → Result (Bytes × Bytes)
too_long c = err (within c (sentinel short_string_too_long))

long_session :
    (v : ℕ) (s : Bytes) (t : Transmission)
    → ltb 255 (length s) ≡ true
    → encode_transmission v s t ≡ too_long "smp: auth sessId"
unfolding encode_transmission auth_fields Encoder.short_string
long_session v s t h = rw h

long_entity :
    (v : ℕ) (s : Bytes) (t : Transmission)
    → ltb 255 (length s) ≡ false
    → ltb 255 (length t.entity_id) ≡ true
    → encode_transmission v s t ≡ too_long "smp: auth entityId"
unfolding encode_transmission auth_fields Encoder.short_string
long_entity v s t hs he = rw hs (rw (Writes-corr_id t.corr_id) (rw he))

long_authorization :
    (v : ℕ) (s : Bytes) (t : Transmission)
    → ltb 255 (length s) ≡ false
    → ltb 255 (length t.entity_id) ≡ false
    → ltb 255 (length t.authorization) ≡ true
    → encode_transmission v s t ≡ too_long "smp: wire authorization"
unfolding encode_transmission wire_fields Encoder.short_string
long_authorization v s t hs he ha =
    rw (Writes-auth s t (ltb→le _ _ hs) (ltb→le _ _ he) (record { buf = [] }), ha)

-- On every input: a session id, an entity id or an authorization past 255 bytes is an error, the
-- first of them in this order, also at the versions that do not send the session id; otherwise the
-- results are the two formats, and the version only decides whether the wire has the session id.
pub encode_transmission-result :
    (v : ℕ) (sess_id : Bytes) (t : Transmission)
    → encode_transmission v sess_id t ≡ (
        if ltb 255 (length sess_id)
        then too_long "smp: auth sessId"
        else if ltb 255 (length t.entity_id)
        then too_long "smp: auth entityId"
        else if ltb 255 (length t.authorization)
        then too_long "smp: wire authorization"
        else ok (wire_format v sess_id t, auth_format sess_id t))
encode_transmission-result v s t = elim (Bool-cases (ltb 255 (length s))) [
  | inl hs ↦ long_session v s t hs ∙ rw hs
  | inr hs ↦ elim (Bool-cases (ltb 255 (length t.entity_id))) [
    | inl he ↦ long_entity v s t hs he ∙ rw (hs, he)
    | inr he ↦ elim (Bool-cases (ltb 255 (length t.authorization))) [
      | inl ha ↦ long_authorization v s t hs he ha ∙ rw (hs, he, ha)
      | inr ha ↦
          encode_transmission-format v s t (ltb→le _ _ hs) (ltb→le _ _ he) (ltb→le _ _ ha)
          ∙ rw (hs, he, ha)
    ]
  ]
]

-- What a success says.
pub encode_transmission-eq-ok :
    (v : ℕ) (s : Bytes) (t : Transmission) (wire auth : Bytes)
    → encode_transmission v s t ≡ ok (wire, auth)
    → (length s ≤ 255)
      × (length t.entity_id ≤ 255)
      × (length t.authorization ≤ 255)
      × (wire ≡ wire_format v s t)
      × (auth ≡ auth_format s t)
encode_transmission-eq-ok v s t wire auth e = elim (Bool-cases (ltb 255 (length s))) [
  | inl hs ↦ cc (e, long_session v s t hs)
  | inr hs ↦ elim (Bool-cases (ltb 255 (length t.entity_id))) [
    | inl he ↦ cc (e, long_entity v s t hs he)
    | inr he ↦ elim (Bool-cases (ltb 255 (length t.authorization))) [
      | inl ha ↦ cc (e, long_authorization v s t hs he ha)
      | inr ha ↦
          let good =
            encode_transmission-format v s t (ltb→le _ _ hs) (ltb→le _ _ he) (ltb→le _ _ ha) in
          (ltb→le _ _ hs, ltb→le _ _ he, ltb→le _ _ ha, cc (e, good), cc (e, good))
    ]
  ]
]
