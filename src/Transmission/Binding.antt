-- ===== src/Transmission/Binding.antt =====
-- What the authorized bytes bind, and that a v6 transmission of another session is refused.
use simplex_go.Base.{
  ℕ, ◌<◌, ◌≡◌, refl, sym, ap, ◌∙◌, ◌≢◌, inl, inr, ◌++◌, arith, lt→ltb, Bool-cases, length, Bytes,
  bytes_eq, bytes_eq_iff, Result, Op, pure, ◌>>=◌, bad_encoding, sentinel, ok, err,
}
use simplex_go.Wire.Decoder
use simplex_go.Wire.Decoder.{Decoder, decode, new_decoder}
use simplex_go.Wire.Exhausts.{Ends->>=, Ends-tail, Ends-decode, Fails, Fails-later, Fails-first}
use simplex_go.Wire.Primitives.{short_bytes, Reads-short_string}
use simplex_go.Transmission.{
  Transmission, decode_corr_id, check_session, read_transmission, decode_transmission,
  encode_transmission,
}
use simplex_go.Transmission.Format.{auth_format, corr_bytes, Reads-corr_id, Reads-wrapped}
use simplex_go.Transmission.Errors.{encode_transmission-eq-ok}

abbrev Parts : Type 0
Parts = Bytes × Bytes × Bytes × Bytes

-- A reader of the authorized bytes: what the server checks the authorization against.
read_auth : Op Decoder Parts
read_auth = do
  s ← Decoder.short_string
  c ← decode_corr_id
  e ← Decoder.short_string
  cmd ← Decoder.tail
  pure (s, c, e, cmd)

decode-auth_format :
    (s : Bytes) (t : Transmission)
    → length t.corr_id ≡ 24
    → decode read_auth (auth_format s t) ≡ ok (s, t.corr_id, t.entity_id, t.command)
unfolding read_auth
decode-auth_format s t h =
    let whole : Parts = (s, t.corr_id, t.entity_id, t.command) in
    Ends-decode read_auth (auth_format s t) whole (
      Ends->>= _ _ (short_bytes s) _ s whole (Reads-short_string s) (
        Ends->>= _ _ _ _ t.corr_id whole (Reads-corr_id t.corr_id h) (
          Ends->>= _ _ (short_bytes t.entity_id) t.command t.entity_id whole
            (Reads-short_string t.entity_id) (Ends-tail _ t.command))))

-- If two transmissions with 24-byte correlation ids encode, under any versions and session ids, to
-- the same authorized bytes, then session id, correlation id, entity id and command are the same.
pub auth_bytes-injective :
    (v v' : ℕ) (s s' : Bytes) (t t' : Transmission) (wire wire' auth : Bytes)
    → length t.corr_id ≡ 24
    → length t'.corr_id ≡ 24
    → encode_transmission v s t ≡ ok (wire, auth)
    → encode_transmission v' s' t' ≡ ok (wire', auth)
    → (s ≡ s') × (t.corr_id ≡ t'.corr_id) × (t.entity_id ≡ t'.entity_id) × (t.command ≡ t'.command)
auth_bytes-injective v v' s s' t t' wire wire' auth h h' e e' =
    let a = encode_transmission-eq-ok v s t wire auth e in
    let a' = encode_transmission-eq-ok v' s' t' wire' auth e' in
    let same : ◌≡◌ {A = Result Parts} (ok (s, t.corr_id, t.entity_id, t.command))
        (ok (s', t'.corr_id, t'.entity_id, t'.command)) =
      sym (decode-auth_format s t h)
      ∙ ap (decode read_auth) (sym a.4 ∙ a'.4)
      ∙ decode-auth_format s' t' h' in
    (cc same, cc same, cc same, cc same)

Fails-session :
    (v : ℕ) (s s' more : Bytes)
    → v < 7
    → s ≢ s'
    → Fails (check_session v s') (short_bytes s ++ more) (sentinel bad_encoding)
unfolding check_session
Fails-session v s s' more old differ = rw (lt→ltb v 7 old) (
    Fails-later _ _ (short_bytes s) more s (sentinel bad_encoding) (Reads-wrapped "sessId" s)
      (elim (Bool-cases (bytes_eq s s')) [
        | inl same ↦ absurd (differ ((bytes_eq_iff s s').0 same))
        | inr new ↦ rw new (λ d v e. refl)
      ]))

-- Below version 7, wire bytes that were encoded for one session id parse under another session id
-- to the bad-encoding error, whatever the transmission.
pub decode_transmission-other_session :
    (v : ℕ) (s s' : Bytes) (t : Transmission) (wire auth : Bytes)
    → v < 7
    → s ≢ s'
    → encode_transmission v s t ≡ ok (wire, auth)
    → decode_transmission v s' wire ≡ err (sentinel bad_encoding)
unfolding decode_transmission read_transmission
decode_transmission-other_session v s s' t wire auth old differ e =
    let parts = encode_transmission-eq-ok v s t wire auth e in
    let rest = corr_bytes t.corr_id ++ (short_bytes t.entity_id ++ t.command) in
    let format : wire ≡ short_bytes t.authorization ++ (short_bytes s ++ rest) =
      parts.3 ∙ rw (lt→ltb v 7 old) in
    rw format (
      Fails-later _ _ (short_bytes t.authorization) _ t.authorization _
        (Reads-wrapped _ t.authorization)
        (Fails-first _ _ _ _ (Fails-session v s s' rest old differ)) (new_decoder _) (omega arith)
        refl)
