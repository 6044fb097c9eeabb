-- ===== src/Transmission.antt =====
-- smp/protocol.go: the correlation id and the transmission, EncodeTransmission and its parser.
-- A CorrID is its 24 bytes; a nil slice and an empty one are both the empty list, since the code
-- only takes their length and their bytes.
pub mod Format
pub mod RoundTrip
pub mod Accepted
pub mod Errors
pub mod Binding
use simplex_go.Base.{
  ℕ, ltb, ◌==◌, if◌then◌else◌, replicate, Bytes, bytes_eq, Result, Op, pure, fail, wrap, ◌>>=◌,
  ◌>>◌, bind_result, bad_encoding, sentinel, ok,
}
use simplex_go.Wire.Encoder
use simplex_go.Wire.Decoder
use simplex_go.Wire.Encoder.{Encoder, encode}
use simplex_go.Wire.Decoder.{Decoder, decode}

abbrev pub version_v6 : ℕ
version_v6 = 6

abbrev pub version_v7 : ℕ
version_v7 = 7

abbrev pub version_v9 : ℕ
version_v9 = 9

abbrev pub no_corr_id : Bytes
no_corr_id = replicate 24 0

pub record Transmission : Type 0 where
  pub corr_id : Bytes
  pub entity_id : Bytes
  pub command : Bytes
  pub authorization : Bytes

unfoldable pub encode_corr_id : Bytes → Op Encoder (Unit {0})
encode_corr_id c =
    if bytes_eq c no_corr_id then Encoder.char 0x00 else (do Encoder.char 0x18; Encoder.raw c)

-- `copy(cid[:], b)` of 24 bytes over an array of 24 gives those bytes.
unfoldable pub decode_corr_id : Op Decoder Bytes
decode_corr_id = do
  tag ← wrap "corrId tag" Decoder.char
  if tag == 0x00
      then pure no_corr_id
      else if tag == 0x18
      then wrap "corrId bytes" (Decoder.need 24)
      else fail (sentinel bad_encoding)

-- The encoder `a` of EncodeTransmission.
unfoldable pub auth_fields : Bytes → Transmission → Op Encoder (Unit {0})
auth_fields sess_id t = do
  wrap "smp: auth sessId" (Encoder.short_string sess_id)
  encode_corr_id t.corr_id
  wrap "smp: auth entityId" (Encoder.short_string t.entity_id)
  Encoder.raw t.command

-- The encoder `w` of EncodeTransmission.
unfoldable pub wire_fields : ℕ → Bytes → Transmission → Op Encoder (Unit {0})
wire_fields v sess_id t = do
  wrap "smp: wire authorization" (Encoder.short_string t.authorization)
  (if ltb v version_v7 then wrap "smp: wire sessId" (Encoder.short_string sess_id) else pure tt)
  encode_corr_id t.corr_id
  wrap "smp: wire entityId" (Encoder.short_string t.entity_id)
  Encoder.raw t.command

-- wireBytes and authBytes.
unfoldable pub encode_transmission : ℕ → Bytes → Transmission → Result (Bytes × Bytes)
encode_transmission v sess_id t = bind_result (encode (auth_fields sess_id t)) λ auth_bytes.
    bind_result (encode (wire_fields v sess_id t)) λ wire_bytes. ok (wire_bytes, auth_bytes)

unfoldable pub check_session : ℕ → Bytes → Op Decoder (Unit {0})
check_session v sess_id =
    if ltb v version_v7
    then (do
      got_sess ← wrap "sessId" Decoder.short_string
      if bytes_eq got_sess sess_id then pure tt else fail (sentinel bad_encoding))
    else pure tt

unfoldable pub read_transmission : ℕ → Bytes → Op Decoder Transmission
read_transmission v sess_id = do
  auth ← wrap "authorization" Decoder.short_string
  check_session v sess_id
  cid ← decode_corr_id
  entity_id ← wrap "entityId" Decoder.short_string
  cmd ← Decoder.tail
  pure (record { corr_id = cid; entity_id = entity_id; command = cmd; authorization = auth })

unfoldable pub decode_transmission : ℕ → Bytes → Bytes → Result Transmission
decode_transmission v sess_id body = decode (read_transmission v sess_id) body
