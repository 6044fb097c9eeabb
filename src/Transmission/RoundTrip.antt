-- ===== src/Transmission/RoundTrip.antt =====
-- A transmission that is encoded comes back, and what the encoding binds.
use simplex_go.Base.{ℕ, ◌≡◌, Bytes, ok}
use simplex_go.Wire.Exhausts.{Ends-decode}
use simplex_go.Transmission.{
  Transmission, encode_transmission, read_transmission, decode_transmission,
}
use simplex_go.Transmission.Format.{
  Fits, auth_format, wire_format, encode_transmission-format, Ends-transmission,
}

-- A transmission with a 24-byte correlation id whose session id, entity id and authorization are at
-- most 255 bytes encodes, at every version, and parsing the wire bytes under the same version and
-- session id returns it.
pub decode_transmission-encode :
    (v : ℕ) (sess_id : Bytes) (t : Transmission)
    → Fits sess_id t
    → (wire auth : Bytes) × (encode_transmission v sess_id t ≡ ok (wire, auth))
      × (decode_transmission v sess_id wire ≡ ok t)
unfolding decode_transmission
decode_transmission-encode v s t h = (
  wire_format v s t,
  auth_format s t,
  encode_transmission-format v s t h.session h.entity_id h.authorization,
  Ends-decode (read_transmission v s) (wire_format v s t) t (Ends-transmission v s t h.corr_id),
)
