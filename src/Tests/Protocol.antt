-- ===== src/Tests/Protocol.antt =====
-- Transmissions, blocks, commands and messages of smp/protocol.go on small inputs.
use simplex_go.Base.{◌≡◌, refl, ◌≢◌, [], ◌∷◌, ◌++◌, arith, replicate, Bytes, codes, bytes_eq, ok}
use simplex_go.Wire.Encoder
use simplex_go.Wire.Decoder
use simplex_go.Transmission.{
  Transmission, encode_transmission, auth_fields, wire_fields, encode_corr_id, decode_transmission,
  read_transmission, check_session, decode_corr_id,
}
use simplex_go.Transmission.Format.{Fits, auth_format, wire_format}
use simplex_go.Transmission.RoundTrip.{decode_transmission-encode}
use simplex_go.Transmission.Accepted.{Spells, decode_transmission-accepted}
use simplex_go.Transmission.Binding.{auth_bytes-injective}

abbrev two : Bytes
two = 1 ∷ 2 ∷ []

abbrev ping : Transmission
ping = record {
  corr_id = replicate 24 7;
  entity_id = 5 ∷ [];
  command = codes "PING";
  authorization = 9 ∷ 9 ∷ [];
}

-- The session id is sent at version 6.
encode_ping :
    encode_transmission 6 two ping
    ≡ ok (
      2 ∷ 9 ∷ 9 ∷ 2 ∷ 1 ∷ 2 ∷ 24 ∷ replicate 24 7 ++ (1 ∷ 5 ∷ codes "PING"),
      2 ∷ 1 ∷ 2 ∷ 24 ∷ replicate 24 7 ++ (1 ∷ 5 ∷ codes "PING"),
    )
unfolding encode_transmission auth_fields wire_fields encode_corr_id bytes_eq Encoder.short_string
    Encoder.char Encoder.raw
encode_ping = refl

ping-Fits : Fits two ping
ping-Fits = record {
  corr_id = refl;
  session = omega arith;
  entity_id = omega arith;
  authorization = omega arith;
}

decode_transmission-encode_example :
    (wire auth : Bytes) × (encode_transmission 6 two ping ≡ ok (wire, auth))
    × (decode_transmission 6 two wire ≡ ok ping)
decode_transmission-encode_example = decode_transmission-encode 6 two ping ping-Fits

abbrev ping_auth : Bytes
ping_auth = auth_format two ping

abbrev ping_wire : Bytes
ping_wire = wire_format 6 two ping

encode_ping_wire : encode_transmission 6 two ping ≡ ok (ping_wire, ping_auth)
unfolding bytes_eq
encode_ping_wire = encode_ping

decode_ping : decode_transmission 6 two ping_wire ≡ ok ping
unfolding decode_transmission read_transmission check_session decode_corr_id bytes_eq
    Decoder.short_string Decoder.need Decoder.char Decoder.tail Decoder.remaining
decode_ping = refl

auth_bytes-injective_example :
    (two ≡ two)
    × (ping.corr_id ≡ ping.corr_id)
    × (ping.entity_id ≡ ping.entity_id)
    × (ping.command ≡ ping.command)
auth_bytes-injective_example =
    auth_bytes-injective 6 6 two two ping ping ping_wire ping_wire ping_auth refl refl
      encode_ping_wire encode_ping_wire

decode_transmission-accepted_example : Spells 6 two ping ping_wire
unfolding bytes_eq
decode_transmission-accepted_example =
    decode_transmission-accepted 6 two ping_wire ping (omega arith) decode_ping

two-ne-other : two ≢ (1 ∷ 3 ∷ [])
two-ne-other h = cc
