-- ===== src/Tests/Dialling.antt =====
-- Dial on a server that says a hello, and on one with another certificate.
use simplex_go.Base.{
  ℕ, suc, ◌+◌, ◌-◌, ◌≡◌, refl, ap, subst, none, List, [], ◌∷◌, ◌++◌, be16, length, replicate, Bytes,
  bytes_eq, fingerprint_mismatch, sentinel, within, ok, err,
}
use simplex_go.Handshake.{
  encode_client_handshake, read_auth_key, read_server_handshake, decode_server_handshake,
  negotiate_version,
}
use simplex_go.Transport.{
  smp_block_size, frame, unframe, received, earliest_deadline, Tls, write_block, read_block,
  Certificate, matches_pin, any_matches, verify_connection, full,
}
use simplex_go.Transport.Opening.{TransportConfig, Net, Verifies, dial_tls}
use simplex_go.Dial.{own_public, client_reply, run_client_handshake, dial}
use simplex_go.Dial.Whole.{
  IsEstablished, dial_addr, FailsClosed, dial_addr-IsEstablished, dial_addr-FailsClosed,
}
use simplex_go.Wire.Encoder
use simplex_go.Wire.Decoder
use simplex_go.Tests.Session.{key_hash, session, hello, curve, agreed}

abbrev presented : List Certificate
presented = record { raw = key_hash; raw_spki = [] } ∷ record { raw = []; raw_spki = [] } ∷ []

-- The state counts the closes.
abbrev server : Net ℕ
server = record {
  dial_tcp = λ s. (ok tt, s);
  now = λ s. 0;
  set_deadline = λ t s. s;
  handshake = λ verify s. ((verify presented, presented), s);
  close_tcp = λ s. suc s;
  close_tls = λ s. (ok tt, suc s);
}

abbrev hello_block : Bytes
hello_block = be16 (length hello) ++ (hello ++ replicate (smp_block_size - (2 + length hello)) b'#')

abbrev blocks : Tls ℕ
blocks = record {
  write = λ deadline block s. (ok tt, s);
  read_full = λ deadline s. (full hello_block, s);
}

abbrev config : TransportConfig
config = record { dial_timeout = 5; io_timeout = 10 }

server-Verifies : Verifies server
server-Verifies verify chain s s' e =
    let same : presented ≡ chain = ap (λ p. p.0.1) e in
    subst (λ c. verify c ≡ ok tt) same (ap (λ p. p.0.0) e)

established :
    dial_addr blocks server (λ b. b) config curve none key_hash session none 0 ≡ (ok agreed, 0)
unfolding dial_addr dial_tls dial run_client_handshake client_reply decode_server_handshake
    read_server_handshake read_auth_key negotiate_version encode_client_handshake own_public
    bytes_eq Encoder.word16 Encoder.short_string Decoder.word16 Decoder.short_string Decoder.need
    Decoder.remaining Decoder.tail read_block write_block received unframe frame earliest_deadline
    matches_pin any_matches verify_connection
established = refl

refused :
    dial_addr blocks server (λ b. b) config curve none (9 ∷ []) session none 0
    ≡ (err (within "smp: tls handshake" (sentinel fingerprint_mismatch)), 1)
unfolding dial_addr dial_tls bytes_eq matches_pin any_matches verify_connection
refused = refl

dial_addr-IsEstablished_example :
    IsEstablished blocks server (λ b. b) config curve none key_hash session none 0 agreed 0
dial_addr-IsEstablished_example =
    dial_addr-IsEstablished blocks server (λ b. b) config curve none key_hash session none 0 0
      agreed server-Verifies established

dial_addr-FailsClosed_example :
    FailsClosed blocks server
      (λ b. b)
      config
      curve
      none
      (9 ∷ [])
      session
      none
      0
      (within "smp: tls handshake" (sentinel fingerprint_mismatch))
      1
dial_addr-FailsClosed_example =
    dial_addr-FailsClosed blocks server (λ b. b) config curve none (9 ∷ []) session none 0 1
      (within "smp: tls handshake" (sentinel fingerprint_mismatch)) refused
