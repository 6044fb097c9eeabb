-- ===== src/Tests/Messages.antt =====
-- Blocks, commands and server messages of smp/protocol.go on small inputs.
use simplex_go.Base.{
  ℕ, ◌≤◌, ◌≡◌, refl, ◌↔◌, Bool, true, false, List, [], ◌∷◌, ◌++◌, arith, replicate, Bytes, codes,
  bytes_eq, has_prefix, index_byte, short_string_too_long, truncated, sentinel, within, ok, err,
}
use simplex_go.Wire.Encoder
use simplex_go.Wire.Decoder
use simplex_go.Transmission.{
  Transmission, encode_transmission, auth_fields, wire_fields, encode_corr_id,
}
use simplex_go.Transmission.Errors.{encode_transmission-result}
use simplex_go.Transmission.Format.{auth_format, wire_format}
use simplex_go.Block.{encode_block, decode_block, read_transmissions}
use simplex_go.Block.Format.{block_format, Parsed}
use simplex_go.Block.RoundTrip.{decode_block-encode_block}
use simplex_go.Block.Accepted.{decode_block-eq-ok_iff}
use simplex_go.Command.{Command, encode_new, encode_command, new_cmd, ack_cmd}
use simplex_go.Command.Format.{command_format}
use simplex_go.Command.Encoding.{on_wire, encode_command-injective, encode_command-eq-ok_iff}
use simplex_go.Broker.{message, decode_err, decode_broker_msg, msg_msg, err_msg}
use simplex_go.Broker.Accepted.{decode_broker_msg-eq-ok_iff}
use simplex_go.Broker.Parsing.{Stands}

abbrev two : Bytes
two = 1 ∷ 2 ∷ []

abbrev pong_to : ℕ → Transmission
pong_to c = record {
  corr_id = replicate 24 c;
  entity_id = [];
  command = codes "PONG";
  authorization = [];
}

abbrev pong_wire : ℕ → Bytes
pong_wire c = wire_format 7 [] (pong_to c)

encode_pongs :
    (encode_transmission 7 [] (pong_to 0) ≡ ok (pong_wire 0, auth_format [] (pong_to 0)))
    × (encode_transmission 7 [] (pong_to 3) ≡ ok (pong_wire 3, auth_format [] (pong_to 3)))
unfolding encode_transmission auth_fields wire_fields encode_corr_id bytes_eq Encoder.short_string
    Encoder.char Encoder.raw
encode_pongs = (refl, refl)

decode_block-encode_block_example :
    (block : Bytes) × (encode_block (pong_wire 0 ∷ pong_wire 3 ∷ []) ≡ ok block)
    × (decode_block 7 [] (block ++ (b'#' ∷ [])) ≡ ok (pong_to 0 ∷ pong_to 3 ∷ []))
unfolding bytes_eq
decode_block-encode_block_example =
    decode_block-encode_block 7 [] (pong_to 0 ∷ pong_to 3 ∷ []) (pong_wire 0 ∷ pong_wire 3 ∷ [])
      (b'#' ∷ []) (omega arith)
      (refl, omega arith, (_, encode_pongs.0), (refl, omega arith, (_, encode_pongs.1), tt))

decode_block-eq-ok_iff_example :
    (decode_block 7 [] (block_format (pong_wire 3 ∷ [])) ≡ ok (pong_to 3 ∷ [])) ↔ (
      (ws : List Bytes) × (more : Bytes) × (block_format (pong_wire 3 ∷ [])
        ≡ block_format ws ++ more)
      × Parsed 7 [] ws (pong_to 3 ∷ []))
unfolding bytes_eq
decode_block-eq-ok_iff_example =
    decode_block-eq-ok_iff 7 [] (block_format (pong_wire 3 ∷ [])) (pong_to 3 ∷ []) (omega arith)

decode_cut_block :
    decode_block 7 [] (1 ∷ 0 ∷ 9 ∷ two) ≡ err (within "smp: tx body" (sentinel truncated))
unfolding decode_block read_transmissions Decoder.char Decoder.word16 Decoder.need
decode_cut_block = refl

encode_transmission-result_example :
    encode_transmission 7 (replicate 256 1) (pong_to 3)
    ≡ err (within "smp: auth sessId" (sentinel short_string_too_long))
encode_transmission-result_example = encode_transmission-result 7 (replicate 256 1) (pong_to 3)

abbrev new_of : Bool → ℕ → Command
new_of secure mode = new_cmd (record {
  rcv_auth_pub_key_der = two;
  rcv_dh_pub_key_der = 3 ∷ [];
  basic_auth = [];
  subscribe_mode = mode;
  sender_can_secure = secure;
})

abbrev new_bytes : Bytes
new_bytes = codes "NEW " ++ (2 ∷ 1 ∷ 2 ∷ 1 ∷ 3 ∷ b'0' ∷ b'S' ∷ [])

encode_news :
    (encode_command 7 (new_of true 0) ≡ ok new_bytes)
    × (encode_command 7 (new_of false b'S') ≡ ok new_bytes)
unfolding encode_command encode_new Encoder.raw Encoder.short_string Encoder.maybe_short_string
    Encoder.char bytes_eq
encode_news = (refl, refl)

encode_command-injective_example : on_wire 7 (new_of true 0) ≡ on_wire 7 (new_of false b'S')
encode_command-injective_example =
    encode_command-injective 7 (new_of true 0) (new_of false b'S') new_bytes encode_news.0
      encode_news.1

encode_command-eq-ok_iff_example :
    (encode_command 9 (ack_cmd two) ≡ ok (codes "ACK " ++ (2 ∷ two)))
    ↔ ((2 ≤ 255) × (codes "ACK " ++ (2 ∷ two) ≡ command_format 9 (ack_cmd two)))
encode_command-eq-ok_iff_example =
    encode_command-eq-ok_iff 9 (ack_cmd two) (codes "ACK " ++ (2 ∷ two))

decode_auth_error :
    decode_broker_msg 7 (codes "ERR AUTH x") ≡ ok (err_msg (codes "AUTH") (codes "x"))
unfolding decode_broker_msg decode_err has_prefix bytes_eq index_byte
decode_auth_error = refl

abbrev msg_id : Bytes
msg_id = replicate 24 8

abbrev msg_bytes : Bytes
msg_bytes = codes "MSG " ++ (24 ∷ (msg_id ++ two))

decode_broker_msg-eq-ok_iff_example :
    (decode_broker_msg 7 msg_bytes ≡ ok (msg_msg (message msg_id two)))
    ↔ Stands 7 (msg_msg (message msg_id two)) msg_bytes
decode_broker_msg-eq-ok_iff_example =
    decode_broker_msg-eq-ok_iff 7 (msg_msg (message msg_id two)) msg_bytes (omega arith)
