-- ===== src/Block.antt =====
-- smp/protocol.go: EncodeBlock and DecodeBlock, several transmissions in one transport block. The
-- index of a transmission, which the code puts in the text of an error, is left out.
pub mod Format
pub mod RoundTrip
pub mod Accepted
use simplex_go.Base.{
  ℕ, zero, suc, ◌%◌, ◌^◌, List, [], ◌∷◌, ltb, if◌then◌else◌, length, Bytes, Result, Op, pure, fail,
  wrap, ◌>>=◌, ◌>>◌, bad_encoding, sentinel, other, err,
}
use simplex_go.Wire.Encoder
use simplex_go.Wire.Decoder
use simplex_go.Wire.Encoder.{Encoder, encode}
use simplex_go.Wire.Decoder.{Decoder, decode}
use simplex_go.Transmission.{Transmission, decode_transmission}

-- The loop of EncodeBlock.
unfoldable pub write_transmissions : List Bytes → Op Encoder (Unit {0})
write_transmissions [] = pure tt
write_transmissions (t ∷ ts) =
    if ltb 65535 (length t)
    then fail (other "smp: tx too large")
    else (do Encoder.word16 (length t % 2 ^ 16); Encoder.raw t; write_transmissions ts)

unfoldable pub encode_block : List Bytes → Result Bytes
encode_block ts =
    if ltb 255 (length ts)
    then err (sentinel bad_encoding)
    else encode (do Encoder.char (length ts % 256); write_transmissions ts)

-- x, err := f(…); if err != nil { return nil, err }, for a function that is no method of d.
abbrev pub lift {ℓ κ} : {S : Type ℓ} {A : Type κ} → Result A → Op S A
lift r s = (r, s)

-- The loop of DecodeBlock, with the rounds that are left.
unfoldable pub read_transmissions : ℕ → Bytes → ℕ → Op Decoder (List Transmission)
read_transmissions v sess_id zero = pure []
read_transmissions v sess_id (suc n) = do
  t_len ← wrap "smp: tx length" Decoder.word16
  body ← wrap "smp: tx body" (Decoder.need t_len)
  tx ← wrap "smp: tx" (lift (decode_transmission v sess_id body))
  out ← read_transmissions v sess_id n
  pure (tx ∷ out)

unfoldable pub decode_block : ℕ → Bytes → Bytes → Result (List Transmission)
decode_block v sess_id block =
    decode (do cnt ← wrap "smp: block count" Decoder.char; read_transmissions v sess_id cnt) block
