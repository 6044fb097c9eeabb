-- ===== src/Command.antt =====
-- smp/protocol.go: the commands of a client and EncodeCommand.
pub mod Format
pub mod Encoding
use simplex_go.Base.{
  ℕ, Bool, not, [], leb, ◌==◌, if◌then◌else◌, Bytes, codes, bytes_eq, Result, Op, pure, wrap, ◌>>=◌,
  ◌>>◌, ok,
}
use simplex_go.Wire.Encoder
use simplex_go.Wire.Encoder.{Encoder, encode}
use simplex_go.Transmission.{version_v9}

-- SubscribeMode, a byte: 'S', 'C', or 0 where it is not set.
abbrev pub subscribe_on_create : ℕ
subscribe_on_create = b'S'

abbrev pub subscribe_manual : ℕ
subscribe_manual = b'C'

pub record MsgFlags : Type 0 where
  pub notification : Bool

pub record NewQueueReq : Type 0 where
  pub rcv_auth_pub_key_der : Bytes
  pub rcv_dh_pub_key_der : Bytes
  pub basic_auth : Bytes
  pub subscribe_mode : ℕ
  pub sender_can_secure : Bool

-- The types that implement the sealed interface Command. Its nil value, the default case of
-- EncodeCommand, is not modelled: no caller passes it.
pub data Command : Type 0 where
  new_cmd : NewQueueReq → Command
  sub_cmd : Command
  send_cmd : MsgFlags → Bytes → Command
  ack_cmd : Bytes → Command
  ping_cmd : Command

-- The case NewCmd of EncodeCommand.
unfoldable pub encode_new : ℕ → NewQueueReq → Op Encoder (Unit {0})
encode_new v req = do
  Encoder.raw (codes "NEW ")
  wrap "smp: NEW rcvAuthPubKey" (Encoder.short_string req.rcv_auth_pub_key_der)
  wrap "smp: NEW rcvDhPubKey" (Encoder.short_string req.rcv_dh_pub_key_der)
  wrap "smp: NEW basicAuth"
      (Encoder.maybe_short_string (not (bytes_eq req.basic_auth [])) req.basic_auth)
  Encoder.char (if req.subscribe_mode == 0 then subscribe_on_create else req.subscribe_mode)
  if leb version_v9 v then Encoder.bool req.sender_can_secure else pure tt

unfoldable pub encode_command : ℕ → Command → Result Bytes
unfolding encode_new
encode_command v (new_cmd req) = encode (encode_new v req)
encode_command v sub_cmd = ok (codes "SUB")
encode_command v (send_cmd flags body) = encode (do
  Encoder.raw (codes "SEND ")
  Encoder.bool flags.notification
  Encoder.char b' '
  Encoder.tail body)
encode_command v (ack_cmd msg_id) =
    encode (do Encoder.raw (codes "ACK "); wrap "smp: ACK msgId" (Encoder.short_string msg_id))
encode_command v ping_cmd = ok (codes "PING")
