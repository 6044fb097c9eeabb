-- ===== src/Broker.antt =====
-- smp/protocol.go: the messages of a server and DecodeBrokerMsg. A time.Time is the number that
-- stands for it, 0 for the zero time.
pub mod Parsing
pub mod Accepted
use simplex_go.Base.{
  ℕ, ◌+◌, Bool, false, Option, none, some, [], ◌++◌, leb, ◌==◌, if◌then◌else◌, length, take, drop,
  Bytes, codes, bytes_eq, has_prefix, index_byte, Result, Op, pure, wrap, ◌>>=◌, ◌>>◌, bad_encoding,
  sentinel, ok, err,
}
use simplex_go.Wire.Decoder
use simplex_go.Wire.Decoder.{Decoder, decode}
use simplex_go.Transmission.{version_v9}
use simplex_go.Command.{MsgFlags}

pub record IdsResponse : Type 0 where
  pub recipient_id : Bytes
  pub sender_id : Bytes
  pub srv_dh_pub_key : Bytes
  pub snd_can_secure : Bool

pub record Message : Type 0 where
  pub id : Bytes
  pub ts : ℕ
  pub flags : MsgFlags
  pub body : Bytes
  pub quota : Bool

-- The types that implement the sealed interface BrokerMsg.
pub data BrokerMsg : Type 0 where
  ids_msg : IdsResponse → BrokerMsg
  msg_msg : Message → BrokerMsg
  ok_msg pong_msg end_msg : BrokerMsg
  err_msg : Bytes → Bytes → BrokerMsg

unfoldable pub read_ids : ℕ → Op Decoder BrokerMsg
read_ids v = do
  rcv ← wrap "smp: IDS recipientId" Decoder.short_string
  snd ← wrap "smp: IDS senderId" Decoder.short_string
  dh ← wrap "smp: IDS srvDhPubKey" Decoder.short_string
  secure ← if leb version_v9 v then wrap "smp: IDS sndCanSecure" Decoder.bool else pure false
  pure (
      ids_msg (record {
        recipient_id = rcv;
        sender_id = snd;
        srv_dh_pub_key = dh;
        snd_can_secure = secure;
      }))

unfoldable pub decode_ids : ℕ → Bytes → Result BrokerMsg
decode_ids v body = decode (read_ids v) body

-- The fields that decodeMSG does not set have their zero values.
abbrev pub message : Bytes → Bytes → Message
message id body = record {
  id = id;
  ts = 0;
  flags = record { notification = false };
  body = body;
  quota = false;
}

unfoldable pub read_msg : Op Decoder BrokerMsg
read_msg = do
  msg_id ← wrap "smp: MSG msgId" Decoder.short_string
  rest ← Decoder.tail
  pure (msg_msg (message msg_id rest))

unfoldable pub decode_msg : Bytes → Result BrokerMsg
decode_msg body = decode read_msg body

-- `sp` is the index of the first space; `none` is the -1 of IndexByte.
abbrev pub split_err : Bytes → Option ℕ → BrokerMsg
split_err body none = err_msg body []
split_err body (some sp) = err_msg (take sp body) (drop (sp + 1) body)

unfoldable pub decode_err : Bytes → Result BrokerMsg
decode_err body = ok (split_err body (index_byte body b' '))

unfoldable pub decode_broker_msg : ℕ → Bytes → Result BrokerMsg
decode_broker_msg v raw =
    if length raw == 0
    then err (sentinel bad_encoding)
    else if has_prefix raw (codes "IDS ")
    then decode_ids v (drop 4 raw)
    else if has_prefix raw (codes "MSG ")
    then decode_msg (drop 4 raw)
    else if bytes_eq raw (codes "OK")
    then ok ok_msg
    else if bytes_eq raw (codes "PONG")
    then ok pong_msg
    else if bytes_eq raw (codes "END")
    then ok end_msg
    else if has_prefix raw (codes "ERR ")
    then decode_err (drop 4 raw)
    else err (sentinel bad_encoding)

-- ErrMsg.Error
unfoldable pub error_text : Bytes → Bytes → Bytes
error_text type detail =
    if bytes_eq detail []
    then codes "smp: " ++ type
    else codes "smp: " ++ (type ++ (codes ": " ++ detail))
