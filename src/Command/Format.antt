-- ===== src/Command/Format.antt =====
-- The byte format of the commands.
use simplex_go.Base.{
  ℕ, ◌≤◌, ◌≡◌, refl, ap, Bool, not, Option, none, some, [], ◌∷◌, ◌++◌, leb, ◌==◌, if◌then◌else◌,
  length, Bytes, codes, bytes_eq, pure, ok,
}
use simplex_go.Wire.Encoder
use simplex_go.Wire.Encoder.{Encoder, encode, finish}
use simplex_go.Wire.Reads.{Writes, Writes->>, Writes-wrap, Writes-if, Writes-nothing}
use simplex_go.Wire.Primitives.{
  short_bytes, bool_bytes, maybe_bytes, Writes-char, Writes-raw, Writes-tail, Writes-bool,
  Writes-short_string, Writes-maybe,
}
use simplex_go.Transmission.{version_v9}
use simplex_go.Command.{
  subscribe_on_create, NewQueueReq, Command, encode_new, encode_command, new_cmd, sub_cmd, send_cmd,
  ack_cmd, ping_cmd,
}

-- The keys, the password and a message id have a one-byte length.
abbrev pub Fits : Command → Type 0
Fits (new_cmd req) =
    (length req.rcv_auth_pub_key_der ≤ 255)
    × (length req.rcv_dh_pub_key_der ≤ 255)
    × (length req.basic_auth ≤ 255)
Fits sub_cmd = Unit {0}
Fits (send_cmd flags body) = Unit {0}
Fits (ack_cmd msg_id) = length msg_id ≤ 255
Fits ping_cmd = Unit {0}

-- An unset mode goes out as subscribe-on-create.
abbrev pub wire_mode : ℕ → ℕ
wire_mode m = if m == 0 then subscribe_on_create else m

-- The empty password is the absent one.
abbrev pub password : Bytes → Option Bytes
password p = if not (bytes_eq p []) then some p else none

abbrev pub secure_bytes : ℕ → Bool → Bytes
secure_bytes v b = if leb version_v9 v then bool_bytes b else []

-- What follows "NEW ".
abbrev pub new_body : ℕ → NewQueueReq → Bytes
new_body v req =
    short_bytes req.rcv_auth_pub_key_der
    ++ (short_bytes req.rcv_dh_pub_key_der
        ++ (maybe_bytes (password req.basic_auth)
            ++ (wire_mode req.subscribe_mode ∷ secure_bytes v req.sender_can_secure)))

abbrev pub command_format : ℕ → Command → Bytes
command_format v (new_cmd req) = codes "NEW " ++ new_body v req
command_format v sub_cmd = codes "SUB"
command_format v (send_cmd flags body) =
    codes "SEND " ++ (bool_bytes flags.notification ++ (b' ' ∷ body))
command_format v (ack_cmd msg_id) = codes "ACK " ++ short_bytes msg_id
command_format v ping_cmd = codes "PING"

Writes-secure :
    (v : ℕ) (b : Bool)
    → Writes (if leb version_v9 v then Encoder.bool b else pure tt) (secure_bytes v b)
Writes-secure v b = Writes-if (leb version_v9 v) _ _ _ _ (Writes-bool b) Writes-nothing

Writes-new :
    (v : ℕ) (req : NewQueueReq)
    → Fits (new_cmd req)
    → Writes (encode_new v req) (codes "NEW " ++ new_body v req)
unfolding encode_new
Writes-new v req h = Writes->> _ _ _ _ (Writes-raw (codes "NEW ")) (
    Writes->> _ _ _ _ (Writes-wrap _ _ _ (Writes-short_string req.rcv_auth_pub_key_der h.0)) (
      Writes->> _ _ _ _ (Writes-wrap _ _ _ (Writes-short_string req.rcv_dh_pub_key_der h.1)) (
        Writes->> _ _ _ _
          (Writes-wrap _ _ _ (Writes-maybe (not (bytes_eq req.basic_auth [])) req.basic_auth h.2))
          (Writes->> _ _ _ _ (Writes-char (wire_mode req.subscribe_mode))
            (Writes-secure v req.sender_can_secure)))))

pub encode_command-format :
    (v : ℕ) (c : Command) → Fits c → encode_command v c ≡ ok (command_format v c)
unfolding encode_command
encode_command-format v (new_cmd req) h = ap finish (Writes-new v req h (record { buf = [] }))
encode_command-format v sub_cmd h = refl
encode_command-format v (send_cmd flags body) h = ap finish (
    Writes->> _ _ _ _ (Writes-raw (codes "SEND "))
      (Writes->> _ _ _ _ (Writes-bool flags.notification)
        (Writes->> _ _ _ _ (Writes-char b' ') (Writes-tail body)))
      (record { buf = [] }))
encode_command-format v (ack_cmd msg_id) h = ap finish (
    Writes->> _ _ _ _ (Writes-raw (codes "ACK ")) (Writes-wrap _ _ _ (Writes-short_string msg_id h))
      (record { buf = [] }))
encode_command-format v ping_cmd h = refl
