-- ===== src/Handshake.antt =====
-- smp/handshake.go: the two hello messages and the choice of a version. A version is a uint16.
pub mod Negotiation
pub mod Hello
use simplex_go.Base.{
  ℕ, ◌&&◌, Option, none, some, [], ltb, leb, if◌then◌else◌, Bytes, Result, Op, pure, wrap, ◌>>=◌,
  ◌>>◌, incompatible_version, sentinel, other, ok, err,
}
use simplex_go.Wire.Encoder
use simplex_go.Wire.Decoder
use simplex_go.Wire.Encoder.{Encoder, encode}
use simplex_go.Wire.Decoder.{Decoder, decode}
use simplex_go.Transmission.{version_v6, version_v7}

abbrev pub min_client_version : ℕ
min_client_version = version_v6

abbrev pub max_client_version : ℕ
max_client_version = version_v7

pub record VersionRange : Type 0 where
  pub min : ℕ
  pub max : ℕ

-- `auth_pub_key_raw` is empty where the server offers no key: the code only looks at its length.
pub record SmpServerHandshake : Type 0 where
  pub version_range : VersionRange
  pub session_id : Bytes
  pub auth_pub_key_raw : Bytes

-- `none` is the nil key, which is not the empty one.
pub record SmpClientHandshake : Type 0 where
  pub version : ℕ
  pub key_hash : Bytes
  pub auth_pub_key_raw : Option Bytes

abbrev pub write_auth_key : ℕ → Option Bytes → Op Encoder (Unit {0})
write_auth_key v none = pure tt
write_auth_key v (some key) =
    if leb version_v7 v
    then wrap "smp: clientHello authPubKey" (Encoder.short_string key)
    else pure tt

unfoldable pub encode_client_handshake : SmpClientHandshake → Result Bytes
encode_client_handshake hs =
    if ltb hs.version min_client_version
    then err (other "smp: clientHello version below minimum")
    else encode (do
      Encoder.word16 hs.version
      wrap "smp: clientHello keyHash" (Encoder.short_string hs.key_hash)
      write_auth_key hs.version hs.auth_pub_key_raw)

-- The test of `maxV` and d.Remaining(), and d.Tail() where it holds.
unfoldable pub read_auth_key : ℕ → Op Decoder Bytes
read_auth_key max_v d =
    if leb version_v7 max_v && ltb 0 (Decoder.remaining d) then Decoder.tail d else pure [] d

unfoldable pub read_server_handshake : Op Decoder SmpServerHandshake
read_server_handshake = do
  min_v ← wrap "smp: serverHello minVer" Decoder.word16
  max_v ← wrap "smp: serverHello maxVer" Decoder.word16
  sess_id ← wrap "smp: serverHello sessId" Decoder.short_string
  key ← read_auth_key max_v
  pure (record {
    version_range = record { min = min_v; max = max_v };
    session_id = sess_id;
    auth_pub_key_raw = key;
  })

unfoldable pub decode_server_handshake : Bytes → Result SmpServerHandshake
decode_server_handshake raw = decode read_server_handshake raw

unfoldable pub negotiate_version : VersionRange → Result ℕ
negotiate_version server =
    let lo = if ltb min_client_version server.min then server.min else min_client_version in
    let hi = if ltb server.max max_client_version then server.max else max_client_version in
    if ltb hi lo then err (sentinel incompatible_version) else ok hi
