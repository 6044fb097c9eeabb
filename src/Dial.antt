-- ===== src/Dial.antt =====
-- smp/dial.go and Dial of smp/client.go: the client's side of the SMP handshake on a connection that
-- has done its TLS handshake. The transport, crypto/ecdh and crypto/rand are parameters; a context
-- is part of the transport's state.
pub mod Outcome
pub mod Whole
use simplex_go.Base.{
  ℕ, ◌&&◌, Option, none, some, leb, ◌==◌, if◌then◌else◌, length, Bytes, bytes_eq, Result,
  wrap_result, Op, pure, wrap, ◌>>=◌, ◌>>◌, bind_result, bad_session, sentinel, other, ok, err,
}
use simplex_go.Block.{lift}
use simplex_go.Transmission.{version_v7}
use simplex_go.Handshake.{
  SmpServerHandshake, encode_client_handshake, decode_server_handshake, negotiate_version,
}
use simplex_go.Transport.{smp_block_size}

abbrev pub x25519_key_size : ℕ
x25519_key_size = 32

-- The interface BlockTransport, on a state S.
pub record BlockTransport (S : Type 0) : Type 0 where
  pub read_block : Op S Bytes
  pub write_block : Bytes → Op S (Unit {0})
  pub close : Op S (Unit {0})

-- ecdh.X25519(): a fresh private key with its public key, and the public key of a private one.
pub record X25519 : Type 0 where
  pub generate : Result (Bytes × Bytes)
  pub public_of : Bytes → Result Bytes

-- `none` is the nil key.
pub record HandshakeParams : Type 0 where
  pub version : ℕ
  pub sess_id : Bytes
  pub peer_auth_pub_key : Option Bytes
  pub block_size : ℕ

-- Step 4: the public key that the client offers, nil before version 7.
unfoldable pub own_public : X25519 → ℕ → Option Bytes → Result (Option Bytes)
own_public curve v own_auth_priv =
    if leb version_v7 v
    then (elim own_auth_priv [
      | none ↦
          bind_result (wrap_result "smp: generate ephemeral X25519" curve.generate)
            λ k. ok (some k.1)
      | some priv ↦
          if length priv == x25519_key_size
          then bind_result (wrap_result "smp: parse ownAuthPriv" (curve.public_of priv))
              (λ k. ok (some k))
          else err (other "smp: ownAuthPriv must be 32 bytes")
    ])
    else ok none

-- The server's key, where its hello has exactly a raw X25519 key.
abbrev pub peer_public : ℕ → Bytes → Option Bytes
peer_public v raw = if leb version_v7 v && length raw == x25519_key_size then some raw else none

abbrev pub check_session_id : Bytes → SmpServerHandshake → Result (Unit {0})
check_session_id session_id srv =
    if bytes_eq srv.session_id session_id then ok tt else err (sentinel bad_session)

-- Steps 1 to 5 between the read and the write: the bytes of the client's hello, and the parameters
-- that are returned if they can be written.
unfoldable pub client_reply :
    X25519 → (expected session_id : Bytes) → Option Bytes → Bytes → Result (Bytes × HandshakeParams)
client_reply curve expected session_id own_auth_priv hello_bytes =
    bind_result (wrap_result "smp: decode serverHello" (decode_server_handshake hello_bytes)) λ srv.
      bind_result (check_session_id session_id srv) λ _.
        bind_result (negotiate_version srv.version_range) λ v.
          bind_result (own_public curve v own_auth_priv) λ own_pub.
            bind_result
              (wrap_result "smp: encode clientHello" (
                encode_client_handshake
                  (record { version = v; key_hash = expected; auth_pub_key_raw = own_pub })))
              λ cli_bytes. ok (
                cli_bytes,
                record {
                  version = v;
                  sess_id = session_id;
                  peer_auth_pub_key = peer_public v srv.auth_pub_key_raw;
                  block_size = smp_block_size;
                },
              )

module _ {S : Type 0} (conn : BlockTransport S) (curve : X25519) (expected session_id : Bytes) where
  unfoldable pub run_client_handshake : Option Bytes → Op S HandshakeParams
  run_client_handshake own_auth_priv = do
    hello_bytes ← wrap "smp: read serverHello" conn.read_block
    (cli_bytes, params) ← lift (client_reply curve expected session_id own_auth_priv hello_bytes)
    wrap "smp: write clientHello" (conn.write_block cli_bytes)
    pure params

  -- if err != nil { _ = conn.Close(); return nil, err }
  abbrev pub close_on_error : Result HandshakeParams → Op S HandshakeParams
  close_on_error (ok params) s = (ok params, s)
  close_on_error (err e) s = (err e, (conn.close s).1)

  -- Dial after DialTLS: a handshake that fails closes the connection, and its own error is returned.
  unfoldable pub dial : Option Bytes → Op S HandshakeParams
  dial own_auth_priv s = let r = run_client_handshake own_auth_priv s in close_on_error r.0 r.1
