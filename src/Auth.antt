-- ===== src/Auth.antt =====
-- smp/auth.go, smp/auth_cb.go and smp/dh.go: the authorization of commands. The primitives of
-- crypto/ed25519, crypto/ecdh, crypto/sha512 and nacl/secretbox are parameters.
pub mod Deniable
use simplex_go.Base.{
  ℕ, ◌+◌, Bool, false, Option, none, some, ◌++◌, ◌==◌, if◌then◌else◌, length, take, replicate,
  Bytes, bytes_eq, Result, wrap_result, bind_result, other, ok, err,
}
use simplex_go.Dial.{x25519_key_size, X25519}

-- ecdh.X25519(): NewPrivateKey, NewPublicKey and ECDH; sha512.Sum512; secretbox.Seal and Open, on
-- the message or the box, the nonce and the key.
pub record Crypto : Type 0 where
  pub new_private_key : Bytes → Result Bytes
  pub new_public_key : Bytes → Result Bytes
  pub ecdh : Bytes → Bytes → Result Bytes
  pub sum512 : Bytes → Bytes
  pub seal : Bytes → Bytes → Bytes → Bytes
  pub open_box : Bytes → Bytes → Bytes → Option Bytes
  pub sign : Bytes → Bytes → Bytes

abbrev pub cb_authenticator_size : ℕ
cb_authenticator_size = 16 + 64

-- ed25519.PrivateKeySize
abbrev pub private_key_size : ℕ
private_key_size = 64

-- var a [n]byte; copy(a[:], bs)
abbrev pub copied : ℕ → Bytes → Bytes
copied n bs = take n (bs ++ replicate n 0)

-- What VerifyCbAuth makes of the result of secretbox.Open; `none` is ok == false.
unfoldable pub same_digest : Bytes → Option Bytes → Bool
same_digest digest none = false
same_digest digest (some plain) = bytes_eq plain digest

module _ (crypto : Crypto) where
  -- Ed25519Signer.Authorize
  unfoldable pub ed25519_authorize : Bytes → Bytes → Bytes → Result Bytes
  ed25519_authorize key authorized nonce =
      if length key == private_key_size
      then ok (crypto.sign key authorized)
      else err (other "smp: invalid Ed25519 private key length")

  unfoldable pub derive_shared : (priv peer_pub : Bytes) → Result Bytes
  derive_shared priv peer_pub =
      if length priv == x25519_key_size
      then (if length peer_pub == x25519_key_size
          then bind_result (wrap_result "smp: parse X25519 private" (crypto.new_private_key priv))
              (λ priv_key.
                bind_result
                  (wrap_result "smp: parse X25519 peer pub" (crypto.new_public_key peer_pub))
                  λ pub_key. wrap_result "smp: X25519 ECDH" (crypto.ecdh priv_key pub_key))
          else err (other "smp: X25519 peer public key must be 32 bytes"))
      else err (other "smp: X25519 private key must be 32 bytes")

  -- X25519AuthSigner.Authorize, with its fields Priv and PeerPub.
  unfoldable pub cb_authorize : (priv peer_pub : Bytes) → (authorized nonce : Bytes) → Result Bytes
  cb_authorize priv peer_pub authorized nonce =
      if length priv == x25519_key_size
      then (if length peer_pub == x25519_key_size
          then bind_result (wrap_result "smp: derive sessSecret" (derive_shared priv peer_pub))
              (λ shared.
                let tag =
                  crypto.seal (crypto.sum512 authorized) (copied 24 nonce) (copied 32 shared) in
                if length tag == cb_authenticator_size
                then ok tag
                else err (other "smp: unexpected tag size"))
          else err (other "smp: X25519 peer pub must be 32 bytes"))
      else err (other "smp: X25519 priv must be 32 bytes")

  unfoldable pub verify_cb_auth : (peer_pub own_priv nonce tag authorized : Bytes) → Result Bool
  verify_cb_auth peer_pub own_priv nonce tag authorized =
      if length tag == cb_authenticator_size
      then bind_result (wrap_result "smp: derive sessSecret" (derive_shared own_priv peer_pub))
          (λ shared. ok (
            same_digest (crypto.sum512 authorized)
              (crypto.open_box tag (copied 24 nonce) (copied 32 shared))))
      else err (other "smp: tag must be 80 bytes")
