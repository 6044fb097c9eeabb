-- ===== src/Dial/Outcome.antt =====
-- What a handshake that succeeds has established, and what one that fails has sent.
use simplex_go.Base.{
  ℕ, ◌≤◌, ◌≡◌, refl, ap, ◌∙◌, subst, subst₂, inl, inr, Option, Bool-cases, Bytes, bytes_eq,
  bytes_eq_iff, Error, wrap_result, pure, wrap, ◌>>=◌, ◌>>◌, bind_result, Result-cases, >>=-eq-ok,
  wrap-eq-ok, bind_result-eq-ok, wrap_result-eq-ok, ok, err,
}
use simplex_go.Block.{lift}
use simplex_go.Handshake.{
  SmpServerHandshake, encode_client_handshake, decode_server_handshake, negotiate_version,
}
use simplex_go.Handshake.Negotiation.{IsCommon, negotiate_version-IsBest}
use simplex_go.Dial.{
  BlockTransport, X25519, HandshakeParams, own_public, peer_public, check_session_id, client_reply,
  run_client_handshake, dial,
}

-- A reply to the hello of a server, and the parameters that go with it.
pub record IsReply (curve : X25519) (expected session_id : Bytes) (own : Option Bytes)
    (server : SmpServerHandshake) (reply : Bytes) (p : HandshakeParams) : Type 0 where
  pub same_session : server.session_id ≡ session_id
  pub common : IsCommon server.version_range p.version
  pub best : (w : ℕ) → IsCommon server.version_range w → w ≤ p.version
  pub key : Option Bytes
  pub offered : own_public curve p.version own ≡ ok key
  pub encoded :
      encode_client_handshake
        (record { version = p.version; key_hash = expected; auth_pub_key_raw = key })
      ≡ ok reply
  pub sess_id : p.sess_id ≡ session_id
  pub peer_key : p.peer_auth_pub_key ≡ peer_public p.version server.auth_pub_key_raw

session_of :
    (session_id : Bytes) (srv : SmpServerHandshake)
    → check_session_id session_id srv ≡ ok tt
    → srv.session_id ≡ session_id
session_of session_id srv e = elim (Bool-cases (bytes_eq srv.session_id session_id)) [
  | inl same ↦ (bytes_eq_iff srv.session_id session_id).0 same
  | inr differs ↦ cc (rw differs at e)
]

abbrev params_of : Bytes → ℕ → SmpServerHandshake → HandshakeParams
params_of session_id v srv = record {
  version = v;
  sess_id = session_id;
  peer_auth_pub_key = peer_public v srv.auth_pub_key_raw;
  block_size = 16384;
}

module _ (curve : X25519) (expected session_id : Bytes) (own : Option Bytes) (hello : Bytes) where
  -- The last step, with the parts that were computed before it.
  IsReply-of :
      (srv : SmpServerHandshake) (v : ℕ) (key : Option Bytes) (reply : Bytes) (p : HandshakeParams)
      → check_session_id session_id srv ≡ ok tt
      → negotiate_version srv.version_range ≡ ok v
      → own_public curve v own ≡ ok key
      → bind_result {B = Bytes × HandshakeParams}
          (wrap_result "smp: encode clientHello" (
            encode_client_handshake
              (record { version = v; key_hash = expected; auth_pub_key_raw = key })))
          (λ cli. ok (cli, params_of session_id v srv))
        ≡ ok (reply, p)
      → IsReply curve expected session_id own srv reply p
  IsReply-of srv v key reply p e₂ e₃ e₄ e =
      let (cli, e₅, e₆) =
        bind_result-eq-ok
          (wrap_result "smp: encode clientHello" (
            encode_client_handshake
              (record { version = v; key_hash = expected; auth_pub_key_raw = key })))
          (λ cli. ok (cli, params_of session_id v srv)) e in
      let same : params_of session_id v srv ≡ p = cc in
      let sent : cli ≡ reply = cc in
      let chosen = ((negotiate_version-IsBest srv.version_range).0 v).0 e₃ in
      subst₂ (IsReply curve expected session_id own srv) sent same (record {
        same_session = session_of session_id srv e₂;
        common = chosen.0;
        best = chosen.1;
        key = key;
        offered = e₄;
        encoded = wrap_result-eq-ok _ _ e₅;
        sess_id = refl;
        peer_key = refl;
      })

  client_reply-eq-ok :
      (reply : Bytes) (p : HandshakeParams)
      → client_reply curve expected session_id own hello ≡ ok (reply, p)
      → (server : SmpServerHandshake) × (decode_server_handshake hello ≡ ok server)
        × IsReply curve expected session_id own server reply p
  unfolding client_reply
  client_reply-eq-ok reply p e = elim (Result-cases (decode_server_handshake hello)) [
    | inr (x, f₁) ↦ cc (rw f₁ at e)
    | inl (srv, e₁) ↦ elim (Result-cases (check_session_id session_id srv)) [
      | inr (x, f₂) ↦ cc (rw (e₁, f₂) at e)
      | inl (_, e₂) ↦ elim (Result-cases (negotiate_version srv.version_range)) [
        | inr (x, f₃) ↦ cc (rw (e₁, e₂, f₃) at e)
        | inl (v, e₃) ↦ elim (Result-cases (own_public curve v own)) [
          | inr (x, f₄) ↦ cc (rw (e₁, e₂, e₃, f₄) at e)
          | inl (key, e₄) ↦
              (srv, e₁, IsReply-of srv v key reply p e₂ e₃ e₄ (rw (e₁, e₂, e₃, e₄) at e))
        ]
      ]
    ]
  ]

module _ {S : Type 0} (conn : BlockTransport S) (curve : X25519) (expected session_id : Bytes) where
  pub run_client_handshake-established :
      (own : Option Bytes) (s s' : S) (p : HandshakeParams)
      → run_client_handshake conn curve expected session_id own s ≡ (ok p, s')
      → (hello reply : Bytes) × (s₁ : S) × (server : SmpServerHandshake) × (conn.read_block s
          ≡ (ok hello, s₁))
        × (decode_server_handshake hello ≡ ok server)
        × IsReply curve expected session_id own server reply p
        × (conn.write_block reply s₁ ≡ (ok tt, s'))
  unfolding run_client_handshake
  run_client_handshake-established own s s' p e =
      let (hello, s₁, e₁, k₁) =
        >>=-eq-ok (wrap "smp: read serverHello" conn.read_block)
          (λ hello.
            lift (client_reply curve expected session_id own hello)
            >>= (λ (r : Bytes × HandshakeParams).
                wrap "smp: write clientHello" (conn.write_block r.0) >> pure r.1))
          s e in
      let (r, s₂, e₂, k₂) =
        >>=-eq-ok (lift (client_reply curve expected session_id own hello))
          (λ (r : Bytes × HandshakeParams).
            wrap "smp: write clientHello" (conn.write_block r.0) >> pure r.1)
          s₁ k₁ in
      let (_, s₃, e₃, k₃) =
        >>=-eq-ok (wrap "smp: write clientHello" (conn.write_block r.0)) (λ _. pure r.1) s₂ k₂ in
      let same_state : s₁ ≡ s₂ = cc in
      let end_state : s₃ ≡ s' = cc in
      let params : r.1 ≡ p = cc in
      let (server, decoded, is) =
        client_reply-eq-ok curve expected session_id own hello r.0 r.1 (cc) in
      let sent : conn.write_block r.0 s₂ ≡ (ok tt, s₃) =
        wrap-eq-ok _ (conn.write_block r.0) s₂ e₃ in
      (
        hello,
        r.0,
        s₁,
        server,
        wrap-eq-ok _ conn.read_block s e₁,
        decoded,
        subst (IsReply curve expected session_id own server r.0) params is,
        ap (conn.write_block r.0) same_state ∙ sent ∙ ap (λ x. (ok tt, x)) end_state,
      )

  run-no_reply :
      (own : Option Bytes) (s s₁ : S) (hello : Bytes) (x : Error)
      → conn.read_block s ≡ (ok hello, s₁)
      → client_reply curve expected session_id own hello ≡ err x
      → run_client_handshake conn curve expected session_id own s ≡ (err x, s₁)
  unfolding run_client_handshake
  run-no_reply own s s₁ hello x read failed = rw (read, failed)

  -- A handshake whose hello has another session id, a version range without a common version, or
  -- any other reason to give no reply writes nothing and closes the connection.
  pub dial-no_reply :
      (own : Option Bytes) (s s₁ : S) (hello : Bytes) (x : Error)
      → conn.read_block s ≡ (ok hello, s₁)
      → client_reply curve expected session_id own hello ≡ err x
      → dial conn curve expected session_id own s ≡ (err x, (conn.close s₁).1)
  unfolding dial
  dial-no_reply own s s₁ hello x read failed = rw (run-no_reply own s s₁ hello x read failed)
