-- ===== src/Dial/Whole.antt =====
-- smp/client.go: Dial from its start to its end, over DialTLS and the block framing of a Conn.
use simplex_go.Base.{
  ℕ, ◌≡◌, refl, sym, ap, ◌∙◌, ◌⊎◌, inl, inr, Option, none, List, Bytes, Error, Result, Op, within,
  ok, err,
}
use simplex_go.Transport.{Conn, Tls, write_block, read_block, Certificate, verify_connection}
use simplex_go.Transport.Opening.{
  TransportConfig, Net, Verifies, with_deadline, shaken, dialled, dial_tls, opened, close_conn,
  IsOpened, dial_tls-IsOpened,
}
use simplex_go.Handshake.{SmpServerHandshake, decode_server_handshake}
use simplex_go.Dial.{
  BlockTransport, X25519, HandshakeParams, run_client_handshake, close_on_error, dial,
}
use simplex_go.Dial.Outcome.{IsReply, run_client_handshake-established}

module _ {S : Type 0} (io : Tls S) (net : Net S) (sha256 : Bytes → Bytes) (cfg : TransportConfig)
    (curve : X25519) (ctx : Option ℕ) (expected session_id : Bytes) where
  -- A Conn as a BlockTransport.
  abbrev pub transport : BlockTransport (Conn S)
  transport = record {
    read_block = λ c. read_block io (net.now c.tls) ctx c;
    write_block = λ payload c. write_block io (net.now c.tls) ctx payload c;
    close = close_conn net sha256 cfg;
  }

  abbrev pub greeted : Option Bytes → Result (List Certificate) × S → Result HandshakeParams × S
  greeted own (err e, s) = (err e, s)
  greeted own (ok chain, s) =
      let r = dial transport curve expected session_id own (opened net sha256 cfg s) in
      (r.0, r.1.tls)

  -- The client that NewClient makes of the connection is left out; `own` is ownAuthPriv.
  unfoldable pub dial_addr : Option Bytes → Op S HandshakeParams
  dial_addr own s = greeted own (dial_tls net sha256 cfg expected s)

  not_closed :
      (r : Result HandshakeParams) (c c' : Conn S) (p : HandshakeParams)
      → close_on_error transport curve expected session_id r c ≡ (ok p, c')
      → ◌≡◌ {A = Result HandshakeParams × Conn S} (r, c) (ok p, c')
  not_closed (ok q) c c' p e = e
  not_closed (err x) c c' p e = cc e

  -- The run of a Dial that succeeds: DialTLS has left a connection open; the client has read a hello
  -- from it, has written the reply to it, and has left it so.
  pub record IsEstablished (own : Option Bytes) (s : S) (p : HandshakeParams) (s' : S)
      : Type 0 where
    pub chain : List Certificate
    pub start : S
    pub is_opened : IsOpened net sha256 cfg expected s chain start
    pub hello : Bytes
    pub heard : Conn S
    pub hears : read_block io (net.now start) ctx (opened net sha256 cfg start) ≡ (ok hello, heard)
    pub server : SmpServerHandshake
    pub decoded : decode_server_handshake hello ≡ ok server
    pub reply : Bytes
    pub is_reply : IsReply curve expected session_id own server reply p
    pub left : Conn S
    pub replies : write_block io (net.now heard.tls) ctx reply heard ≡ (ok tt, left)
    pub ends : s' ≡ left.tls

  greeted-IsEstablished :
      (own : Option Bytes) (r : Result (List Certificate) × S) (s s' : S) (p : HandshakeParams)
      → Verifies net
      → dial_tls net sha256 cfg expected s ≡ r
      → greeted own r ≡ (ok p, s')
      → IsEstablished own s p s'
  unfolding dial
  greeted-IsEstablished own (err e, t) s s' p verifies h f = cc f
  greeted-IsEstablished own (ok chain, t) s s' p verifies h f =
      let start = opened net sha256 cfg t in
      let done = dial transport curve expected session_id own start in
      let ran = run_client_handshake transport curve expected session_id own start in
      let good : done ≡ (ok p, done.1) = ap (λ x. (x, done.1)) (ap (λ x. x.0) f) in
      let made = not_closed ran.0 ran.1 done.1 p good in
      let (hello, reply, c, server, read, decoded, is, written) =
        run_client_handshake-established transport curve expected session_id own start done.1 p
          made in
      record {
        chain = chain;
        start = t;
        is_opened = dial_tls-IsOpened net sha256 cfg expected s t chain verifies h;
        hello = hello;
        heard = c;
        hears = read;
        server = server;
        decoded = decoded;
        reply = reply;
        is_reply = is;
        left = done.1;
        replies = written;
        ends = sym (ap (λ x. x.1) f);
      }

  -- When Dial succeeds, and crypto/tls succeeds only after its callback has returned nil: the TCP
  -- connection was made; in the TLS handshake on it the server has presented 2 to 4 certificates of
  -- which one has the expected fingerprint; from that TLS connection the client has read a hello with
  -- the expected session id, and has then written the reply to it, which carries that fingerprint;
  -- the parameters name the session and the greatest version that both sides speak; and the
  -- connection is left as that write has left it.
  pub dial_addr-IsEstablished :
      (own : Option Bytes) (s s' : S) (p : HandshakeParams)
      → Verifies net
      → dial_addr own s ≡ (ok p, s')
      → IsEstablished own s p s'
  unfolding dial_addr
  dial_addr-IsEstablished own s s' p verifies f =
      greeted-IsEstablished own (dial_tls net sha256 cfg expected s) s s' p verifies refl f

  -- A failure with its error: the TCP connection was not made; or the TLS handshake failed and the
  -- TCP connection was closed; or the SMP handshake failed and the TLS connection was closed.
  abbrev pub FailsClosed : Option Bytes → S → Error → S → Type 0
  FailsClosed own s x s' =
      ((e : Error) × (net.dial_tcp s ≡ (err e, s')) × (x ≡ within "smp: tcp dial" e))
      ⊎ ((e : Error) × (t₀ t : S) × (chain : List Certificate) × (net.handshake
              (verify_connection sha256 expected) t₀
            ≡ ((err e, chain), t))
          × (x ≡ within "smp: tls handshake" e)
          × (s' ≡ with_deadline net sha256 cfg none (net.close_tcp t)))
      ⊎ ((c₀ c : Conn S) × (run_client_handshake transport curve expected session_id own c₀
            ≡ (err x, c))
          × (s' ≡ (net.close_tls c.tls).1))

  closed_conn :
      (r : Result HandshakeParams) (c c' : Conn S) (x : Error)
      → close_on_error transport curve expected session_id r c ≡ (err x, c')
      → (r ≡ err x) × (c'.tls ≡ (net.close_tls c.tls).1)
  closed_conn (ok q) c c' x e = cc e
  closed_conn (err y) c c' x e = (ap (λ p. p.0) e, sym (ap (λ p. p.1.tls) e))

  shaken-FailsClosed :
      (own : Option Bytes) (r : (Result (Unit {0}) × List Certificate) × S) (s t₀ s' : S)
      (x : Error)
      → net.handshake (verify_connection sha256 expected) t₀ ≡ r
      → greeted own (shaken net sha256 cfg r) ≡ (err x, s')
      → FailsClosed own s x s'
  unfolding dial
  shaken-FailsClosed own ((err e, chain), t) s t₀ s' x h f =
      let broken : err (within "smp: tls handshake" e) ≡ err x = ap (λ p. p.0) f in
      inr (inl (e, t₀, t, chain, h, cc broken, sym (ap (λ p. p.1) f)))
  shaken-FailsClosed own ((ok u, chain), t) s t₀ s' x h f =
      let start = opened net sha256 cfg (with_deadline net sha256 cfg none t) in
      let done = dial transport curve expected session_id own start in
      let ran = run_client_handshake transport curve expected session_id own start in
      let bad : done ≡ (err x, done.1) = ap (λ y. (y, done.1)) (ap (λ p. p.0) f) in
      let (broken, closed) = closed_conn ran.0 ran.1 done.1 x bad in
      inr (
        inr (
          start,
          ran.1,
          ap (λ (y : Result HandshakeParams). (y, ran.1)) broken,
          sym (ap (λ p. p.1) f) ∙ closed,
        ))

  dialled-FailsClosed :
      (own : Option Bytes) (r : Result (Unit {0}) × S) (s s' : S) (x : Error)
      → net.dial_tcp s ≡ r
      → greeted own (dialled net sha256 cfg expected r) ≡ (err x, s')
      → FailsClosed own s x s'
  dialled-FailsClosed own (err e, t) s s' x h f =
      let broken : err (within "smp: tcp dial" e) ≡ err x = ap (λ p. p.0) f in
      inl (e, h ∙ ap (λ (y : S). (err e, y)) (ap (λ p. p.1) f), cc broken)
  dialled-FailsClosed own (ok u, t) s s' x h f = shaken-FailsClosed own _ s _ s' x refl f

  -- When Dial fails, no connection is left open: either the TCP connection was not made, or the TLS
  -- handshake has failed and the TCP connection was closed, or the SMP handshake has failed and the
  -- TLS connection was closed; and the error returned is that of the step that failed.
  pub dial_addr-FailsClosed :
      (own : Option Bytes) (s s' : S) (x : Error)
      → dial_addr own s ≡ (err x, s')
      → FailsClosed own s x s'
  unfolding dial_addr dial_tls
  dial_addr-FailsClosed own s s' x f = dialled-FailsClosed own (net.dial_tcp s) s s' x refl f
