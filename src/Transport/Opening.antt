-- ===== src/Transport/Opening.antt =====
-- smp/transport.go: DialTLS and Close. TCP and TLS are parameters; the settings of tls.Config other
-- than the VerifyConnection callback are part of them.
use simplex_go.Base.{
  ℕ, ◌+◌, ◌≤◌, ◌≡◌, refl, sym, ap, Option, none, some, List, ltb, if◌then◌else◌, length, Bytes,
  Result, Op, within, ok, err,
}
use simplex_go.Transport.{Conn, Certificate, verify_connection}
use simplex_go.Transport.Pinning.{HasPin, verify_connection-eq-ok_iff}

pub record TransportConfig : Type 0 where
  pub dial_timeout : ℕ
  pub io_timeout : ℕ

-- A connection in its state: DialContext and SetDeadline, where `none` is the zero time; the TLS
-- handshake with a VerifyConnection callback, with the certificates that the callback was called
-- with, nil if it was not; and Close of the TCP and of the TLS connection.
pub record Net (S : Type 0) : Type 0 where
  pub dial_tcp : Op S (Unit {0})
  pub now : S → ℕ
  pub set_deadline : Option ℕ → S → S
  pub handshake :
      (List Certificate → Result (Unit {0})) → S → (Result (Unit {0}) × List Certificate) × S
  pub close_tcp : S → S
  pub close_tls : Op S (Unit {0})

-- crypto/tls: a handshake succeeds only after the callback has returned nil.
abbrev pub Verifies : {S : Type 0} → Net S → Type 0
Verifies {S} net =
    (verify : List Certificate → Result (Unit {0})) (chain : List Certificate) (s s' : S)
    → net.handshake verify s ≡ ((ok tt, chain), s')
    → verify chain ≡ ok tt

module _ {S : Type 0} (net : Net S) (sha256 : Bytes → Bytes) (cfg : TransportConfig) where
  abbrev pub with_deadline : Option ℕ → S → S
  with_deadline t s = if ltb 0 cfg.dial_timeout then net.set_deadline t s else s

  -- The end of DialTLS, with the deferred call.
  abbrev pub shaken : (Result (Unit {0}) × List Certificate) × S → Result (List Certificate) × S
  shaken ((err e, chain), s) =
      (err (within "smp: tls handshake" e), with_deadline none (net.close_tcp s))
  shaken ((ok _, chain), s) = (ok chain, with_deadline none s)

  abbrev pub dialled : Bytes → Result (Unit {0}) × S → Result (List Certificate) × S
  dialled expected (err e, s) = (err (within "smp: tcp dial" e), s)
  dialled expected (ok _, s) =
      let s₁ = with_deadline (some (net.now s + cfg.dial_timeout)) s in
      shaken (net.handshake (verify_connection sha256 expected) s₁)

  -- The certificates of the peer; the Conn that goes with them is that of `opened`.
  unfoldable pub dial_tls : Bytes → Op S (List Certificate)
  dial_tls expected s = dialled expected (net.dial_tcp s)

  -- The Conn that DialTLS returns.
  abbrev pub opened : S → Conn S
  opened s = record {
    tls = s;
    io_timeout = cfg.io_timeout;
    read_deadline = none;
    write_deadline = none;
  }

  abbrev pub close_conn : Op (Conn S) (Unit {0})
  close_conn c = let r = net.close_tls c.tls in (r.0, record c { tls = r.1 })

  -- The steps of a DialTLS that succeeds, with the certificates that the server presents in its TLS
  -- handshake and the state that it leaves.
  pub record IsOpened (expected : Bytes) (s : S) (chain : List Certificate) (s' : S) : Type 0 where
    pub dialled_tcp : S
    pub shaken_tls : S
    pub connects : net.dial_tcp s ≡ (ok tt, dialled_tcp)
    pub shakes :
        net.handshake
          (verify_connection sha256 expected)
          (with_deadline (some (net.now dialled_tcp + cfg.dial_timeout)) dialled_tcp)
        ≡ ((ok tt, chain), shaken_tls)
    pub at_least : 2 ≤ length chain
    pub at_most : length chain ≤ 4
    pub pinned : HasPin sha256 expected chain
    pub ends : s' ≡ with_deadline none shaken_tls

  shaken-eq-ok :
      (r : (Result (Unit {0}) × List Certificate) × S) (s' : S) (chain : List Certificate)
      → shaken r ≡ (ok chain, s')
      → (r ≡ ((ok tt, chain), r.1)) × (s' ≡ with_deadline none r.1)
  shaken-eq-ok ((err e, c), t) s' chain f = cc f
  shaken-eq-ok ((ok tt, c), t) s' chain f =
      let same : c ≡ chain = cc f in
      (ap (λ (x : List Certificate). ((ok tt, x), t)) same, sym (ap (λ p. p.1) f))

  dialled-IsOpened :
      (expected : Bytes) (r : Result (Unit {0}) × S) (s s' : S) (chain : List Certificate)
      → Verifies net
      → net.dial_tcp s ≡ r
      → dialled expected r ≡ (ok chain, s')
      → IsOpened expected s chain s'
  dialled-IsOpened expected (err e, t) s s' chain verifies h f = cc f
  dialled-IsOpened expected (ok tt, t) s s' chain verifies h f =
      let verify = verify_connection sha256 expected in
      let start = with_deadline (some (net.now t + cfg.dial_timeout)) t in
      let (shook, left) = shaken-eq-ok (net.handshake verify start) s' chain f in
      let (low, high, pin) =
        (verify_connection-eq-ok_iff sha256 expected chain).0.0
          (verifies verify chain start _ shook) in
      record {
        dialled_tcp = t;
        shaken_tls = _;
        connects = h;
        shakes = shook;
        at_least = low;
        at_most = high;
        pinned = pin;
        ends = left;
      }

  -- A connection that is returned has been opened to a server whose certificates the pinning accepts.
  pub dial_tls-IsOpened :
      (expected : Bytes) (s s' : S) (chain : List Certificate)
      → Verifies net
      → dial_tls expected s ≡ (ok chain, s')
      → IsOpened expected s chain s'
  unfolding dial_tls
  dial_tls-IsOpened expected s s' chain verifies f =
      dialled-IsOpened expected (net.dial_tcp s) s s' chain verifies refl f
