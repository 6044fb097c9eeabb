-- ===== src/Transport.antt =====
-- smp/transport.go: the block framing of a Conn, its deadlines, and the pinning of the server's
-- certificate. The TLS connection and the clock are parameters.
pub mod Framing
pub mod Pinning
pub mod Opening
use simplex_go.Base.{
  ℕ, ◌+◌, ◌-◌, ◌%◌, ◌^◌, Bool, true, false, ◌||◌, Option, none, some, List, [], ◌∷◌, ◌++◌, be16,
  uint16_of, ltb, ◌==◌, if◌then◌else◌, length, take, drop, replicate, Bytes, bytes_eq, Error,
  Result, Op, bad_block, large_block, short_block, fingerprint_mismatch, sentinel, other, ok, err,
}

abbrev pub smp_block_size : ℕ
smp_block_size = 16384

-- The block that WriteBlock builds, or its early return.
unfoldable pub frame : Bytes → Result Bytes
frame payload =
    if ltb (smp_block_size - 2) (length payload)
    then err (sentinel large_block)
    else ok (
        be16 (length payload % 2 ^ 16)
        ++ (payload ++ replicate (smp_block_size - (2 + length payload)) b'#'))

-- What ReadBlock makes of a block of smp_block_size bytes.
unfoldable pub unframe : Bytes → Result Bytes
unframe block =
    let length' = uint16_of (take 2 block) in
    if ltb (smp_block_size - 2) length'
    then err (sentinel bad_block)
    else ok (take length' (drop 2 block))

-- The outcome of io.ReadFull on a buffer of smp_block_size bytes.
pub data ReadFull : Type 0 where
  full : Bytes → ReadFull
  eof unexpected_eof : ReadFull
  failed : Error → ReadFull

unfoldable pub received : ReadFull → Result Bytes
unfolding unframe
received (full block) = unframe block
received eof = err (sentinel short_block)
received unexpected_eof = err (sentinel short_block)
received (failed e) = err e

-- A context.Context as its deadline. `none` is the zero time.Time.
unfoldable pub earliest_deadline : (io now : ℕ) → (ctx : Option ℕ) → Option ℕ
earliest_deadline io now ctx =
    let deadline = if ltb 0 io then some (now + io) else none in
    elim ctx [
      | none ↦ deadline
      | some ctx_deadline ↦ elim deadline [
        | none ↦ some ctx_deadline
        | some t ↦ if ltb ctx_deadline t then some ctx_deadline else some t
      ]
    ]

-- A tls.Conn in its state `tls`, with the deadlines that are set on it.
pub record Conn (S : Type 0) : Type 0 where
  pub tls : S
  pub io_timeout : ℕ
  pub read_deadline : Option ℕ
  pub write_deadline : Option ℕ

-- The two calls of the TLS connection that block framing makes. They may look at the deadline.
pub record Tls (S : Type 0) : Type 0 where
  pub write : Option ℕ → Bytes → Op S (Unit {0})
  pub read_full : Option ℕ → S → ReadFull × S

-- applyWriteDeadline and applyReadDeadline: a zero deadline leaves what was set.
abbrev pub or_keep : Option ℕ → Option ℕ → Option ℕ
or_keep none old = old
or_keep (some t) old = some t

module _ {S : Type 0} (io : Tls S) where
  unfoldable pub write_block : (now : ℕ) (ctx : Option ℕ) → Bytes → Op (Conn S) (Unit {0})
  write_block now ctx payload c = elim (frame payload) [
    | err e ↦ (err e, c)
    | ok block ↦
        let deadline = or_keep (earliest_deadline c.io_timeout now ctx) c.write_deadline in
        let r = io.write deadline block c.tls in
        (r.0, record c { tls = r.1; write_deadline = none })
  ]

  unfoldable pub read_block : (now : ℕ) (ctx : Option ℕ) → Op (Conn S) Bytes
  read_block now ctx c =
      let deadline = or_keep (earliest_deadline c.io_timeout now ctx) c.read_deadline in
      let r = io.read_full deadline c.tls in
      (received r.0, record c { tls = r.1; read_deadline = none })

-- An x509.Certificate: its DER bytes and those of its SubjectPublicKeyInfo.
pub record Certificate : Type 0 where
  pub raw : Bytes
  pub raw_spki : Bytes

-- The VerifyConnection callback of DialTLS, over crypto/sha256.
module _ (sha256 : Bytes → Bytes) where
  unfoldable pub matches_pin : Bytes → Certificate → Bool
  matches_pin expected cert =
      bytes_eq (sha256 cert.raw) expected || bytes_eq (sha256 cert.raw_spki) expected

  unfoldable pub any_matches : Bytes → List Certificate → Bool
  any_matches expected [] = false
  any_matches expected (cert ∷ chain) =
      if matches_pin expected cert then true else any_matches expected chain

  unfoldable pub verify_connection : Bytes → List Certificate → Result (Unit {0})
  verify_connection expected chain =
      if length chain == 0
      then err (other "smp: server presented no certificates")
      else if ltb (length chain) 2 || ltb 4 (length chain)
      then err (other "smp: unexpected cert chain length")
      else if any_matches expected chain
      then ok tt
      else err (sentinel fingerprint_mismatch)
