-- ===== src/Transport/Pinning.antt =====
-- The certificate chains that DialTLS accepts.
use simplex_go.Base.{
  ◌≤◌, ◌<◌, ◌≡◌, ◌≢◌, ◌↔◌, ◌⊎◌, true, List, [], ◌∷◌, arith, length, Bytes, bytes_eq_iff, Result,
  fingerprint_mismatch, sentinel, other, ok, err,
}
use simplex_go.Transport.{Certificate, matches_pin, any_matches, verify_connection}

-- The two errors on the number of certificates.
errors-differ :
    ◌≢◌ {A = Result (Unit {0})}
      (err (other "smp: server presented no certificates"))
      (err (other "smp: unexpected cert chain length"))
errors-differ h = cc h

module _ (sha256 : Bytes → Bytes) (expected : Bytes) where
  -- Some certificate of the chain has the expected fingerprint, of the whole or of its key.
  abbrev pub HasPin : List Certificate → Type 0
  HasPin [] = ⊥
  HasPin (cert ∷ chain) =
      ((sha256 cert.raw ≡ expected) ⊎ (sha256 cert.raw_spki ≡ expected)) ⊎ HasPin chain

  matches_pin_iff :
      (cert : Certificate)
      → (matches_pin sha256 expected cert ≡ true)
        ↔ ((sha256 cert.raw ≡ expected) ⊎ (sha256 cert.raw_spki ≡ expected))
  unfolding matches_pin
  matches_pin_iff cert =
      ground (
        arith,
        bytes_eq_iff (sha256 cert.raw) expected,
        bytes_eq_iff (sha256 cert.raw_spki) expected,
      )

  any_matches_iff :
      (chain : List Certificate) → (any_matches sha256 expected chain ≡ true) ↔ HasPin chain
  unfolding any_matches
  any_matches_iff [] = (λ h. cc, λ h. absurd h)
  any_matches_iff (cert ∷ chain) = ground (arith, matches_pin_iff cert, any_matches_iff chain)

  -- The handshake goes on exactly where the server presents 2 to 4 certificates and one of them has
  -- the expected fingerprint. Each other chain has an error of its own: ErrFingerprintMismatch where 2
  -- to 4 certificates have no such fingerprint, one that no certificate was presented, and one that
  -- the chain has another length.
  pub verify_connection-eq-ok_iff :
      (chain : List Certificate)
      → ((verify_connection sha256 expected chain ≡ ok tt)
          ↔ ((2 ≤ length chain) × (length chain ≤ 4) × HasPin chain))
        × ((verify_connection sha256 expected chain ≡ err (sentinel fingerprint_mismatch))
            ↔ ((2 ≤ length chain) × (length chain ≤ 4) × ¬ HasPin chain))
        × ((verify_connection sha256 expected chain
              ≡ err (other "smp: server presented no certificates"))
            ↔ (length chain ≡ 0))
        × ((verify_connection sha256 expected chain
              ≡ err (other "smp: unexpected cert chain length"))
            ↔ ((length chain ≡ 1) ⊎ (4 < length chain)))
  unfolding verify_connection
  verify_connection-eq-ok_iff chain = (
    ground (arith, any_matches_iff chain),
    ground (arith, any_matches_iff chain),
    ground (arith, errors-differ),
    ground (arith, errors-differ),
  )
