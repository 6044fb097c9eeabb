-- ===== src/Auth/Deniable.antt =====
-- The deniable authenticator: what VerifyCbAuth accepts.
use simplex_go.Base.{
  ◌+◌, ◌≡◌, refl, ap, ◌∙◌, ◌≢◌, ◌↔◌, inl, inr, Bool, true, false, Option, none, some, ◌==◌, ==_iff,
  Bool-cases, length, Bytes, bytes_eq_iff, ok,
}
use simplex_go.Auth.{
  Crypto, cb_authenticator_size, copied, derive_shared, cb_authorize, same_digest, verify_cb_auth,
}

-- What the packages document: the size of a digest, and that secretbox adds 16 bytes, opens what it
-- has sealed, and opens nothing else.
pub record Laws (crypto : Crypto) : Type 0 where
  pub length-sum512 : (m : Bytes) → length (crypto.sum512 m) ≡ 64
  pub length-seal : (m n k : Bytes) → length (crypto.seal m n k) ≡ 16 + length m
  pub open_box-seal : (m n k : Bytes) → crypto.open_box (crypto.seal m n k) n k ≡ some m
  pub seal-open_box :
      (m n k box : Bytes) → crypto.open_box box n k ≡ some m → box ≡ crypto.seal m n k

-- The authenticator of the authorized bytes under a shared secret.
abbrev pub authenticator : Crypto → (shared nonce authorized : Bytes) → Bytes
authenticator crypto shared nonce authorized =
    crypto.seal (crypto.sum512 authorized) (copied 24 nonce) (copied 32 shared)

derive_shared-sizes :
    (crypto : Crypto) (priv peer_pub shared : Bytes)
    → derive_shared crypto priv peer_pub ≡ ok shared
    → ((length priv == 32) ≡ true) × ((length peer_pub == 32) ≡ true)
unfolding derive_shared
derive_shared-sizes crypto priv peer_pub shared e = elim (Bool-cases (length priv == 32)) [
  | inr short_priv ↦ cc (rw short_priv at e)
  | inl full ↦ elim (Bool-cases (length peer_pub == 32)) [
    | inr short_pub ↦ cc (rw (full, short_pub) at e)
    | inl also ↦ (full, also)
  ]
]

decided :
    (b : Bool) (P L : Type 0)
    → L
    → ((b ≡ true) ↔ P)
    → ((ok b ≡ ok true) ↔ P) × ((ok b ≡ ok false) ↔ (L × ¬ P))
decided true P L l h =
    ((λ e. h.0 refl, λ p. refl), (λ e. absurd (cc e), λ q. absurd (q.1 (h.0 refl))))
decided false P L l h =
    ((λ e. absurd (cc e), λ p. ap ok (h.1 p)), (λ e. (l, λ p. absurd (cc (h.1 p))), λ q. refl))

module _ (crypto : Crypto) (laws : Laws crypto) where
  length-authenticator :
      (shared nonce authorized : Bytes) → length (authenticator crypto shared nonce authorized) ≡ 80
  length-authenticator shared nonce authorized =
      laws.length-seal _ _ _ ∙ ap (◌+◌ 16) (laws.length-sum512 authorized)

  opens :
      (tag nonce authorized shared : Bytes) (o : Option Bytes)
      → crypto.open_box tag (copied 24 nonce) (copied 32 shared) ≡ o
      → (same_digest (crypto.sum512 authorized) o ≡ true)
        ↔ (tag ≡ authenticator crypto shared nonce authorized)
  unfolding same_digest
  opens tag nonce authorized shared none q = (
    λ h. absurd (cc h),
    λ p. absurd (
        cc (
          q,
          p,
          laws.open_box-seal (crypto.sum512 authorized) (copied 24 nonce) (copied 32 shared),
        )),
  )
  opens tag nonce authorized shared (some plain) q = (
    λ h.
        laws.seal-open_box plain _ _ tag q
        ∙ ap (λ (m : Bytes). crypto.seal m (copied 24 nonce) (copied 32 shared))
            ((bytes_eq_iff plain (crypto.sum512 authorized)).0 h),
    λ p. (bytes_eq_iff plain (crypto.sum512 authorized)).1 (
        cc (
          q,
          p,
          laws.open_box-seal (crypto.sum512 authorized) (copied 24 nonce) (copied 32 shared),
        )),
  )

  -- With a key pair from which a shared secret can be derived, VerifyCbAuth returns true exactly for
  -- the one tag that is the box of the digest of the authorized bytes under that secret and nonce,
  -- and for every other tag of 80 bytes it returns false without an error.
  pub verify_cb_auth-eq-ok_iff :
      (peer_pub own_priv nonce tag authorized shared : Bytes)
      → derive_shared crypto own_priv peer_pub ≡ ok shared
      → ((verify_cb_auth crypto peer_pub own_priv nonce tag authorized ≡ ok true)
          ↔ (tag ≡ authenticator crypto shared nonce authorized))
        × ((verify_cb_auth crypto peer_pub own_priv nonce tag authorized ≡ ok false)
            ↔ ((length tag ≡ 80) × (tag ≢ authenticator crypto shared nonce authorized)))
  unfolding verify_cb_auth
  verify_cb_auth-eq-ok_iff peer_pub own_priv nonce tag authorized shared e =
      elim (Bool-cases (length tag == 80)) [
        | inr wrong ↦
            let no : tag ≢ authenticator crypto shared nonce authorized = λ p. absurd (
              cc (
                wrong,
                (==_iff (length tag) 80).1
                    (ap length p ∙ length-authenticator shared nonce authorized),
              )) in
            rw wrong (
              (λ h. cc, λ p. absurd (no p)),
              (λ h. cc, λ h. absurd (cc (wrong, (==_iff (length tag) 80).1 h.0))),
            )
        | inl sized ↦
            rw (sized, e)
              (decided
                (same_digest (crypto.sum512 authorized)
                  (crypto.open_box tag (copied 24 nonce) (copied 32 shared)))
                (tag ≡ authenticator crypto shared nonce authorized) (length tag ≡ 80)
                ((==_iff (length tag) 80).0 sized)
                (opens tag nonce authorized shared
                  (crypto.open_box tag (copied 24 nonce) (copied 32 shared)) refl))
      ]

  -- Two sides that derive the same secret: the authenticator that one makes is 80 bytes, and the
  -- other verifies it, for the same nonce and authorized bytes.
  pub verify_cb_auth-cb_authorize :
      (priv peer_pub own_priv own_pub nonce authorized shared : Bytes)
      → derive_shared crypto priv peer_pub ≡ ok shared
      → derive_shared crypto own_priv own_pub ≡ ok shared
      → (tag : Bytes) × (cb_authorize crypto priv peer_pub authorized nonce ≡ ok tag)
        × (length tag ≡ cb_authenticator_size)
        × (verify_cb_auth crypto own_pub own_priv nonce tag authorized ≡ ok true)
  unfolding cb_authorize
  verify_cb_auth-cb_authorize priv peer_pub own_priv own_pub nonce authorized shared e e' =
      let (s, s') = derive_shared-sizes crypto priv peer_pub shared e in
      let n = length-authenticator shared nonce authorized in
      (
        authenticator crypto shared nonce authorized,
        rw (s, s', e, (==_iff _ 80).1 n),
        n,
        (verify_cb_auth-eq-ok_iff own_pub own_priv nonce _ authorized shared e').0.1 refl,
      )
