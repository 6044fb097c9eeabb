-- ===== src/Kozi/Secrets.antt =====
-- The secret that pair derives from an address.
use simplex_go.Base.{
  ◌≡◌, refl, sym, ap, ap₂, ◌∙◌, ◌≢◌, ◌⊎◌, inl, inr, List, [], ◌∷◌, ◌++◌, arith, Bool-cases, length,
  drop, All, length-append, Bytes, IsByte, codes, bytes_eq, bytes_eq_iff, ok,
}
use simplex_go.Text.Hex
use simplex_go.Address.{SmpQueueUri, parse_smp_queue_uri}
use simplex_go.Address.Printed.{IsAddress}
use simplex_go.Address.Accepted.{parse_smp_queue_uri-IsAddress}
use simplex_go.Kozi.{Os, secret_input, derive_proximity_secret}

-- Two texts end in parts of the same length where they are the same.
append-same {ℓ} :
    {A : Type ℓ} (xs ys zs ws : List A)
    → length ys ≡ length ws
    → xs ++ ys ≡ zs ++ ws
    → (xs ≡ zs) × (ys ≡ ws)
append-same [] ys [] ws n e = (refl, e)
append-same [] ys (z ∷ zs) ws n e = absurd (omega (arith, n, ap length e, length-append zs ws))
append-same (x ∷ xs) ys [] ws n e = absurd (omega (arith, n, ap length e, length-append xs ys))
append-same (x ∷ xs) ys (z ∷ zs) ws n e =
    let (front, back) = append-same xs ys zs ws n (cc e) in (ap₂ (λ a b. a ∷ b) (cc e) front, back)

-- The input of the hash determines the queue, since only the sender id varies in length.
secret_input-injective :
    (u w : SmpQueueUri)
    → IsAddress u
    → IsAddress w
    → secret_input u ≡ secret_input w
    → (u.sender_id ≡ w.sender_id)
      × (u.dh_pub_key ≡ w.dh_pub_key)
      × (u.server_fingerprint ≡ w.server_fingerprint)
secret_input-injective u w hu hw e =
    let tag = codes "kozi-proximity-v1" ++ (0 ∷ []) in
    let tail_u = u.dh_pub_key ++ u.server_fingerprint in
    let tail_w = w.dh_pub_key ++ w.server_fingerprint in
    let rest : u.sender_id ++ tail_u ≡ w.sender_id ++ tail_w = ap (λ (x : Bytes). drop 18 x) e in
    let sizes : length tail_u ≡ length tail_w = omega (
      arith,
      length-append u.dh_pub_key u.server_fingerprint,
      length-append w.dh_pub_key w.server_fingerprint,
      hu.dh_size,
      hw.dh_size,
      hu.fingerprint_size,
      hw.fingerprint_size,
    ) in
    let (sender, tails) = append-same u.sender_id tail_u w.sender_id tail_w sizes rest in
    let fps : length u.server_fingerprint ≡ length w.server_fingerprint =
      hu.fingerprint_size ∙ sym hw.fingerprint_size in
    let (key, server) =
      append-same u.dh_pub_key u.server_fingerprint w.dh_pub_key w.server_fingerprint fps tails in
    (sender, key, server)

-- When pair stores the same secret for two addresses, and SHA-256 gives bytes, then either both are
-- addresses of one queue, with its sender id, public key and server, or the derivation has met two
-- different inputs with the same SHA-256 digest.
pub derive_proximity_secret-same_queue :
    {S : Type 0} (os : Os S) (s t : Bytes) (u w : SmpQueueUri)
    → ((x : Bytes) → All IsByte (os.sha256 x))
    → parse_smp_queue_uri s ≡ ok u
    → parse_smp_queue_uri t ≡ ok w
    → Hex.encode (derive_proximity_secret os u) ≡ Hex.encode (derive_proximity_secret os w)
    → ((u.sender_id ≡ w.sender_id)
        × (u.dh_pub_key ≡ w.dh_pub_key)
        × (u.server_fingerprint ≡ w.server_fingerprint))
      ⊎ ((secret_input u ≢ secret_input w)
          × (os.sha256 (secret_input u) ≡ os.sha256 (secret_input w)))
unfolding derive_proximity_secret
derive_proximity_secret-same_queue os s t u w digests read_u read_w e =
    let same_digest =
      Hex.encode-injective (os.sha256 (secret_input u)) (os.sha256 (secret_input w))
        (digests (secret_input u)) (digests (secret_input w)) e in
    elim (Bool-cases (bytes_eq (secret_input u) (secret_input w))) [
      | inl same ↦ inl (
          secret_input-injective u w (parse_smp_queue_uri-IsAddress s u read_u)
            (parse_smp_queue_uri-IsAddress t w read_w) ((bytes_eq_iff _ _).0 same))
      | inr differs ↦ inr (λ h. cc (differs, (bytes_eq_iff _ _).1 h), same_digest)
    ]
