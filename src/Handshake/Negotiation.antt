-- ===== src/Handshake/Negotiation.antt =====
-- The version that is negotiated is the best one that both sides support.
use simplex_go.Base.{
  ℕ, ◌≤◌, ◌≡◌, ap, ◌∙◌, subst, ◌↔◌, ◌⊎◌, inl, inr, arith, ltb, if◌then◌else◌, Bool-cases,
  incompatible_version, sentinel, ok, err,
}
use native.Mathlib.Nat.{le_antisymm}
use simplex_go.Handshake.{min_client_version, max_client_version, VersionRange, negotiate_version}

-- Both the client and a server with this range speak `v`.
abbrev pub IsCommon : VersionRange → ℕ → Type 0
IsCommon server v =
    (min_client_version ≤ v) × (v ≤ max_client_version) × (server.min ≤ v) × (v ≤ server.max)

-- `v` is the greatest version that both speak.
abbrev pub IsBest : VersionRange → ℕ → Type 0
IsBest server v = IsCommon server v × ((w : ℕ) → IsCommon server w → w ≤ v)

outcome :
    (server : VersionRange)
    → ((v : ℕ) × IsCommon server v
        × ((w : ℕ) → IsCommon server w → w ≤ v)
        × (negotiate_version server ≡ ok v))
      ⊎ (((w : ℕ) → ¬ IsCommon server w)
          × (negotiate_version server ≡ err (sentinel incompatible_version)))
unfolding negotiate_version
outcome server =
    let lo : ℕ = if ltb min_client_version server.min then server.min else min_client_version in
    let hi : ℕ = if ltb server.max max_client_version then server.max else max_client_version in
    elim (Bool-cases (ltb hi lo)) [
      | inl none_left ↦ inr (λ w common. ground arith, rw none_left)
      | inr some_left ↦ inl (hi, ground arith, λ w common. ground arith, rw some_left)
    ]

-- The negotiated version is the greatest that the client and the server both support, and there is
-- an error, of incompatible versions, exactly where they have none in common.
pub negotiate_version-IsBest :
    (server : VersionRange)
    → ((v : ℕ) → (negotiate_version server ≡ ok v) ↔ IsBest server v)
      × ((negotiate_version server ≡ err (sentinel incompatible_version))
          ↔ ((w : ℕ) → ¬ IsCommon server w))
negotiate_version-IsBest server = elim (outcome server) [
  | inl (v, common, best, e) ↦ (
    λ w. (
      λ h. let same : v ≡ w = cc in subst (IsBest server) same (common, best),
      λ h. e ∙ ap ok (le_antisymm (h.1 v common) (best w h.0)),
    ),
    (λ h. cc, λ h. absurd (h v common)),
  )
  | inr (never, e) ↦ (λ w. (λ h. cc, λ h. absurd (never w h.0)), (λ h. never, λ h. e))
]
