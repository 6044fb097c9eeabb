-- ===== src/Tests/Keys.antt =====
-- The deniable authenticator over primitives that only have the laws of the real ones.
use simplex_go.Base.{
  ℕ, ◌≡◌, refl, ap, ◌∙◌, ◌≢◌, ◌↔◌, inl, inr, true, false, Option, none, some, [], ◌∷◌, ◌++◌,
  if◌then◌else◌, Bool-cases, length, drop, replicate, length-append, Bytes, has_prefix,
  has_prefix-split, ok,
}
use simplex_go.Auth.{Crypto, derive_shared, cb_authorize, verify_cb_auth}
use simplex_go.Auth.Deniable.{
  Laws, authenticator, verify_cb_auth-eq-ok_iff, verify_cb_auth-cb_authorize,
}

abbrev zeros : Bytes
zeros = replicate 16 0

-- A box is the message behind 16 zeros, a digest is 64 zeros, and every secret is 32 zeros.
abbrev open_zeros : Bytes → Option Bytes
open_zeros box = if has_prefix box zeros then some (drop 16 box) else none

abbrev transparent : Crypto
transparent = record {
  new_private_key = λ k. ok k;
  new_public_key = λ k. ok k;
  ecdh = λ a b. ok (replicate 32 0);
  sum512 = λ m. replicate 64 0;
  seal = λ m n k. zeros ++ m;
  open_box = λ box n k. open_zeros box;
  sign = λ k m. m;
}

open_zeros-seal : (m : Bytes) → open_zeros (zeros ++ m) ≡ some m
unfolding has_prefix
open_zeros-seal m = refl

seal-open_zeros : (m box : Bytes) → open_zeros box ≡ some m → box ≡ zeros ++ m
seal-open_zeros m box h = elim (Bool-cases (has_prefix box zeros)) [
  | inl sealed ↦
      let rest : some (drop 16 box) ≡ some m = rw sealed at h in
      let same : drop 16 box ≡ m = cc rest in
      has_prefix-split box zeros sealed ∙ ap (◌++◌ zeros) same
  | inr plain ↦ cc (rw plain at h)
]

transparent-Laws : Laws transparent
transparent-Laws = record {
  length-sum512 = λ m. refl;
  length-seal = λ m n k. length-append zeros m;
  open_box-seal = λ m n k. open_zeros-seal m;
  seal-open_box = λ m n k box h. seal-open_zeros m box h;
}

abbrev key : ℕ → Bytes
key n = replicate 32 n

derive_keys :
    (derive_shared transparent (key 1) (key 2) ≡ ok (key 0))
    × (derive_shared transparent (key 3) (key 4) ≡ ok (key 0))
unfolding derive_shared
derive_keys = (refl, refl)

verify_cb_auth-eq-ok_iff_example :
    ((verify_cb_auth transparent (key 2) (key 1) [] (7 ∷ []) (5 ∷ []) ≡ ok true)
      ↔ (7 ∷ [] ≡ authenticator transparent (key 0) [] (5 ∷ [])))
    × ((verify_cb_auth transparent (key 2) (key 1) [] (7 ∷ []) (5 ∷ []) ≡ ok false) ↔ (
        (length {A = ℕ} (7 ∷ []) ≡ 80) × (7 ∷ [] ≢ authenticator transparent (key 0) [] (5 ∷ []))))
verify_cb_auth-eq-ok_iff_example =
    verify_cb_auth-eq-ok_iff transparent transparent-Laws (key 2) (key 1) [] (7 ∷ []) (5 ∷ [])
      (key 0) derive_keys.0

verify_cb_auth-cb_authorize_example :
    (tag : Bytes) × (cb_authorize transparent (key 1) (key 2) (5 ∷ []) (9 ∷ []) ≡ ok tag)
    × (length tag ≡ 80)
    × (verify_cb_auth transparent (key 4) (key 3) (9 ∷ []) tag (5 ∷ []) ≡ ok true)
verify_cb_auth-cb_authorize_example =
    verify_cb_auth-cb_authorize transparent transparent-Laws (key 1) (key 2) (key 3) (key 4)
      (9 ∷ []) (5 ∷ []) (key 0) derive_keys.0 derive_keys.1
