-- ===== src/Base/Outcome.antt =====
-- Go's (value, error) results, and operations on an object that may fail.
use Prim.Native.String.{String}
use mathlib.Core.Path.{◌≡◌, refl}
use mathlib.Core.Logic.{◌⊎◌, inl, inr}
use simplex_go.Base.Lists.{Bytes}

-- The package's error variables.
pub data Sentinel : Type 0 where
  short_string_too_long large_string_too_long truncated bad_encoding : Sentinel
  bad_block bad_session incompatible_version : Sentinel
  large_block short_block client_closed bad_queue_uri fingerprint_mismatch : Sentinel

-- `sentinel` is an error variable, also behind `%w: …` with more text, which is left out.
-- `other` is an error with no variable; `within` is `fmt.Errorf("context: %w", err)`.
-- `broker` is an ErrMsg returned as an error: its type and detail.
pub data Error : Type 0 where
  sentinel : Sentinel → Error
  other : String → Error
  within : String → Error → Error
  broker : Bytes → Bytes → Error

pub data Result {ℓ} (A : Type ℓ) : Type ℓ where
  ok : A → Result A
  err : Error → Result A

abbrev pub wrap_result {ℓ} : {A : Type ℓ} → String → Result A → Result A
wrap_result c (ok a) = ok a
wrap_result c (err e) = err (within c e)

-- An operation on an object of type S: its result, and the object afterwards, also on an error.
abbrev pub Op {ℓ κ} : Type ℓ → Type κ → Type (ℓ ⊔ κ)
Op S A = S → Result A × S

module _ {ℓ κ} {S : Type ℓ} {A : Type κ} where
  abbrev pub pure : A → Op S A
  pure a s = (ok a, s)

  abbrev pub fail : Error → Op S A
  fail e s = (err e, s)

  -- if err != nil { return fmt.Errorf("c: %w", err) }
  abbrev pub wrap : String → Op S A → Op S A
  wrap c m s = let r = m s in (wrap_result c r.0, r.1)

abbrev pub resume {ℓ κ μ} :
    {S : Type ℓ} {A : Type κ} {B : Type μ} → Result A → S → (A → Op S B) → Result B × S
resume (ok a) s f = f a s
resume (err e) s f = (err e, s)

infixl 5 ◌>>=◌ ◌>>◌
abbrev pub ◌>>=◌ {ℓ κ μ} : {S : Type ℓ} {A : Type κ} {B : Type μ} → Op S A → (A → Op S B) → Op S B
◌>>=◌ m f s = let r = m s in resume r.0 r.1 f

abbrev pub ◌>>◌ {ℓ κ} : {S : Type ℓ} {B : Type κ} → Op S (Unit {0}) → Op S B → Op S B
m >> k = m >>= λ _. k

abbrev pub bind_result {ℓ κ} : {A : Type ℓ} {B : Type κ} → Result A → (A → Result B) → Result B
bind_result (ok a) f = f a
bind_result (err e) f = err e

pub Result-cases {ℓ} :
    {A : Type ℓ} (r : Result A) → ((a : A) × (r ≡ ok a)) ⊎ ((e : Error) × (r ≡ err e))
Result-cases (ok a) = inl (a, refl)
Result-cases (err e) = inr (e, refl)

module _ {ℓ κ μ} {S : Type ℓ} {A : Type κ} {B : Type μ} where
  resume-eq-ok :
      (r : Result A × S) (f : A → Op S B) {b : B} {s' : S}
      → resume r.0 r.1 f ≡ (ok b, s')
      → (a : A) × (s₁ : S) × (r ≡ (ok a, s₁)) × (f a s₁ ≡ (ok b, s'))
  resume-eq-ok (ok a, s₁) f e = (a, s₁, refl, e)
  resume-eq-ok (err x, s₁) f e = cc

  -- What a success of a block says of its first operation and of the rest.
  pub >>=-eq-ok :
      (m : Op S A) (f : A → Op S B) (s : S) {b : B} {s' : S}
      → (m >>= f) s ≡ (ok b, s')
      → (a : A) × (s₁ : S) × (m s ≡ (ok a, s₁)) × (f a s₁ ≡ (ok b, s'))
  >>=-eq-ok m f s e = resume-eq-ok (m s) f e

module _ {ℓ κ} {S : Type ℓ} {A : Type κ} where
  unwrap_result :
      (c : String) (r : Result A × S) {a : A} {s' : S}
      → ◌≡◌ {A = Result A × S} (wrap_result c r.0, r.1) (ok a, s')
      → r ≡ (ok a, s')
  unwrap_result c (ok a, s₁) e = e
  unwrap_result c (err x, s₁) e = cc

  pub wrap-eq-ok :
      (c : String) (m : Op S A) (s : S) {a : A} {s' : S}
      → wrap c m s ≡ (ok a, s')
      → m s ≡ (ok a, s')
  wrap-eq-ok c m s e = unwrap_result c (m s) e

pub bind_result-eq-ok {ℓ κ} :
    {A : Type ℓ} {B : Type κ} (r : Result A) (f : A → Result B) {b : B}
    → bind_result r f ≡ ok b
    → (a : A) × (r ≡ ok a) × (f a ≡ ok b)
bind_result-eq-ok (ok a) f e = (a, refl, e)
bind_result-eq-ok (err x) f e = cc

pub wrap_result-eq-ok {ℓ} :
    {A : Type ℓ} (c : String) (r : Result A) {a : A} → wrap_result c r ≡ ok a → r ≡ ok a
wrap_result-eq-ok c (ok a) e = e
wrap_result-eq-ok c (err x) e = cc
