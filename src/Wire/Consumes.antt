-- ===== src/Wire/Consumes.antt =====
-- What a successful read says of the bytes that it read, as a statement that composes along a `do`
-- block. It is the converse of `Reads`.
use simplex_go.Base.{
  ℕ, ◌+◌, ◌≤◌, String, ◌≡◌, refl, sym, ap, ap₂, ◌∙◌, subst, inl, inr, Bool, true, false, [], ◌++◌,
  append_assoc, arith, ltb, if◌then◌else◌, ltb→le, Bool-cases, length, take, drop, All, length-drop,
  length-take, take-append-drop, drop-drop, Bytes, IsByte, All-append_left, All-append_right, Error,
  Result, wrap_result, Op, pure, fail, wrap, resume, ◌>>=◌, ok, err,
}
use simplex_go.Wire.Decoder.{Decoder, need}
use simplex_go.Wire.Reads.{IsValid, unread, advance}

-- After a success with `a` the decoder has moved over bytes that `P a` describes.
abbrev pub Consumes {ℓ κ} : {A : Type ℓ} → Op Decoder A → (A → Bytes → Type κ) → Type (ℓ ⊔ κ)
Consumes {A = A} m P =
    (d : Decoder) (a : A) (d' : Decoder)
    → IsValid d
    → All IsByte (unread d)
    → m d ≡ (ok a, d')
    → (bs : Bytes) × (unread d ≡ bs ++ unread d') × IsValid d' × (d'.buf ≡ d.buf) × P a bs

pub resume-eq-ok {ℓ κ} :
    {A : Type ℓ} {B : Type κ} (r : Result A × Decoder) (f : A → Op Decoder B) {b : B} {d' : Decoder}
    → resume r.0 r.1 f ≡ (ok b, d')
    → (a : A) × (d₁ : Decoder) × (r ≡ (ok a, d₁)) × (f a d₁ ≡ (ok b, d'))
resume-eq-ok (ok a, d₁) f e = (a, d₁, refl, e)
resume-eq-ok (err x, d₁) f e = cc

pub Consumes->>= {ℓ κ μ} :
    {A : Type ℓ} {B : Type κ} (m : Op Decoder A) (f : A → Op Decoder B) (P : A → Bytes → Type μ)
    (Q : A → B → Bytes → Type μ) (R : B → Bytes → Type μ)
    → Consumes m P
    → ((a : A) → Consumes (f a) (Q a))
    → ((a : A) (b : B) (bs cs : Bytes) → P a bs → Q a b cs → R b (bs ++ cs))
    → Consumes (m >>= f) R
Consumes->>= m f P Q R hm hf join d b d' v all e =
    let (a, d₁, e₁, e₂) = resume-eq-ok (m d) f e in
    let (bs, u₁, v₁, b₁, p) = hm d a d₁ v all e₁ in
    let all₁ : All IsByte (unread d₁) =
      All-append_right IsByte bs (unread d₁) (subst (All IsByte) u₁ all) in
    let (cs, u₂, v₂, b₂, q) = hf a d₁ b d' v₁ all₁ e₂ in
    (
      bs ++ cs,
      u₁ ∙ ap (◌++◌ bs) u₂ ∙ sym (append_assoc bs cs (unread d')),
      v₂,
      b₂ ∙ b₁,
      join a b bs cs p q,
    )

pub Consumes-pure {ℓ κ} :
    {A : Type ℓ} (a : A) (P : A → Bytes → Type κ) → P a [] → Consumes (pure a) P
Consumes-pure a P p d b d' v all e =
    let same : d ≡ d' = cc in
    let value : a ≡ b = cc in
    (
      [],
      ap unread same,
      subst IsValid same v,
      ap (λ (x : Decoder). x.buf) (sym same),
      subst (λ x. P x []) value p,
    )

pub Consumes-fail {ℓ κ} : {A : Type ℓ} (x : Error) (P : A → Bytes → Type κ) → Consumes (fail x) P
Consumes-fail x P d b d' v all e = cc

pub Consumes-if {ℓ κ} :
    {A : Type ℓ} (c : Bool) (m k : Op Decoder A) (P : A → Bytes → Type κ)
    → (c ≡ true → Consumes m P)
    → (c ≡ false → Consumes k P)
    → Consumes (if c then m else k) P
Consumes-if true m k P hm hk = hm refl
Consumes-if false m k P hm hk = hk refl

wrap-eq-ok {ℓ} :
    {A : Type ℓ} (c : String) (r : Result A × Decoder) {a : A} {d' : Decoder}
    → ◌≡◌ {A = Result A × Decoder} (wrap_result c r.0, r.1) (ok a, d')
    → r ≡ (ok a, d')
wrap-eq-ok c (ok a, d₁) e = e
wrap-eq-ok c (err x, d₁) e = cc

pub Consumes-wrap {ℓ κ} :
    {A : Type ℓ} (c : String) (m : Op Decoder A) (P : A → Bytes → Type κ)
    → Consumes m P
    → Consumes (wrap c m) P
Consumes-wrap c m P h d a d' v all e = h d a d' v all (wrap-eq-ok c (m d) e)

need-eq-ok :
    (n : ℕ) (d : Decoder) (a : Bytes) (d' : Decoder)
    → need n d ≡ (ok a, d')
    → (d.pos + n ≤ length d.buf) × (take n (unread d) ≡ a) × (advance n d ≡ d')
unfolding need
need-eq-ok n d a d' e = elim (Bool-cases (ltb (length d.buf) (d.pos + n))) [
  | inl short ↦ cc (rw short at e)
  | inr fits ↦ let e' = rw fits at e in (ltb→le _ _ fits, cc e', cc e')
]

pub Consumes-need : (n : ℕ) → Consumes (need n) (λ a bs. (a ≡ bs) × (length a ≡ n) × All IsByte a)
Consumes-need n d a d' v all e =
    let (fits, taken, moved) = need-eq-ok n d a d' e in
    let split : unread d ≡ take n (unread d) ++ drop n (unread d) =
      sym (take-append-drop n (unread d)) in
    let here : take n (unread d) ++ drop n (unread d) ≡ a ++ unread d' =
      ap₂ ◌++◌ taken (drop-drop d.pos n d.buf ∙ ap unread moved) in
    let bytes : All IsByte a =
      All-append_left IsByte a (unread d') (subst (All IsByte) (split ∙ here) all) in
    let len : length a ≡ n =
      ap length (sym taken) ∙ length-take n (unread d) (omega (arith, length-drop d.pos d.buf)) in
    (
      a,
      split ∙ here,
      subst IsValid moved fits,
      ap (λ (x : Decoder). x.buf) (sym moved),
      (refl, len, bytes),
    )
