-- ===== src/Wire/Exhausts.antt =====
-- Reads that end with a Tail: the result describes all that was left in the buffer.
use simplex_go.Base.{
  ◌≡◌, refl, sym, ap, subst, Bool, true, false, [], ◌++◌, append-nil, arith, if◌then◌else◌, length,
  All, Bytes, IsByte, All-append_right, Error, Result, Op, pure, fail, resume, ◌>>=◌, ok, err,
}
use simplex_go.Wire.Decoder
use simplex_go.Wire.Decoder.{Decoder, new_decoder, decode}
use simplex_go.Wire.Reads.{IsValid, unread, advance, Reads, advance-fits, unread-advance}
use simplex_go.Wire.Consumes.{Consumes, resume-eq-ok}

abbrev pub Exhausts {ℓ κ} : {A : Type ℓ} → Op Decoder A → (A → Bytes → Type κ) → Type (ℓ ⊔ κ)
Exhausts {A = A} m P =
    (d : Decoder) (a : A) (d' : Decoder)
    → IsValid d
    → All IsByte (unread d)
    → m d ≡ (ok a, d')
    → P a (unread d)

pub Exhausts->>= {ℓ κ μ} :
    {A : Type ℓ} {B : Type κ} (m : Op Decoder A) (f : A → Op Decoder B) (P : A → Bytes → Type μ)
    (Q : A → B → Bytes → Type μ) (R : B → Bytes → Type μ)
    → Consumes m P
    → ((a : A) → Exhausts (f a) (Q a))
    → ((a : A) (b : B) (bs cs : Bytes) → P a bs → Q a b cs → R b (bs ++ cs))
    → Exhausts (m >>= f) R
Exhausts->>= m f P Q R hm hf join d b d' v all e =
    let (a, d₁, e₁, e₂) = resume-eq-ok (m d) f e in
    let (bs, u₁, v₁, b₁, p) = hm d a d₁ v all e₁ in
    let all₁ : All IsByte (unread d₁) =
      All-append_right IsByte bs (unread d₁) (subst (All IsByte) u₁ all) in
    subst (R b) (sym u₁) (join a b bs (unread d₁) p (hf a d₁ b d' v₁ all₁ e₂))

pub Exhausts-if {ℓ κ} :
    {A : Type ℓ} (c : Bool) (m k : Op Decoder A) (P : A → Bytes → Type κ)
    → (c ≡ true → Exhausts m P)
    → (c ≡ false → Exhausts k P)
    → Exhausts (if c then m else k) P
Exhausts-if true m k P hm hk = hm refl
Exhausts-if false m k P hm hk = hk refl

pub Exhausts-fail {ℓ κ} : {A : Type ℓ} (x : Error) (P : A → Bytes → Type κ) → Exhausts (fail x) P
Exhausts-fail x P d b d' v all e = cc

pub Exhausts-tail {ℓ κ} :
    {A : Type ℓ} (g : Bytes → A) (P : A → Bytes → Type κ)
    → ((bs : Bytes) → P (g bs) bs)
    → Exhausts (Decoder.tail >>= (λ rest. pure (g rest))) P
unfolding Decoder.tail
Exhausts-tail g P h d a d' v all e =
    let same : g (unread d) ≡ a = cc in subst (λ x. P x (unread d)) same (h (unread d))

pub Exhausts-decode {ℓ κ} :
    {A : Type ℓ} (m : Op Decoder A) (P : A → Bytes → Type κ)
    → Exhausts m P
    → (bs : Bytes) {a : A} → All IsByte bs
    → decode m bs ≡ ok a
    → P a bs
Exhausts-decode m P h bs {a} all e =
    let d = new_decoder bs in h d a (m d).1 (omega arith) all (λ i. (e i, (m d).1))

pub Reads-decode {ℓ} :
    {A : Type ℓ} (m : Op Decoder A) (bs : Bytes) (a : A) → Reads m bs a → decode m bs ≡ ok a
Reads-decode m bs a h =
    ap (λ (r : Result _ × Decoder). r.0) (h (new_decoder bs) [] (omega arith) (sym (append-nil bs)))

pub Exhausts-map {ℓ κ μ} :
    {A : Type ℓ} {B : Type κ} (m : Op Decoder A) (g : A → B) (P : A → Bytes → Type μ)
    → Exhausts m P
    → Exhausts (m >>= (λ a. pure (g a))) (λ b bs. (a : A) × (b ≡ g a) × P a bs)
Exhausts-map m g P h d b d' v all e =
    let (a, d₁, e₁, e₂) = resume-eq-ok (m d) (λ a. pure (g a)) e in (a, cc e₂, h d a d₁ v all e₁)

-- Where exactly `bs` is left, `m` returns `a`.
abbrev pub Ends {ℓ} : {A : Type ℓ} → Op Decoder A → Bytes → A → Type ℓ
Ends m bs a = (d : Decoder) → IsValid d → unread d ≡ bs → (m d).0 ≡ ok a

pub Ends->>= {ℓ κ} :
    {A : Type ℓ} {B : Type κ} (m : Op Decoder A) (f : A → Op Decoder B) (bs cs : Bytes) (a : A)
    (b : B)
    → Reads m bs a
    → Ends (f a) cs b
    → Ends (m >>= f) (bs ++ cs) b
Ends->>= m f bs cs a b hm hf d v e =
    rw (hm d cs v e)
      (hf (advance (length bs) d) (advance-fits d bs cs v e) (unread-advance d bs cs e))

pub Ends-tail {ℓ} :
    {A : Type ℓ} (g : Bytes → A) (bs : Bytes)
    → Ends (Decoder.tail >>= (λ rest. pure (g rest))) bs (g bs)
unfolding Decoder.tail
Ends-tail g bs d v e = ap (λ (x : Bytes). ok (g x)) e

pub Ends-decode {ℓ} :
    {A : Type ℓ} (m : Op Decoder A) (bs : Bytes) (a : A) → Ends m bs a → decode m bs ≡ ok a
Ends-decode m bs a h = h (new_decoder bs) (omega arith) refl

-- Where exactly `bs` is left, `m` fails with `x`.
abbrev pub Fails {ℓ} : {A : Type ℓ} → Op Decoder A → Bytes → Error → Type ℓ
Fails m bs x = (d : Decoder) → IsValid d → unread d ≡ bs → (m d).0 ≡ err x

-- The failure comes after a successful read of `bs`.
pub Fails-later {ℓ κ} :
    {A : Type ℓ} {B : Type κ} (m : Op Decoder A) (f : A → Op Decoder B) (bs cs : Bytes) (a : A)
    (x : Error)
    → Reads m bs a
    → Fails (f a) cs x
    → Fails (m >>= f) (bs ++ cs) x
Fails-later m f bs cs a x hm hf d v e =
    rw (hm d cs v e)
      (hf (advance (length bs) d) (advance-fits d bs cs v e) (unread-advance d bs cs e))

resume-err {ℓ κ} :
    {A : Type ℓ} {B : Type κ} (r : Result A × Decoder) (f : A → Op Decoder B) (x : Error)
    → r.0 ≡ err x
    → (resume r.0 r.1 f).0 ≡ err x
resume-err (ok a, d) f x e = cc
resume-err (err y, d) f x e = cc

pub Fails-first {ℓ κ} :
    {A : Type ℓ} {B : Type κ} (m : Op Decoder A) (f : A → Op Decoder B) (bs : Bytes) (x : Error)
    → Fails m bs x
    → Fails (m >>= f) bs x
Fails-first m f bs x h d v e = resume-err (m d) f x (h d v e)
