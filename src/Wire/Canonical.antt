-- ===== src/Wire/Canonical.antt =====
-- Each method of the Decoder that succeeds has read exactly what the Encoder writes for its result.
use simplex_go.Base.{
  ℕ, ◌+◌, ◌*◌, ◌/◌, ◌%◌, ◌^◌, ◌≤◌, ◌<◌, ◌≡◌, refl, sym, ap, ap₂, ◌∙◌, subst, subst₂, true, false,
  none, some, [], ◌∷◌, ◌++◌, append-nil, arith, be16, be32, uint16_of, uint32_of, ==_iff, length,
  All, Bytes, IsByte, pure, ◌>>=◌,
}
use simplex_go.Base.Int.{IsInt64, int64_of, uint64_of-int64_of}
use simplex_go.Wire.Decoder
use simplex_go.Wire.Decoder.{first, need}
use simplex_go.Wire.Decoder.{Decoder}
use simplex_go.Wire.Consumes.{
  Consumes, Consumes->>=, Consumes-pure, Consumes-fail, Consumes-if, Consumes-need,
}
use simplex_go.Wire.Primitives.{
  short_bytes, large_bytes, bool_bytes, maybe_bytes, FitsMaybe, int64_bytes,
}

-- `m` reads `n` bytes and computes `g` of them.
module _ {A : Type 0} (n : ℕ) (g : Bytes → A) (P : A → Bytes → Type 0) where
  Consumes-need_pure :
      ((bs : Bytes) → length bs ≡ n → All IsByte bs → P (g bs) bs)
      → Consumes (need n >>= (λ b. pure (g b))) P
  Consumes-need_pure h =
      Consumes->>= (need n) _ (λ a bs. (a ≡ bs) × (length a ≡ n) × All IsByte a)
        (λ b r ds. (r ≡ g b) × (ds ≡ [])) P (Consumes-need n)
        (λ b. Consumes-pure (g b) (λ r ds. (r ≡ g b) × (ds ≡ [])) (refl, refl))
        (λ a r bs ds p q.
          subst₂ P (sym q.0) (p.0 ∙ sym (append-nil bs) ∙ ap (◌++◌ bs) (sym q.1)) (h a p.1 p.2))

uint16_of-bytes :
    (bs : Bytes)
    → length bs ≡ 2
    → All IsByte bs
    → (bs ≡ be16 (uint16_of bs)) × (uint16_of bs < 2 ^ 16)
uint16_of-bytes (a ∷ b ∷ []) h all = ground arith
uint16_of-bytes [] h all = absurd (omega arith)
uint16_of-bytes (a ∷ []) h all = absurd (omega arith)
uint16_of-bytes (a ∷ b ∷ c ∷ r) h all = absurd (omega arith)

uint32_of-bytes :
    (bs : Bytes)
    → length bs ≡ 4
    → All IsByte bs
    → (bs ≡ be32 (uint32_of bs)) × (uint32_of bs < 2 ^ 32)
uint32_of-bytes (a ∷ b ∷ c ∷ d ∷ []) h all = ground arith
uint32_of-bytes [] h all = absurd (omega arith)
uint32_of-bytes (a ∷ []) h all = absurd (omega arith)
uint32_of-bytes (a ∷ b ∷ []) h all = absurd (omega arith)
uint32_of-bytes (a ∷ b ∷ c ∷ []) h all = absurd (omega arith)
uint32_of-bytes (a ∷ b ∷ c ∷ d ∷ e ∷ r) h all = absurd (omega arith)

one_byte : (bs : Bytes) → length bs ≡ 1 → All IsByte bs → (bs ≡ first bs ∷ []) × (first bs < 256)
one_byte (a ∷ []) h all = (refl, all.0)
one_byte [] h all = absurd (omega arith)
one_byte (a ∷ b ∷ r) h all = absurd (omega arith)

pub Consumes-word16 : Consumes Decoder.word16 (λ v bs. (bs ≡ be16 v) × (v < 2 ^ 16))
unfolding Decoder.word16
Consumes-word16 = Consumes-need_pure 2 uint16_of _ uint16_of-bytes

pub Consumes-word32 : Consumes Decoder.word32 (λ v bs. (bs ≡ be32 v) × (v < 2 ^ 32))
unfolding Decoder.word32
Consumes-word32 = Consumes-need_pure 4 uint32_of _ uint32_of-bytes

pub Consumes-char : Consumes Decoder.char (λ c bs. (bs ≡ c ∷ []) × (c < 256))
unfolding Decoder.char
Consumes-char = Consumes-need_pure 1 first _ one_byte

pub Consumes-short_string :
    Consumes Decoder.short_string (λ v bs. (bs ≡ short_bytes v) × (length v ≤ 255))
unfolding Decoder.short_string
Consumes-short_string =
    Consumes->>= (need 1) _ (λ a bs. (a ≡ bs) × (length a ≡ 1) × All IsByte a)
      (λ a v cs. (v ≡ cs) × (length v ≡ first a) × All IsByte v) _ (Consumes-need 1)
      (λ a. Consumes-need (first a))
      (λ a v bs cs p q.
        let (e, lt) = one_byte a p.1 p.2 in
        (ap₂ ◌++◌ (sym p.0 ∙ e ∙ ap (λ (x : ℕ). x ∷ []) (sym q.1)) (sym q.0), omega (arith, q.1)))

pub Consumes-large : Consumes Decoder.large (λ v bs. (bs ≡ large_bytes v) × (length v ≤ 65535))
unfolding Decoder.large
Consumes-large =
    Consumes->>= Decoder.word16 _ (λ n bs. (bs ≡ be16 n) × (n < 2 ^ 16))
      (λ n v cs. (v ≡ cs) × (length v ≡ n) × All IsByte v) _ Consumes-word16 Consumes-need
      (λ n v bs cs p q. (ap₂ ◌++◌ (p.0 ∙ ap be16 (sym q.1)) (sym q.0), omega (arith, p.1, q.1)))

pub Consumes-bool : Consumes Decoder.bool (λ b bs. bs ≡ bool_bytes b)
unfolding Decoder.bool
Consumes-bool =
    Consumes->>= (need 1) _ (λ a bs. (a ≡ bs) × (length a ≡ 1) × All IsByte a)
      (λ a b cs. (a ≡ first a ∷ [] → a ≡ bool_bytes b) × (cs ≡ [])) _ (Consumes-need 1)
      (λ a.
        Consumes-if _ _ _ _
          (λ t. Consumes-pure true _ (λ e. e ∙ ap (λ (x : ℕ). x ∷ []) ((==_iff _ _).0 t), refl))
          (λ _.
            Consumes-if _ _ _ _
              (λ t.
                Consumes-pure false _ (λ e. e ∙ ap (λ (x : ℕ). x ∷ []) ((==_iff _ _).0 t), refl))
              (λ _. Consumes-fail _ _)))
      (λ a b bs cs p q. ap (◌++◌ bs) q.1 ∙ append-nil bs ∙ sym p.0 ∙ q.0 (one_byte a p.1 p.2).0)

pub Consumes-int64 : Consumes Decoder.int64 (λ z bs. (bs ≡ int64_bytes z) × IsInt64 z)
unfolding Decoder.int64
Consumes-int64 =
    Consumes->>= Decoder.word32 _ (λ hi bs. (bs ≡ be32 hi) × (hi < 2 ^ 32))
      (λ hi z cs. (lo : ℕ) × (lo < 2 ^ 32) × (cs ≡ be32 lo) × (z ≡ int64_of (hi * 2 ^ 32 + lo))) _
      Consumes-word32
      (λ hi.
        Consumes->>= Decoder.word32 _ (λ lo bs. (bs ≡ be32 lo) × (lo < 2 ^ 32))
          (λ lo z cs. (z ≡ int64_of (hi * 2 ^ 32 + lo)) × (cs ≡ [])) _ Consumes-word32
          (λ lo.
            Consumes-pure _ (λ z cs. (z ≡ int64_of (hi * 2 ^ 32 + lo)) × (cs ≡ [])) (refl, refl))
          (λ lo z bs cs p q. (lo, p.1, ap (◌++◌ bs) q.1 ∙ append-nil bs ∙ p.0, q.0)))
      (λ hi z bs cs p q.
        let (lo, lt, cs_eq, z_eq) = q in
        let (back, fits) = uint64_of-int64_of (hi * 2 ^ 32 + lo) (omega (arith, p.1, lt)) in
        let hi_eq : (hi * 2 ^ 32 + lo) / 2 ^ 32 ≡ hi = omega (arith, lt) in
        let lo_eq : (hi * 2 ^ 32 + lo) % 2 ^ 32 ≡ lo = omega (arith, lt) in
        (
          ap₂ ◌++◌ (p.0 ∙ ap be32 (sym hi_eq)) (cs_eq ∙ ap be32 (sym lo_eq))
              ∙ ap (λ (w : ℕ). be32 (w / 2 ^ 32) ++ be32 (w % 2 ^ 32)) (sym back)
              ∙ ap int64_bytes (sym z_eq),
          subst IsInt64 (sym z_eq) fits,
        ))

-- The rest of a MaybeShortString, after its tag.
pub Consumes-maybe :
    Consumes Decoder.maybe_short_string (λ o bs. (bs ≡ maybe_bytes o) × FitsMaybe o)
unfolding Decoder.maybe_short_string
Consumes-maybe =
    Consumes->>= Decoder.char _ (λ c bs. (bs ≡ c ∷ []) × (c < 256))
      (λ c o cs. (c ∷ cs ≡ maybe_bytes o) × FitsMaybe o) _ Consumes-char
      (λ c.
        Consumes-if _ _ _ _
          (λ t. Consumes-pure none _ (ap (λ (x : ℕ). x ∷ []) ((==_iff _ _).0 t), tt))
          (λ _.
            Consumes-if _ _ _ _
              (λ t.
                Consumes->>= Decoder.short_string _
                  (λ v bs. (bs ≡ short_bytes v) × (length v ≤ 255))
                  (λ v o cs. (o ≡ some v) × (cs ≡ [])) _ Consumes-short_string
                  (λ v. Consumes-pure (some v) (λ o cs. (o ≡ some v) × (cs ≡ [])) (refl, refl))
                  (λ v o bs cs p q. (
                    ap₂ ◌∷◌ ((==_iff _ _).0 t) (ap (◌++◌ bs) q.1 ∙ append-nil bs ∙ p.0)
                        ∙ ap maybe_bytes (sym q.0),
                    subst FitsMaybe (sym q.0) p.1,
                  )))
              (λ _. Consumes-fail _ _)))
      (λ c o bs cs p q. (ap (λ (x : Bytes). x ++ cs) p.0 ∙ q.0, q.1))
