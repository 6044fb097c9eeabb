-- ===== src/Text/Base64.antt =====
-- base64.RawURLEncoding: EncodeToString and DecodeString. The decoder passes over line breaks, and
-- does not look at the bits of the last character that are left over.
use simplex_go.Base.{
  ℕ, zero, suc, ◌+◌, ◌-◌, ◌*◌, ◌/◌, ◌%◌, ◌<◌, ◌≡◌, refl, ap, ap₂, ◌∙◌, subst, inl, inr, Bool, true,
  false, ◌&&◌, ◌||◌, Option, none, some, List, [], ◌∷◌, ◌++◌, map, arith, ltb, leb, ◌==◌,
  if◌then◌else◌, ==_iff, Bool-cases, Option-cases, All, Bytes, IsByte,
}
use simplex_go.Text.Plain.{is_unreserved, IsPlain}
use simplex_go.Text.Strings.{◌>>?◌, >>?-eq-some, some-injective}

-- The alphabet, and the value of a character of it.
unfoldable pub sextet_char : ℕ → ℕ
sextet_char v =
    if ltb v 26
    then b'A' + v
    else if ltb v 52
    then b'a' + (v - 26)
    else if ltb v 62
    then b'0' + (v - 52)
    else if v == 62
    then b'-'
    else b'_'

unfoldable pub sextet : ℕ → Option ℕ
sextet c =
    if leb b'A' c && leb c b'Z'
    then some (c - b'A')
    else if leb b'a' c && leb c b'z'
    then some (c - b'a' + 26)
    else if leb b'0' c && leb c b'9'
    then some (c - b'0' + 52)
    else if c == b'-'
    then some 62
    else if c == b'_'
    then some 63
    else none

unfoldable pub encode : Bytes → Bytes
encode [] = []
encode (a ∷ []) = sextet_char (a / 4) ∷ sextet_char (a % 4 * 16) ∷ []
encode (a ∷ b ∷ []) =
    sextet_char (a / 4) ∷ sextet_char (a % 4 * 16 + b / 16) ∷ sextet_char (b % 16 * 4) ∷ []
encode (a ∷ b ∷ c ∷ bs) =
    sextet_char (a / 4)
    ∷ sextet_char (a % 4 * 16 + b / 16)
    ∷ sextet_char (b % 16 * 4 + c / 64)
    ∷ sextet_char (c % 64)
    ∷ encode bs

-- The values of the characters that are no line breaks.
unfoldable pub sextets : Bytes → Option (List ℕ)
sextets [] = some []
sextets (c ∷ cs) =
    let rest = sextets cs in
    if c == 10 || c == 13 then rest else sextet c >>? λ v. rest >>? λ vs. some (v ∷ vs)

-- Four characters are three bytes; one character alone at the end is an error.
unfoldable pub unpack : List ℕ → Option Bytes
unpack [] = some []
unpack (p ∷ []) = none
unpack (p ∷ q ∷ []) = some ((p * 4 + q / 16) ∷ [])
unpack (p ∷ q ∷ r ∷ []) = some ((p * 4 + q / 16) ∷ (q % 16 * 16 + r / 4) ∷ [])
unpack (p ∷ q ∷ r ∷ s ∷ vs) =
    unpack vs >>? λ bs. some ((p * 4 + q / 16) ∷ (q % 16 * 16 + r / 4) ∷ (r % 4 * 64 + s) ∷ bs)

unfoldable pub decode : Bytes → Option Bytes
decode s = sextets s >>? unpack

-- Whether a test holds of the first numbers, as many as are asked for.
passes : (ℕ → Bool) → ℕ → Bool
passes test zero = true
passes test (suc count) = passes test count && test count

passes-each : (test : ℕ → Bool) (count v : ℕ) → v < count → passes test count ≡ true → test v ≡ true
unfolding passes
passes-each test zero v below checked = absurd (omega arith)
passes-each test (suc count) v below checked = ground (arith, passes-each test count v)

-- What holds of a character of the alphabet, checked for each.
is_char_of : ℕ → Bool
is_char_of v =
    is_unreserved (sextet_char v)
    && (elim (sextet (sextet_char v)) [ none ↦ false | some w ↦ w == v ])

alphabet : passes is_char_of 64 ≡ true
unfolding passes is_char_of sextet_char sextet
alphabet = refl

char_of :
    (v : ℕ) → v < 64 → (is_unreserved (sextet_char v) ≡ true) × (sextet (sextet_char v) ≡ some v)
unfolding is_char_of
char_of v h = split (passes-each is_char_of 64 v h alphabet)
  where
    split :
        is_char_of v ≡ true
        → (is_unreserved (sextet_char v) ≡ true) × (sextet (sextet_char v) ≡ some v)
    split e = elim (Bool-cases (is_unreserved (sextet_char v))) [
      | inr special ↦ cc (rw special at e)
      | inl plain ↦ (
        plain,
        elim (Option-cases (sextet (sextet_char v))) [
          | inl missing ↦ cc (rw (plain, missing) at e)
          | inr (w, found) ↦ found ∙ ap some ((==_iff w v).0 (rw (plain, found) at e))
        ],
      )
    ]

-- A character of the alphabet is no line break, and stands for its value.
sextets-char :
    (v : ℕ) (cs : Bytes)
    → v < 64
    → sextets (sextet_char v ∷ cs) ≡ (sextets cs >>? λ vs. some (v ∷ vs))
unfolding sextets
sextets-char v cs h =
    let (plain, value) = char_of v h in
    let no_lf : (sextet_char v == 10) ≡ false = not_break 10 plain refl in
    let no_cr : (sextet_char v == 13) ≡ false = not_break 13 plain refl in rw (no_lf, no_cr, value)
  where
    not_break :
        (b : ℕ)
        → is_unreserved (sextet_char v) ≡ true
        → is_unreserved b ≡ false
        → (sextet_char v == b) ≡ false
    not_break b plain h = elim (Bool-cases (sextet_char v == b)) [
      | inr differs ↦ differs
      | inl same ↦ cc (plain, h, ap is_unreserved ((==_iff (sextet_char v) b).0 same))
    ]

sextets-chars :
    (vs : List ℕ) (cs : Bytes) (ws : List ℕ)
    → All (λ v. v < 64) vs
    → sextets cs ≡ some ws
    → sextets (map sextet_char vs ++ cs) ≡ some (vs ++ ws)
sextets-chars [] cs ws h e = e
sextets-chars (v ∷ vs) cs ws h e =
    rw (sextets-char v (map sextet_char vs ++ cs) h.0, sextets-chars vs cs ws h.1 e)

decode-chars :
    (vs : List ℕ) (cs : Bytes) (ws : List ℕ)
    → All (λ v. v < 64) vs
    → sextets cs ≡ some ws
    → decode (map sextet_char vs ++ cs) ≡ unpack (vs ++ ws)
unfolding decode
decode-chars vs cs ws h e = rw (sextets-chars vs cs ws h e)

-- DecodeString gives back what EncodeToString was given.
pub decode-encode : (bs : Bytes) → All IsByte bs → decode (encode bs) ≡ some bs
unfolding encode sextets unpack decode
decode-encode [] h = refl
decode-encode (a ∷ []) h =
    let e : a / 4 * 4 + a % 4 * 16 / 16 ≡ a = omega arith in
    decode-chars (a / 4 ∷ (a % 4 * 16) ∷ []) [] [] (omega arith) refl
    ∙ ap (λ (x : ℕ). some (x ∷ [])) e
decode-encode (a ∷ b ∷ []) h =
    let e : a / 4 * 4 + (a % 4 * 16 + b / 16) / 16 ≡ a = omega arith in
    let f : (a % 4 * 16 + b / 16) % 16 * 16 + b % 16 * 4 / 4 ≡ b = omega arith in
    decode-chars (a / 4 ∷ (a % 4 * 16 + b / 16) ∷ (b % 16 * 4) ∷ []) [] [] (omega arith) refl
    ∙ ap₂ (λ (x y : ℕ). some (x ∷ y ∷ [])) e f
decode-encode (a ∷ b ∷ c ∷ bs) h =
    let (ws, found, unpacked) =
      >>?-eq-some (sextets (encode bs)) unpack (decode-encode bs h.1.1.1) in
    let e : a / 4 * 4 + (a % 4 * 16 + b / 16) / 16 ≡ a = omega arith in
    let f : (a % 4 * 16 + b / 16) % 16 * 16 + (b % 16 * 4 + c / 64) / 4 ≡ b = omega arith in
    let g : (b % 16 * 4 + c / 64) % 4 * 64 + c % 64 ≡ c = omega arith in
    decode-chars (a / 4 ∷ (a % 4 * 16 + b / 16) ∷ (b % 16 * 4 + c / 64) ∷ (c % 64) ∷ []) (encode bs)
      ws (omega arith) found
    ∙ rw (unpacked, e, f, g)

-- Its characters need no escape in a query.
pub encode-IsPlain : (bs : Bytes) → All IsByte bs → All IsPlain (encode bs)
unfolding encode
encode-IsPlain [] h = tt
encode-IsPlain (a ∷ []) h =
    ((char_of (a / 4) (omega arith)).0, ((char_of (a % 4 * 16) (omega arith)).0, tt))
encode-IsPlain (a ∷ b ∷ []) h = (
  (char_of (a / 4) (omega arith)).0,
  ((char_of (a % 4 * 16 + b / 16) (omega arith)).0, ((char_of (b % 16 * 4) (omega arith)).0, tt)),
)
encode-IsPlain (a ∷ b ∷ c ∷ bs) h = (
  (char_of (a / 4) (omega arith)).0,
  (
    (char_of (a % 4 * 16 + b / 16) (omega arith)).0,
    (
      (char_of (b % 16 * 4 + c / 64) (omega arith)).0,
      ((char_of (c % 64) (omega arith)).0, encode-IsPlain bs h.1.1.1),
    ),
  ),
)

sextet-lt : (c v : ℕ) → sextet c ≡ some v → v < 64
unfolding sextet
sextet-lt c v h = ground arith

sextets-lt : (s : Bytes) (vs : List ℕ) → sextets s ≡ some vs → All (λ v. v < 64) vs
unfolding sextets
sextets-lt [] vs h = subst (All (λ v. v < 64)) (some-injective h) tt
sextets-lt (c ∷ cs) vs h = elim (Bool-cases (c == 10 || c == 13)) [
  | inl break ↦ sextets-lt cs vs (rw break at h)
  | inr char ↦
      let (v, value, rest) = >>?-eq-some (sextet c) _ (rw char at h) in
      let (ws, tail, e) = >>?-eq-some (sextets cs) _ rest in
      subst (All (λ v. v < 64)) (some-injective e) (sextet-lt c v value, sextets-lt cs ws tail)
]

unpack-IsByte :
    (vs : List ℕ) (bs : Bytes) → All (λ v. v < 64) vs → unpack vs ≡ some bs → All IsByte bs
unfolding unpack
unpack-IsByte [] bs lt h = subst (All IsByte) (some-injective h) tt
unpack-IsByte (p ∷ []) bs lt h = cc
unpack-IsByte (p ∷ q ∷ []) bs lt h = subst (All IsByte) (some-injective h) (omega arith)
unpack-IsByte (p ∷ q ∷ r ∷ []) bs lt h = subst (All IsByte) (some-injective h) (omega arith)
unpack-IsByte (p ∷ q ∷ r ∷ s ∷ vs) bs lt h =
    let (cs, rest, e) = >>?-eq-some (unpack vs) _ h in
    subst (All IsByte) (some-injective e)
      (omega arith, (omega arith, (omega arith, unpack-IsByte vs cs lt.1.1.1.1 rest)))

-- DecodeString returns bytes.
pub decode-IsByte : (s bs : Bytes) → decode s ≡ some bs → All IsByte bs
unfolding decode
decode-IsByte s bs h =
    let (vs, found, e) = >>?-eq-some (sextets s) unpack h in
    unpack-IsByte vs bs (sextets-lt s vs found) e
