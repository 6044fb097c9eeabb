-- ===== src/Kozi/Codes.antt =====
-- normalizePlusCode on ASCII.
use simplex_go.Base.{
  ℕ, zero, suc, ◌-◌, ◌≤◌, ◌<◌, ◌≡◌, refl, sym, ap, ap₂, ◌∙◌, subst, ◌≢◌, inl, inr, ◌&&◌, [], ◌∷◌,
  map, arith, ltb, leb, ◌==◌, if◌then◌else◌, ==_iff, Bool-cases, length, take, All, Bytes,
}
use simplex_go.Text.Strings.{All-take}
use simplex_go.Kozi.{proximity_prefix_len, Os, without_plus, normalize_plus_code}

abbrev pub IsAscii : Bytes → Type 0
IsAscii = All (λ b. b < 128)

-- The upper case of an ASCII character.
unfoldable pub upper : ℕ → ℕ
upper b = if leb b'a' b && leb b b'z' then b - 32 else b

-- The second text is the first without its separators.
pub data Stripped : Bytes → Bytes → Type 0 where
  ended : Stripped [] []
  drops : {s t : Bytes} → Stripped s t → Stripped (b'+' ∷ s) t
  keeps : {s t : Bytes} (b : ℕ) → b ≢ b'+' → Stripped s t → Stripped (b ∷ s) (b ∷ t)

pub without_plus-Stripped : (s : Bytes) → Stripped s (without_plus s)
unfolding without_plus
without_plus-Stripped [] = ended
without_plus-Stripped (b ∷ bs) = elim (Bool-cases (b == b'+')) [
  | inl plus ↦ rw plus (
      subst (λ c. Stripped (c ∷ bs) (without_plus bs)) (sym ((==_iff b b'+').0 plus))
        (drops (without_plus-Stripped bs)))
  | inr kept ↦ rw kept (keeps b (λ h. cc (kept, (==_iff b b'+').1 h)) (without_plus-Stripped bs))
]

-- The code without its separators, in upper case, and of it at most six characters.
abbrev pub coarse : Bytes → Bytes
coarse s = take proximity_prefix_len (map upper (without_plus s))

without_plus-IsAscii : (s : Bytes) → IsAscii s → IsAscii (without_plus s)
unfolding without_plus
without_plus-IsAscii [] h = tt
without_plus-IsAscii (b ∷ bs) h = elim (Bool-cases (b == b'+')) [
  | inl plus ↦ rw plus (without_plus-IsAscii bs h.1)
  | inr kept ↦ rw kept (h.0, without_plus-IsAscii bs h.1)
]

upper-IsAscii : (b : ℕ) → b < 128 → upper b < 128
unfolding upper
upper-IsAscii b h = ground arith

map-upper-IsAscii : (s : Bytes) → IsAscii s → IsAscii (map upper s)
map-upper-IsAscii [] h = tt
map-upper-IsAscii (b ∷ bs) h = (upper-IsAscii b h.0, map-upper-IsAscii bs h.1)

take_short : (n : ℕ) (s : Bytes) → length s ≤ n → take n s ≡ s
take_short zero [] h = refl
take_short zero (b ∷ s) h = absurd (omega arith)
take_short (suc n) [] h = refl
take_short (suc n) (b ∷ s) h = ap (λ (x : Bytes). b ∷ x) (take_short n s (omega arith))

-- strings.ToUpper maps the characters of an ASCII string, as documented.
abbrev pub UppersAscii : {S : Type 0} → Os S → Type 0
UppersAscii os = (s : Bytes) → IsAscii s → os.to_upper s ≡ map upper s

pub normalize_plus_code-coarse :
    {S : Type 0} (os : Os S) (s : Bytes)
    → UppersAscii os
    → IsAscii s
    → normalize_plus_code os s ≡ coarse s
unfolding normalize_plus_code
normalize_plus_code-coarse os s uppers h =
    let code = map upper (without_plus s) in
    rw (uppers (without_plus s) (without_plus-IsAscii s h))
      (elim (Bool-cases (ltb 6 (length code))) [
        | inl long ↦ rw long refl
        | inr short ↦ rw short (sym (take_short 6 code (ground arith)))
      ])

pub coarse-IsAscii : (s : Bytes) → IsAscii s → IsAscii (coarse s)
coarse-IsAscii s h = All-take (λ b. b < 128) 6 _ (map-upper-IsAscii _ (without_plus-IsAscii s h))

-- What normalizing a code leaves as it is.
abbrev IsNormal : ℕ → Type 0
IsNormal b = (b ≢ b'+') × (upper b ≡ b)

upper-IsNormal : (b : ℕ) → b ≢ b'+' → IsNormal (upper b)
unfolding upper
upper-IsNormal b h = (λ e. ground (arith, h), ground arith)

without_plus-IsNormal : (s : Bytes) → All IsNormal (map upper (without_plus s))
unfolding without_plus
without_plus-IsNormal [] = tt
without_plus-IsNormal (b ∷ bs) = elim (Bool-cases (b == b'+')) [
  | inl plus ↦ rw plus (without_plus-IsNormal bs)
  | inr kept ↦
      rw kept (upper-IsNormal b (λ e. cc (kept, (==_iff b b'+').1 e)), without_plus-IsNormal bs)
]

without_plus_keeps : (s : Bytes) → All IsNormal s → without_plus s ≡ s
unfolding without_plus
without_plus_keeps [] h = refl
without_plus_keeps (b ∷ bs) h = elim (Bool-cases (b == b'+')) [
  | inl plus ↦ absurd (h.0.0 ((==_iff b b'+').0 plus))
  | inr kept ↦ rw kept (ap (λ (x : Bytes). b ∷ x) (without_plus_keeps bs h.1))
]

map_keeps : (s : Bytes) → All IsNormal s → map upper s ≡ s
map_keeps [] h = refl
map_keeps (b ∷ bs) h = ap₂ (λ a c. a ∷ c) h.0.1 (map_keeps bs h.1)

take-take : (n : ℕ) (s : Bytes) → take n (take n s) ≡ take n s
take-take zero s = refl
take-take (suc n) [] = refl
take-take (suc n) (b ∷ s) = ap (λ (x : Bytes). b ∷ x) (take-take n s)

-- A coarse code is its own coarse code.
pub coarse-coarse : (s : Bytes) → coarse (coarse s) ≡ coarse s
coarse-coarse s =
    let code = map upper (without_plus s) in
    let normal = All-take IsNormal 6 code (without_plus-IsNormal s) in
    ap (λ (x : Bytes). take 6 (map upper x)) (without_plus_keeps (take 6 code) normal)
    ∙ ap (take 6) (map_keeps (take 6 code) normal)
    ∙ take-take 6 code

-- For an ASCII code: what set-location stores is the coarse code, which is ASCII again, and
-- normalizing what is stored changes nothing.
pub normalize_plus_code_idem :
    {S : Type 0} (os : Os S) (s : Bytes)
    → UppersAscii os
    → IsAscii s
    → IsAscii (normalize_plus_code os s)
      × (normalize_plus_code os (normalize_plus_code os s) ≡ normalize_plus_code os s)
normalize_plus_code_idem os s uppers h =
    let first = normalize_plus_code-coarse os s uppers h in
    let ascii = coarse-IsAscii s h in
    (
      subst IsAscii (sym first) ascii,
      ap (normalize_plus_code os) first
          ∙ normalize_plus_code-coarse os (coarse s) uppers ascii
          ∙ coarse-coarse s
          ∙ sym first,
    )
