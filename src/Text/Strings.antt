-- ===== src/Text/Strings.antt =====
-- strings.Index and LastIndex of one byte with the slices around it, TrimPrefix and TrimSuffix.
use simplex_go.Base.{
  ℕ, zero, suc, ◌+◌, ◌-◌, ◌≡◌, refl, sym, ap, ap₂, ◌∙◌, subst, ◌≢◌, inl, inr, false, Option, none,
  some, List, [], ◌∷◌, ◌++◌, arith, ◌==◌, if◌then◌else◌, ==_iff, ==_self, Bool-cases, Option-cases,
  length, take, drop, All, take-append-drop, Bytes, bytes_eq, has_prefix, index_byte, bytes_eq_iff,
  All-append_right,
}

-- m, and then f on its value; an error of m is the result.
infixl 5 ◌>>?◌
abbrev pub ◌>>?◌ {ℓ κ} : {A : Type ℓ} {B : Type κ} → Option A → (A → Option B) → Option B
none >>? f = none
some a >>? f = f a

pub >>?-eq-some {ℓ κ} :
    {A : Type ℓ} {B : Type κ} (m : Option A) (f : A → Option B) {b : B}
    → (m >>? f) ≡ some b
    → (a : A) × (m ≡ some a) × (f a ≡ some b)
>>?-eq-some none f h = cc
>>?-eq-some (some a) f h = (a, refl, h)

pub some-injective {ℓ} : {A : Type ℓ} {a b : A} → some a ≡ some b → a ≡ b
some-injective e = cc

-- i := strings.Index(s, c); s[:i] and s[i+1:], where i is not -1.
unfoldable pub cut : ℕ → Bytes → Option (Bytes × Bytes)
cut c s = index_byte s c >>? λ i. some (take i s, drop (i + 1) s)

-- strings.LastIndex of one byte, `none` for -1.
unfoldable pub last_index : Bytes → ℕ → Option ℕ
last_index [] c = none
last_index (x ∷ xs) c = elim (last_index xs c) [
  | some i ↦ some (suc i)
  | none ↦ if x == c then some 0 else none
]

unfoldable pub cut_last : ℕ → Bytes → Option (Bytes × Bytes)
cut_last c s = last_index s c >>? λ i. some (take i s, drop (i + 1) s)

unfoldable pub trim_prefix : Bytes → Bytes → Bytes
trim_prefix s p = if has_prefix s p then drop (length p) s else s

-- strings.TrimSuffix(s, "c")
unfoldable pub trim_suffix : Bytes → ℕ → Bytes
trim_suffix s c = if bytes_eq (drop (length s - 1) s) (c ∷ []) then take (length s - 1) s else s

-- The byte does not stand in the text.
abbrev pub Lacks : ℕ → Bytes → Type 0
Lacks c = All (λ b. b ≢ c)

pub index_byte-lacking : (c : ℕ) (xs : Bytes) → Lacks c xs → index_byte xs c ≡ none
unfolding index_byte
index_byte-lacking c [] h = refl
index_byte-lacking c (x ∷ xs) h = ground (arith, index_byte-lacking c xs h.1)

pub ne_test : (a b : ℕ) → a ≢ b → (a == b) ≡ false
ne_test a b h = ground arith

index_byte-absent :
    (c : ℕ) (xs ys : Bytes) → Lacks c xs → index_byte (xs ++ (c ∷ ys)) c ≡ some (length xs)
unfolding index_byte
index_byte-absent c [] ys h = rw (==_self c)
index_byte-absent c (x ∷ xs) ys h = ground (arith, index_byte-absent c xs ys h.1)

take-drop_at :
    (c : ℕ) (xs ys : Bytes)
    → (take (length xs) (xs ++ (c ∷ ys)) ≡ xs) × (drop (length xs + 1) (xs ++ (c ∷ ys)) ≡ ys)
take-drop_at c [] ys = (refl, refl)
take-drop_at c (x ∷ xs) ys =
    let (p, q) = take-drop_at c xs ys in
    let n : suc (length xs) + 1 ≡ suc (length xs + 1) = omega arith in (ap (◌∷◌ x) p, rw n q)

pub cut-append : (c : ℕ) (xs ys : Bytes) → Lacks c xs → cut c (xs ++ (c ∷ ys)) ≡ some (xs, ys)
unfolding cut
cut-append c xs ys h = let (p, q) = take-drop_at c xs ys in rw (index_byte-absent c xs ys h, p, q)

last_index-absent : (c : ℕ) (ys : Bytes) → Lacks c ys → last_index ys c ≡ none
unfolding last_index
last_index-absent c [] h = refl
last_index-absent c (y ∷ ys) h = rw (last_index-absent c ys h.1, last_index) (ground arith)

last_index-append :
    (c : ℕ) (xs ys : Bytes) → Lacks c ys → last_index (xs ++ (c ∷ ys)) c ≡ some (length xs)
unfolding last_index
last_index-append c [] ys h = rw (last_index-absent c ys h, last_index) (rw (==_self c))
last_index-append c (x ∷ xs) ys h = rw (last_index-append c xs ys h, last_index)

pub cut_last-append :
    (c : ℕ) (xs ys : Bytes) → Lacks c ys → cut_last c (xs ++ (c ∷ ys)) ≡ some (xs, ys)
unfolding cut_last
cut_last-append c xs ys h =
    let (p, q) = take-drop_at c xs ys in rw (last_index-append c xs ys h, p, q)

-- What was cut off lies around the byte, and the byte does not stand before it.
index_byte-found :
    (c : ℕ) (s : Bytes) (i : ℕ)
    → index_byte s c ≡ some i
    → (s ≡ take i s ++ (c ∷ drop (i + 1) s)) × Lacks c (take i s)
unfolding index_byte
index_byte-found c [] i h = cc
index_byte-found c (x ∷ xs) i h = elim (Bool-cases (x == c)) [
  | inl same ↦
      let zero_at : 0 ≡ i = some-injective (rw same at h) in
      let here : x ≡ c = (==_iff x c).0 same in
      subst
        (λ k. (x ∷ xs ≡ take k (x ∷ xs) ++ (c ∷ drop (k + 1) (x ∷ xs))) × Lacks c (take k (x ∷ xs)))
        zero_at (ap (λ b. b ∷ xs) here, tt)
  | inr new ↦ elim (Option-cases (index_byte xs c)) [
    | inl missing ↦ cc (rw (new, missing) at h)
    | inr (j, found) ↦
        let next : suc j ≡ i = some-injective (rw (new, found) at h) in
        let (p, q) = index_byte-found c xs j found in
        let n : suc j + 1 ≡ suc (j + 1) = omega arith in
        let differ : x ≢ c = λ e. cc (new, (==_iff x c).1 e) in
        subst
          (λ k.
            (x ∷ xs ≡ take k (x ∷ xs) ++ (c ∷ drop (k + 1) (x ∷ xs))) × Lacks c (take k (x ∷ xs)))
          next (rw n (ap (◌∷◌ x) p), (differ, q))
  ]
]

pub cut-eq-some :
    (c : ℕ) (s xs ys : Bytes) → cut c s ≡ some (xs, ys) → (s ≡ xs ++ (c ∷ ys)) × Lacks c xs
unfolding cut
cut-eq-some c s xs ys h =
    let (i, found, e) = >>?-eq-some (index_byte s c) _ h in
    let parts = some-injective e in
    let (p, q) = index_byte-found c s i found in
    let first : take i s ≡ xs = ap (λ (r : Bytes × Bytes). r.0) parts in
    let second : drop (i + 1) s ≡ ys = ap (λ (r : Bytes × Bytes). r.1) parts in
    (p ∙ ap₂ (λ (a b : Bytes). a ++ (c ∷ b)) first second, subst (Lacks c) first q)

-- What is no suffix is not cut off.
pub trim_suffix-absent : (c : ℕ) (s : Bytes) → Lacks c s → trim_suffix s c ≡ s
unfolding trim_suffix
trim_suffix-absent c s h = elim (Bool-cases (bytes_eq (drop (length s - 1) s) (c ∷ []))) [
  | inr differs ↦ rw differs
  | inl ends ↦
      let e = (bytes_eq_iff (drop (length s - 1) s) (c ∷ [])).0 ends in
      let lacks : Lacks c (drop (length s - 1) s) =
        All-append_right (λ b. b ≢ c) (take (length s - 1) s) _
          (subst (Lacks c) (sym (take-append-drop (length s - 1) s)) h) in
      let last : Lacks c (c ∷ []) = subst (Lacks c) e lacks in absurd (last.0 refl)
]

module _ {ℓ κ} {A : Type ℓ} (P : A → Type κ) where
  pub All-take : (n : ℕ) (xs : List A) → All P xs → All P (take n xs)
  All-take zero xs h = tt
  All-take (suc n) [] h = tt
  All-take (suc n) (x ∷ xs) h = (h.0, All-take n xs h.1)

  pub All-drop : (n : ℕ) (xs : List A) → All P xs → All P (drop n xs)
  All-drop zero xs h = h
  All-drop (suc n) [] h = tt
  All-drop (suc n) (x ∷ xs) h = All-drop n xs h.1

-- The text before the last c is a part of the whole.
pub All-cut_last :
    (P : ℕ → Type 0) (c : ℕ) (s xs ys : Bytes) → cut_last c s ≡ some (xs, ys) → All P s → All P xs
unfolding cut_last
All-cut_last P c s xs ys h all =
    let (i, found, e) = >>?-eq-some (last_index s c) _ h in
    let first : take i s ≡ xs = ap (λ (r : Bytes × Bytes). r.0) (some-injective e) in
    subst (All P) first (All-take P i s all)
