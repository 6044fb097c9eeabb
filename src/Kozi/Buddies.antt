-- ===== src/Kozi/Buddies.antt =====
-- The list of the buddies under pair and unpair.
use simplex_go.Base.{
  ◌≡◌, refl, sym, ap, ◌∙◌, subst, ◌≢◌, inl, inr, false, Option, none, some, List, [], ◌∷◌, ◌++◌,
  Bool-cases, Option-cases, All, Bytes, bytes_eq, bytes_eq_iff, bytes_eq_self, bytes_eq-ne, ok,
}
use simplex_go.Kozi.{Buddy, State, is_paired, keep, without_buddy, add_buddy, remove_buddy}

-- No two buddies have the same name.
abbrev pub IsDistinct : List Buddy → Type 0
IsDistinct [] = Unit {0}
IsDistinct (b ∷ bs) = (is_paired b.name bs ≡ false) × IsDistinct bs

-- Two conditionals on Booleans that are false.
unpaired_head :
    (name : Bytes) (b : Buddy) (bs : List Buddy)
    → is_paired name (b ∷ bs) ≡ false
    → (bytes_eq b.name name ≡ false) × (is_paired name bs ≡ false)
unfolding is_paired
unpaired_head name b bs h = elim (Bool-cases (bytes_eq b.name name)) [
  | inl same ↦ cc (rw same at h)
  | inr new ↦ (new, rw new at h)
]

is_paired-cons :
    (name : Bytes) (b : Buddy) (bs : List Buddy)
    → bytes_eq b.name name ≡ false
    → is_paired name bs ≡ false
    → is_paired name (b ∷ bs) ≡ false
unfolding is_paired
is_paired-cons name b bs new rest = rw new rest

bytes_eq-swap : (xs ys : Bytes) → bytes_eq xs ys ≡ false → bytes_eq ys xs ≡ false
bytes_eq-swap xs ys h = elim (Bool-cases (bytes_eq ys xs)) [
  | inr new ↦ new
  | inl same ↦ cc (h, (bytes_eq_iff xs ys).1 (sym ((bytes_eq_iff ys xs).0 same)))
]

is_paired-append :
    (name : Bytes) (b : Buddy) (bs : List Buddy)
    → bytes_eq b.name name ≡ false
    → is_paired name bs ≡ false
    → is_paired name (bs ++ (b ∷ [])) ≡ false
is_paired-append name b [] new h = is_paired-cons name b [] new h
is_paired-append name b (c ∷ bs) new h =
    let (first, rest) = unpaired_head name c bs h in
    is_paired-cons name c (bs ++ (b ∷ [])) first (is_paired-append name b bs new rest)

pub IsDistinct-append :
    (b : Buddy) (bs : List Buddy)
    → is_paired b.name bs ≡ false
    → IsDistinct bs
    → IsDistinct (bs ++ (b ∷ []))
unfolding is_paired
IsDistinct-append b [] new h = (refl, tt)
IsDistinct-append b (c ∷ bs) new h =
    let (first, rest) = unpaired_head b.name c bs new in
    (
      is_paired-append c.name b bs (bytes_eq-swap c.name b.name first) h.0,
      IsDistinct-append b bs rest h.1,
    )

without_buddy-append :
    (b : Buddy) (bs : List Buddy)
    → is_paired b.name bs ≡ false
    → without_buddy b.name (bs ++ (b ∷ [])) ≡ some bs
unfolding without_buddy
without_buddy-append b [] h = rw (bytes_eq_self b.name)
without_buddy-append b (c ∷ bs) h =
    let (first, rest) = unpaired_head b.name c bs h in rw (first, without_buddy-append b bs rest)

abbrev pub buddy : (name secret uri : Bytes) → Buddy
buddy name secret uri = record {
  name = name;
  shared_secret = secret;
  simplex_link = uri;
  last_seen_grid = [];
  last_seen_at = 0;
}

pub add_buddy-eq-ok :
    (name secret uri : Bytes) (s s' : State)
    → add_buddy name secret uri s ≡ ok s'
    → (is_paired name s.buddies ≡ false)
      × (record s { buddies = s.buddies ++ (buddy name secret uri ∷ []) } ≡ s')
unfolding add_buddy
add_buddy-eq-ok name secret uri s s' e = elim (Bool-cases (is_paired name s.buddies)) [
  | inl taken ↦ cc (rw taken at e)
  | inr new ↦ (new, cc (rw new at e))
]

-- When pair adds a buddy to a state, unpair of that name gives the state back; and when no two
-- buddies had the same name, no two have it afterwards.
pub remove_buddy-add_buddy :
    (name secret uri : Bytes) (s s' : State)
    → IsDistinct s.buddies
    → add_buddy name secret uri s ≡ ok s'
    → (remove_buddy name s' ≡ ok s) × IsDistinct s'.buddies
unfolding remove_buddy
remove_buddy-add_buddy name secret uri s s' distinct e =
    let (new, same) = add_buddy-eq-ok name secret uri s s' e in
    subst (λ (x : State). (remove_buddy name x ≡ ok s) × IsDistinct x.buddies) same
      (
        rw (without_buddy-append (buddy name secret uri) s.buddies new, remove_buddy),
        IsDistinct-append (buddy name secret uri) s.buddies new distinct,
      )

-- The buddies have other names.
abbrev pub HasOthers : Bytes → List Buddy → Type 0
HasOthers name = All (λ (b : Buddy). b.name ≢ name)

pub is_paired-HasOthers :
    (name : Bytes) (bs : List Buddy) → is_paired name bs ≡ false → HasOthers name bs
is_paired-HasOthers name [] h = tt
is_paired-HasOthers name (b ∷ bs) h =
    let (first, rest) = unpaired_head name b bs h in
    (λ same. cc (first, (bytes_eq_iff b.name name).1 same), is_paired-HasOthers name bs rest)

pub HasOthers-is_paired :
    (name : Bytes) (bs : List Buddy) → HasOthers name bs → is_paired name bs ≡ false
unfolding is_paired
HasOthers-is_paired name [] h = refl
HasOthers-is_paired name (b ∷ bs) h =
    is_paired-cons name b bs (bytes_eq-ne b.name name h.0) (HasOthers-is_paired name bs h.1)

pub some-injective : {A : Type 0} {a b : A} → some a ≡ some b → a ≡ b
some-injective e = cc

pub keep-eq-some :
    (b : Buddy) (o : Option (List Buddy)) (r : List Buddy)
    → keep b o ≡ some r
    → (bs : List Buddy) × (o ≡ some bs) × (r ≡ b ∷ bs)
keep-eq-some b none r e = cc
keep-eq-some b (some bs) r e = (bs, refl, cc e)

without_buddy-others :
    (name other_name : Bytes) (bs r : List Buddy)
    → without_buddy name bs ≡ some r
    → is_paired other_name bs ≡ false
    → is_paired other_name r ≡ false
unfolding without_buddy
without_buddy-others name k [] r e h = cc e
without_buddy-others name k (b ∷ bs) r e h =
    let (first, rest) = unpaired_head k b bs h in
    elim (Bool-cases (bytes_eq b.name name)) [
      | inl found ↦
          let same : some bs ≡ some r = rw found at e in
          subst (λ x. is_paired k x ≡ false) (some-injective same) rest
      | inr later ↦
          let (r', e', same) = keep-eq-some b (without_buddy name bs) r (rw later at e) in
          subst (λ x. is_paired k x ≡ false) (sym same)
            (is_paired-cons k b r' first (without_buddy-others name k bs r' e' rest))
    ]

pub without_buddy-IsDistinct :
    (name : Bytes) (bs r : List Buddy)
    → without_buddy name bs ≡ some r
    → IsDistinct bs
    → IsDistinct r × (is_paired name r ≡ false)
unfolding without_buddy
without_buddy-IsDistinct name [] r e h = cc e
without_buddy-IsDistinct name (b ∷ bs) r e h = elim (Bool-cases (bytes_eq b.name name)) [
  | inl found ↦
      let same : some bs ≡ some r = rw found at e in
      subst (λ x. IsDistinct x × (is_paired name x ≡ false)) (some-injective same)
        (h.1, subst (λ k. is_paired k bs ≡ false) ((bytes_eq_iff b.name name).0 found) h.0)
  | inr later ↦
      let (r', e', same) = keep-eq-some b (without_buddy name bs) r (rw later at e) in
      let (distinct, gone) = without_buddy-IsDistinct name bs r' e' h.1 in
      subst (λ x. IsDistinct x × (is_paired name x ≡ false)) (sym same)
        (
          (without_buddy-others name b.name bs r' e' h.0, distinct),
          is_paired-cons name b r' later gone,
        )
]

-- The list without its first buddy of the name.
pub record Removed (name : Bytes) (bs r : List Buddy) : Type 0 where
  pub front : List Buddy
  pub gone : Buddy
  pub back : List Buddy
  pub before : bs ≡ front ++ (gone ∷ back)
  pub named : gone.name ≡ name
  pub others : HasOthers name front
  pub after : r ≡ front ++ back

pub without_buddy-Removed :
    (name : Bytes) (bs r : List Buddy) → without_buddy name bs ≡ some r → Removed name bs r
unfolding without_buddy
without_buddy-Removed name [] r e = cc e
without_buddy-Removed name (b ∷ bs) r e = elim (Bool-cases (bytes_eq b.name name)) [
  | inl found ↦ record {
    front = [];
    gone = b;
    back = bs;
    before = refl;
    named = (bytes_eq_iff b.name name).0 found;
    others = tt;
    after = sym (some-injective (rw found at e));
  }
  | inr later ↦
      let (r', e', same) = keep-eq-some b (without_buddy name bs) r (rw later at e) in
      let rest = without_buddy-Removed name bs r' e' in
      record {
        front = b ∷ rest.front;
        gone = rest.gone;
        back = rest.back;
        before = ap (λ (x : List Buddy). b ∷ x) rest.before;
        named = rest.named;
        others = (λ h. cc (later, (bytes_eq_iff b.name name).1 h), rest.others);
        after = same ∙ ap (λ (x : List Buddy). b ∷ x) rest.after;
      }
]

without_buddy-front :
    (front back : List Buddy) (b : Buddy)
    → HasOthers b.name front
    → without_buddy b.name (front ++ (b ∷ back)) ≡ some (front ++ back)
unfolding without_buddy
without_buddy-front [] back b h = rw (bytes_eq_self b.name)
without_buddy-front (c ∷ front) back b h =
    rw (bytes_eq-ne c.name b.name h.0, without_buddy-front front back b h.1)

pub Removed-without_buddy :
    (name : Bytes) (bs r : List Buddy) → Removed name bs r → without_buddy name bs ≡ some r
Removed-without_buddy name bs r h =
    subst (λ k. without_buddy k bs ≡ some r) h.named
      (rw (h.before, h.after)
        (without_buddy-front h.front h.back h.gone
          (subst (λ k. HasOthers k h.front) (sym h.named) h.others)))

pub remove_buddy-eq-ok :
    (name : Bytes) (s s' : State)
    → remove_buddy name s ≡ ok s'
    → (bs : List Buddy) × (without_buddy name s.buddies ≡ some bs)
      × (record s { buddies = bs } ≡ s')
unfolding remove_buddy
remove_buddy-eq-ok name s s' e = elim (Option-cases (without_buddy name s.buddies)) [
  | inl missing ↦ cc (rw (missing, remove_buddy) at e)
  | inr (bs, found) ↦ (bs, found, cc (rw (found, remove_buddy) at e))
]

-- When unpair removes a buddy from a state in which no two have the same name, no two have it
-- afterwards, nobody is left under the name, and the rest of the state is as it was.
pub remove_buddy-removes :
    (name : Bytes) (s s' : State)
    → IsDistinct s.buddies
    → remove_buddy name s ≡ ok s'
    → IsDistinct s'.buddies
      × (is_paired name s'.buddies ≡ false)
      × (s' ≡ record s { buddies = s'.buddies })
remove_buddy-removes name s s' distinct e =
    let (bs, found, same) = remove_buddy-eq-ok name s s' e in
    let (d, gone) = without_buddy-IsDistinct name s.buddies bs found distinct in
    subst
      (λ (x : State).
        IsDistinct x.buddies
        × (is_paired name x.buddies ≡ false)
        × (x ≡ record s { buddies = x.buddies }))
      same (d, gone, refl)
