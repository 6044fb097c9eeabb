-- ===== src/Kozi/Main/Changes.antt =====
-- What the commands make of the saved state.
use simplex_go.Base.{
  ◌≤◌, ◌≡◌, refl, sym, ap, ◌∙◌, subst, ◌≢◌, inl, inr, Bool, true, false, some, List, [], ◌∷◌, ◌++◌,
  map, arith, ltb, if◌then◌else◌, Bool-cases, length, take, All, Bytes, IsByte, codes, bytes_eq,
  bytes_eq_iff, All-append, Error, Result, Op, fail, ◌>>=◌, >>=-eq-ok, wrap_result-eq-ok, ok,
}
use simplex_go.Block.{lift}
use simplex_go.Text.Hex
use simplex_go.Address.{SmpQueueUri, parse_smp_queue_uri}
use simplex_go.Kozi.{
  Buddy, State, Os, without_plus, without_buddy, derive_proximity_secret, parsed, load_state,
  save_state, cmd_pair, cmd_unpair, cmd_set_location, contents,
}
use simplex_go.Kozi.Buddies.{
  buddy, HasOthers, Removed, is_paired-HasOthers, without_buddy-Removed, some-injective,
  keep-eq-some, add_buddy-eq-ok, remove_buddy-eq-ok,
}
use simplex_go.Kozi.Saved.{load_state-save_state}
use simplex_go.Kozi.Codes.{
  Stripped, without_plus-Stripped, upper, IsAscii, coarse, coarse-IsAscii, UppersAscii,
  normalize_plus_code-coarse,
}

abbrev pub IsAsciiBuddy : Buddy → Type 0
IsAsciiBuddy b =
    IsAscii b.name × IsAscii b.shared_secret × IsAscii b.simplex_link × IsAscii b.last_seen_grid

abbrev pub IsAsciiState : State → Type 0
IsAsciiState st = IsAscii st.current_location × All IsAsciiBuddy st.buddies

-- What the operating system and the library do: a read changes nothing, a file that was written
-- reads back, a state of ASCII texts decodes from its encoding, SHA-256 gives bytes, and ToUpper maps
-- ASCII.
pub record Laws {S : Type 0} (os : Os S) : Type 0 where
  pub read_only : (path : Bytes) (s : S) → (os.read_file path s).1 ≡ s
  pub reads_back :
      (path data' : Bytes) (s s' : S)
      → os.write_file path data' s ≡ (ok tt, s')
      → os.read_file path s' ≡ (contents data', s')
  pub decodes :
      (st : State)
      → IsAsciiState st
      → (data' : Bytes) → os.marshal st ≡ ok data'
      → os.unmarshal data' ≡ ok st
  pub digests : (x : Bytes) → All IsByte (os.sha256 x)
  pub uppers : UppersAscii os

-- The command line is of none of the commands that save a state.
abbrev pub IsReading : List Bytes → Type 0
IsReading [] = ⊥
IsReading (name ∷ args) =
    (name ≢ codes "pair") × (name ≢ codes "set-location") × (name ≢ codes "unpair")

-- What a command line makes of the saved state: pair adds a buddy at the end, of the given name, which
-- is new, with the given address and the secret of its queue; unpair takes away the first buddy of
-- the given name; set-location stores the first six characters of the given code, without its
-- separators and in upper case; and the others do nothing.
pub data Changes {S : Type 0} (os : Os S) (st : State) : List Bytes → State → Type 0 where
  stays : (args : List Bytes) → IsReading args → Changes os st args st
  pairs :
      (name uri : Bytes) (address : SmpQueueUri)
      → name ≢ []
      → HasOthers name st.buddies
      → parse_smp_queue_uri uri ≡ ok address
      → Changes os st (codes "pair" ∷ name ∷ uri ∷ []) (record st {
        buddies =
            st.buddies ++ (buddy name (Hex.encode (derive_proximity_secret os address)) uri ∷ []);
      })
  unpairs :
      (name : Bytes) (bs : List Buddy)
      → Removed name st.buddies bs
      → Changes os st (codes "unpair" ∷ name ∷ []) (record st { buddies = bs })
  moves :
      (raw code : Bytes)
      → Stripped raw code
      → 4 ≤ length raw
      → length raw ≤ 16
      → Changes os st
          (codes "set-location" ∷ raw ∷ [])
          (record st { current_location = take 6 (map upper code) })

-- The outcome of two steps, of which the first only computes.
lifted :
    {S A B : Type 0} (r : Result A) (f : A → Op S B) (s s' : S) (b : B)
    → (lift r >>= f) s ≡ (ok b, s')
    → (a : A) × (r ≡ ok a) × (f a s ≡ (ok b, s'))
lifted r f s s' b e =
    let (a, s₁, first, second) = >>=-eq-ok (lift r) f s e in
    let same : s ≡ s₁ = ap (λ p. p.1) first in
    (a, ap (λ p. p.0) first, subst (λ t. f a t ≡ (ok b, s')) (sym same) second)

-- A command that is done has found each of its tests.
started :
    {S A : Type 0} (b : Bool) (x : Error) (m : Op S A) (s s' : S) (a : A)
    → (if b then fail x else m) s ≡ (ok a, s')
    → (b ≡ false) × (m s ≡ (ok a, s'))
started true x m s s' a e = cc
started false x m s s' a e = (refl, e)

module _ {S : Type 0} (os : Os S) (laws : Laws os) where
  -- What a command leaves of a saved state.
  abbrev pub Leaves : List Bytes → State → S → Type 0
  Leaves args st s' =
      (st' : State) × Changes os st args st' × (load_state os s' ≡ (ok st', s')) × IsAsciiState st'

  pub loaded :
      {A : Type 0} (f : State → Op S A) (st : State) (s s' : S) (a : A)
      → load_state os s ≡ (ok st, s)
      → (load_state os >>= f) s ≡ (ok a, s')
      → f st s ≡ (ok a, s')
  loaded f st s s' a saved e =
      let (st₁, s₁, first, second) = >>=-eq-ok (load_state os) f s e in
      let same : (ok st₁, s₁) ≡ (ok st, s) = sym first ∙ saved in
      let state : st₁ ≡ st = cc same in
      let at_s : s₁ ≡ s = ap (λ p. p.1) same in
      subst (λ x. f x s ≡ (ok a, s')) state (subst (λ t. f st₁ t ≡ (ok a, s')) at_s second)

  leaves :
      (args : List Bytes) (st st' : State) (s s' : S)
      → Changes os st args st'
      → IsAsciiState st'
      → save_state os st' s ≡ (ok tt, s')
      → Leaves args st s'
  leaves args st st' s s' change ascii e = (
    st',
    change,
    load_state-save_state os st' s s' laws.reads_back (laws.decodes st' ascii) e,
    ascii,
  )

  without_buddy-All :
      (P : Buddy → Type 0) (name : Bytes) (bs r : List Buddy)
      → without_buddy name bs ≡ some r
      → All P bs
      → All P r
  unfolding without_buddy
  without_buddy-All P name [] r e h = cc e
  without_buddy-All P name (b ∷ bs) r e h = elim (Bool-cases (bytes_eq b.name name)) [
    | inl found ↦
        let same : some bs ≡ some r = rw found at e in subst (All P) (some-injective same) h.1
    | inr later ↦
        let (r', e', same) = keep-eq-some b (without_buddy name bs) r (rw later at e) in
        subst (All P) (sym same) (h.0, without_buddy-All P name bs r' e' h.1)
  ]

  pub cmd_pair-Leaves :
      (args : List Bytes) (st : State) (s s' : S)
      → All IsAscii args
      → IsAsciiState st
      → load_state os s ≡ (ok st, s)
      → cmd_pair os args s ≡ (ok tt, s')
      → Leaves (codes "pair" ∷ args) st s'
  unfolding cmd_pair derive_proximity_secret
  cmd_pair-Leaves [] st s s' h ascii saved e = cc e
  cmd_pair-Leaves (name ∷ []) st s s' h ascii saved e = cc e
  cmd_pair-Leaves (name ∷ uri ∷ extra ∷ more) st s s' h ascii saved e = cc e
  cmd_pair-Leaves (name ∷ uri ∷ []) st s s' h ascii saved e =
      let (named, e₁) = started (bytes_eq name []) _ _ s s' tt e in
      let (address, parsed, e₂) = lifted _ _ s s' tt e₁ in
      let e₃ = loaded _ st s s' tt saved e₂ in
      let (st', added, e₄) = lifted _ _ s s' tt e₃ in
      let secret = Hex.encode (derive_proximity_secret os address) in
      let (new, same) = add_buddy-eq-ok name secret uri st st' added in
      let digits : IsAscii secret = Hex.encode-IsAscii _ (laws.digests _) in
      let change =
        pairs name uri address (λ h. cc (named, (bytes_eq_iff name []).1 h))
          (is_paired-HasOthers name st.buddies new) (wrap_result-eq-ok "parse SMP URI" _ parsed) in
      leaves (codes "pair" ∷ name ∷ uri ∷ []) st st' s s' (subst (Changes os st _) same change)
        (subst IsAsciiState same
          (ascii.0, All-append IsAsciiBuddy st.buddies _ ascii.1 ((h.0, digits, h.1.0, tt), tt)))
        e₄

  pub cmd_unpair-Leaves :
      (args : List Bytes) (st : State) (s s' : S)
      → IsAsciiState st
      → load_state os s ≡ (ok st, s)
      → cmd_unpair os args s ≡ (ok tt, s')
      → Leaves (codes "unpair" ∷ args) st s'
  unfolding cmd_unpair
  cmd_unpair-Leaves [] st s s' ascii saved e = cc e
  cmd_unpair-Leaves (name ∷ extra ∷ more) st s s' ascii saved e = cc e
  cmd_unpair-Leaves (name ∷ []) st s s' ascii saved e =
      let e₁ = loaded _ st s s' tt saved e in
      let (st', removed, e₂) = lifted _ _ s s' tt e₁ in
      let (bs, found, same) = remove_buddy-eq-ok name st st' removed in
      leaves (codes "unpair" ∷ name ∷ []) st st' s s'
        (subst (Changes os st _) same
          (unpairs name bs (without_buddy-Removed name st.buddies bs found)))
        (subst IsAsciiState same
          (ascii.0, without_buddy-All IsAsciiBuddy name st.buddies bs found ascii.1))
        e₂

  pub cmd_set_location-Leaves :
      (args : List Bytes) (st : State) (s s' : S)
      → All IsAscii args
      → IsAsciiState st
      → load_state os s ≡ (ok st, s)
      → cmd_set_location os args s ≡ (ok tt, s')
      → Leaves (codes "set-location" ∷ args) st s'
  unfolding cmd_set_location
  cmd_set_location-Leaves [] st s s' h ascii saved e = cc e
  cmd_set_location-Leaves (raw ∷ extra ∷ more) st s s' h ascii saved e = cc e
  cmd_set_location-Leaves (raw ∷ []) st s s' h ascii saved e =
      let (not_short, e₁) = started (ltb (length raw) 4) _ _ s s' tt e in
      let (not_long, e₂) = started (ltb 16 (length raw)) _ _ s s' tt e₁ in
      let e₃ = loaded _ st s s' tt saved e₂ in
      let code = normalize_plus_code-coarse os raw laws.uppers h.0 in
      leaves (codes "set-location" ∷ raw ∷ []) st (record st { current_location = coarse raw }) s s'
        (moves raw (without_plus raw) (without_plus-Stripped raw) (ground arith) (ground arith))
        (coarse-IsAscii raw h.0, ascii.1)
        (subst (λ c. save_state os (record st { current_location = c }) s ≡ (ok tt, s')) code e₃)
