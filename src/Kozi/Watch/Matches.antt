-- ===== src/Kozi/Watch/Matches.antt =====
-- Who is notified of in a round.
use simplex_go.Base.{
  ◌≡◌, refl, sym, ap, ◌∙◌, subst, ◌⊎◌, inl, inr, false, none, some, List, [], ◌∷◌, ◌++◌, map,
  append-nil, append_assoc, if◌then◌else◌, Bool-cases, All, Bytes, bytes_eq, Error, Result, Op,
  within, ok, err,
}
use simplex_go.Kozi.{Buddy, State, Os}
use simplex_go.Kozi.Codes.{IsAscii, coarse, UppersAscii, normalize_plus_code-coarse}
use simplex_go.Kozi.Watch.{
  WatchConfig, Matches, title, body, is_nearby, notified, watch_buddies, watch_once,
}

abbrev pub names : List Buddy → List Bytes
names = map (λ b. b.name)

module _ {S : Type 0} (os : Os S) where
  -- The buddies that are nearby, in their order.
  unfoldable pub nearby : Bytes → List Buddy → List Buddy
  nearby my_grid [] = []
  nearby my_grid (b ∷ bs) =
      let rest = nearby my_grid bs in if is_nearby os my_grid b then b ∷ rest else rest

module _ {S : Type 0} (notify : Bytes → Bytes → Op S (Unit {0})) (my_grid : Bytes) where
  -- The notifications of these buddies succeed, one after the other.
  abbrev pub Notified : List Buddy → S → S → Type 0
  Notified [] s s' = s ≡ s'
  Notified (b ∷ bs) s s' =
      (s₁ : S) × (notify title (body my_grid b) s ≡ (ok tt, s₁)) × Notified bs s₁ s'

  -- All are notified of, or those before one of which the notification fails.
  abbrev pub Rounds : List Bytes → List Buddy → S → Matches × S → Type 0
  Rounds matches near s r =
      (Notified near s r.1 × (r.0 ≡ (matches ++ names near, none)))
      ⊎ ((before : List Buddy) × (b : Buddy) × (after : List Buddy) × (e : Error) × (s₁ : S) × (near
            ≡ before ++ (b ∷ after))
          × Notified before s s₁
          × (notify title (body my_grid b) s₁ ≡ (err e, r.1))
          × (r.0 ≡ (matches ++ names (before ++ (b ∷ [])), some (within "notify" e))))

  module _ (os : Os S) where
    after_notify :
        (b : Buddy) (bs : List Buddy) (matches : List Bytes) (s : S) (o : Result (Unit {0}) × S)
        → ((ms : List Bytes) (t : S)
            → Rounds ms (nearby os my_grid bs) t (watch_buddies os notify my_grid bs ms t))
        → notify title (body my_grid b) s ≡ o
        → Rounds matches
            (b ∷ nearby os my_grid bs)
            s
            (notified os (matches ++ (b.name ∷ [])) (watch_buddies os notify my_grid bs) o)
    after_notify b bs matches s (err e, s') each h =
        inr ([], b, nearby os my_grid bs, e, s, refl, refl, h, refl)
    after_notify b bs matches s (ok u, s') each h = elim (each (matches ++ (b.name ∷ [])) s') [
      | inl (all, same) ↦
          inl ((s', h, all), same ∙ ap (λ (x : List Bytes). (x, none)) (append_assoc matches _ _))
      | inr (before, c, after, e, s₁, split, sent, failed, same) ↦ inr (
        b ∷ before,
        c,
        after,
        e,
        s₁,
        ap (λ (x : List Buddy). b ∷ x) split,
        (s', h, sent),
        failed,
        same ∙ ap (λ (x : List Bytes). (x, some (within "notify" e))) (append_assoc matches _ _),
      )
    ]

    watch_buddies-Rounds :
        (bs : List Buddy) (matches : List Bytes) (s : S)
        → Rounds matches (nearby os my_grid bs) s (watch_buddies os notify my_grid bs matches s)
    unfolding watch_buddies nearby
    watch_buddies-Rounds [] matches s =
        inl (refl, ap (λ (x : List Bytes). (x, none)) (sym (append-nil matches)))
    watch_buddies-Rounds (b ∷ bs) matches s = elim (Bool-cases (is_nearby os my_grid b)) [
      | inr far ↦ rw far (watch_buddies-Rounds bs matches s)
      | inl near ↦ rw near (
          after_notify b bs matches s (notify title (body my_grid b) s) (watch_buddies-Rounds bs)
            refl)
    ]

-- The buddies that have been seen, and with the coarse code of this location, in their order.
unfoldable pub neighbours : Bytes → List Buddy → List Buddy
neighbours location [] = []
neighbours location (b ∷ bs) =
    let rest = neighbours location bs in
    if bytes_eq b.last_seen_grid []
    then rest
    else if bytes_eq (coarse b.last_seen_grid) (coarse location)
    then b ∷ rest
    else rest

nearby-neighbours :
    {S : Type 0} (os : Os S) (location : Bytes) (bs : List Buddy)
    → UppersAscii os
    → All (λ b. IsAscii b.last_seen_grid) bs
    → nearby os (coarse location) bs ≡ neighbours location bs
unfolding nearby neighbours is_nearby
nearby-neighbours os location [] uppers h = refl
nearby-neighbours os location (b ∷ bs) uppers h =
    let rest = nearby-neighbours os location bs uppers h.1 in
    elim (Bool-cases (bytes_eq b.last_seen_grid [])) [
      | inl unseen ↦ rw unseen rest
      | inr seen ↦
          rw (seen, normalize_plus_code-coarse os b.last_seen_grid uppers h.0)
            (elim (Bool-cases (bytes_eq (coarse b.last_seen_grid) (coarse location))) [
              | inl same ↦ rw same (ap (λ (x : List Buddy). b ∷ x) rest)
              | inr differs ↦ rw differs rest
            ])
    ]

-- A round with a notifier and a location is the loop over the buddies.
watch_once-watch_buddies :
    {S : Type 0} (os : Os S) (cfg : WatchConfig S) (notify : Bytes → Bytes → Op S (Unit {0}))
    (st : State) (s : S)
    → UppersAscii os
    → cfg.notifier ≡ some notify
    → bytes_eq st.current_location [] ≡ false
    → IsAscii st.current_location
    → watch_once os cfg st s ≡ watch_buddies os notify (coarse st.current_location) st.buddies [] s
unfolding watch_once
watch_once-watch_buddies os cfg notify st s uppers given located here =
    rw (given, watch_once, located, normalize_plus_code-coarse os st.current_location uppers here)
      refl

-- A round of the watch with a notifier and a location, on ASCII codes: in the order of the state, it
-- notifies of each buddy that has been seen with the same six-character code as the location and of
-- nobody else, and returns their names; or one notification fails, and then it returns at once with
-- that error and the names up to that one.
pub watch_once-Rounds :
    {S : Type 0} (os : Os S) (cfg : WatchConfig S) (notify : Bytes → Bytes → Op S (Unit {0}))
    (st : State) (s : S)
    → UppersAscii os
    → cfg.notifier ≡ some notify
    → bytes_eq st.current_location [] ≡ false
    → IsAscii st.current_location
    → All (λ b. IsAscii b.last_seen_grid) st.buddies
    → Rounds notify
        (coarse st.current_location)
        []
        (neighbours st.current_location st.buddies)
        s
        (watch_once os cfg st s)
watch_once-Rounds os cfg notify st s uppers given located here grids =
    let grid = coarse st.current_location in
    let round = watch_buddies-Rounds notify grid os st.buddies [] s in
    let near = nearby-neighbours os st.current_location st.buddies uppers grids in
    let ran = watch_once-watch_buddies os cfg notify st s uppers given located here in
    subst (Rounds notify grid [] (neighbours st.current_location st.buddies) s) (sym ran) (
      subst (λ bs. Rounds notify grid [] bs s (watch_buddies os notify grid st.buddies [] s)) near
        round)
