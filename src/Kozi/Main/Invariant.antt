-- ===== src/Kozi/Main/Invariant.antt =====
-- The saved state over many runs of the program.
use simplex_go.Base.{
  ℕ, zero, suc, ◌≤◌, ◌≡◌, subst, List, [], ◌∷◌, arith, length, take, All, Bytes, ok,
}
use simplex_go.Kozi.{State, Os, parsed, load_state}
use simplex_go.Kozi.Buddies.{
  IsDistinct, IsDistinct-append, without_buddy-IsDistinct, HasOthers-is_paired,
  Removed-without_buddy,
}
use simplex_go.Kozi.Codes.{IsAscii}
use simplex_go.Kozi.Watch.{WatchConfig}
use simplex_go.Kozi.Main.{run_main}
use simplex_go.Kozi.Main.Changes.{IsAsciiState, Laws, Changes, stays, pairs, unpairs, moves}
use simplex_go.Kozi.Main.Effects.{IsOnce, run_main-Leaves}

-- No two buddies have the same name, and the location is coarse.
pub record IsSound (st : State) : Type 0 where
  pub distinct : IsDistinct st.buddies
  pub short : length st.current_location ≤ 6

length-take : (n : ℕ) (s : Bytes) → length (take n s) ≤ n
length-take zero s = omega arith
length-take (suc n) [] = omega arith
length-take (suc n) (b ∷ s) = omega (arith, length-take n s)

Changes-IsSound :
    {S : Type 0} (os : Os S) (args : List Bytes) (st st' : State)
    → Changes os st args st'
    → IsSound st
    → IsSound st'
Changes-IsSound os args st _ (stays _ reads) h = h
Changes-IsSound os args st _ (pairs name uri address named new parsed) h = record {
  distinct = IsDistinct-append _ st.buddies (HasOthers-is_paired name st.buddies new) h.distinct;
  short = h.short;
}
Changes-IsSound os args st _ (unpairs name bs found) h = record {
  distinct =
      (without_buddy-IsDistinct name st.buddies bs (Removed-without_buddy name st.buddies bs found)
        h.distinct).0;
  short = h.short;
}
Changes-IsSound os args st _ (moves raw code stripped low high) h = record {
  distinct = h.distinct;
  short = length-take 6 _;
}

module _ {S : Type 0} (os : Os S) (fires : ℕ) (cfg : WatchConfig S) where
  -- Runs of the program on these command lines, one after the other, all with the status 0.
  abbrev pub Runs : List (List Bytes) → S → S → Type 0
  Runs [] s s' = s ≡ s'
  Runs (args ∷ more) s s' = (s₁ : S) × (run_main os fires cfg args s ≡ (0, s₁)) × Runs more s₁ s'

  -- Any sequence of runs of kozi-cli that exit with 0, on ASCII arguments and none of them a watch,
  -- on a system that keeps files and JSON as documented and holds a state of ASCII texts: when no two
  -- buddies had the same name and the location was coarse, it is so in the state that the system
  -- holds afterwards.
  pub run_main-IsSound :
      (lines : List (List Bytes)) (st : State) (s s' : S)
      → Laws os
      → All (λ args. All IsAscii args × IsOnce args) lines
      → IsAsciiState st
      → IsSound st
      → load_state os s ≡ (ok st, s)
      → Runs lines s s'
      → (st' : State) × (load_state os s' ≡ (ok st', s')) × IsSound st'
  run_main-IsSound [] st s s' laws h ascii sound saved same =
      (st, subst (λ t. load_state os t ≡ (ok st, t)) same saved, sound)
  run_main-IsSound (args ∷ more) st s s' laws h ascii sound saved (s₁, ran, rest) =
      let (st₁, change, saved₁, ascii₁) =
        run_main-Leaves os fires cfg laws args st s s₁ h.0.0 h.0.1 ascii saved ran in
      run_main-IsSound more st₁ s₁ s' laws h.1 ascii₁ (Changes-IsSound os args st st₁ change sound)
        saved₁ rest
