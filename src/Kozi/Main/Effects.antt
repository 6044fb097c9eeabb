-- ===== src/Kozi/Main/Effects.antt =====
-- What the runs of the program make of the saved state.
use simplex_go.Base.{
  ℕ, ◌≡◌, sym, ap, ◌∙◌, subst, ◌≢◌, inl, inr, Bool, true, false, List, [], ◌∷◌, if◌then◌else◌,
  Bool-cases, All, Bytes, codes, bytes_eq, bytes_eq_iff, Result, ok, err,
}
use simplex_go.Kozi.{State, Os, load_state, cmd_list}
use simplex_go.Kozi.Codes.{IsAscii}
use simplex_go.Kozi.Watch.{WatchConfig}
use simplex_go.Kozi.Main.{exited, run_main}
use simplex_go.Kozi.Main.Changes.{
  IsAsciiState, Laws, IsReading, stays, Leaves, loaded, cmd_pair-Leaves, cmd_unpair-Leaves,
  cmd_set_location-Leaves,
}

-- A command line that is no watch.
abbrev pub IsOnce : List Bytes → Type 0
IsOnce [] = Unit {0}
IsOnce (name ∷ args) = bytes_eq name (codes "proximity-watch") ≡ false

differs : (name word : Bytes) → bytes_eq name word ≡ false → name ≢ word
differs name word h same = cc (h, (bytes_eq_iff name word).1 same)

-- The branches of main that only print.
printed_only :
    {S : Type 0} (help version : Bool) (s s' : S)
    → ◌≡◌ {A = ℕ × S} (if help then (0, s) else if version then (0, s) else (2, s)) (0, s')
    → s ≡ s'
printed_only {S = S} true version s s' e = ap (λ (p : ℕ × S). p.1) e
printed_only {S = S} false true s s' e = ap (λ (p : ℕ × S). p.1) e
printed_only false false s s' e = cc e

module _ {S : Type 0} (os : Os S) (fires : ℕ) (cfg : WatchConfig S) where
  exited-eq-zero :
      (r : Result (Unit {0}) × S) (s' : S) → exited os fires cfg r ≡ (0, s') → r ≡ (ok tt, s')
  exited-eq-zero (ok u, s) s' e = ap (λ (p : ℕ × S). (ok tt, p.1)) e
  exited-eq-zero (err x, s) s' e = cc e

  module _ (laws : Laws os) where
    same_state :
        (st : State) (s s' : S)
        → IsAsciiState st
        → load_state os s ≡ (ok st, s)
        → s ≡ s'
        → (args : List Bytes) → IsReading args
        → Leaves os laws args st s'
    same_state st s s' ascii saved same args reads =
        (st, stays args reads, subst (λ t. load_state os t ≡ (ok st, t)) same saved, ascii)

    cmd_list-Leaves :
        (args : List Bytes) (st : State) (s s' : S)
        → IsAsciiState st
        → load_state os s ≡ (ok st, s)
        → cmd_list os args s ≡ (ok tt, s')
        → (line : List Bytes) → IsReading line
        → Leaves os laws line st s'
    unfolding cmd_list
    cmd_list-Leaves (extra ∷ more) st s s' ascii saved e line reads = cc e
    cmd_list-Leaves [] st s s' ascii saved e line reads =
        let ran = loaded os laws _ st s s' tt saved e in
        same_state st s s' ascii saved (ap (λ p. p.1) ran) line reads

    as_named :
        (name word : Bytes) (args : List Bytes) (st : State) (s' : S)
        → bytes_eq name word ≡ true
        → Leaves os laws (word ∷ args) st s'
        → Leaves os laws (name ∷ args) st s'
    as_named name word args st s' same h =
        subst (λ k. Leaves os laws (k ∷ args) st s') (sym ((bytes_eq_iff name word).0 same)) h

    -- A run of kozi-cli on ASCII arguments that is no watch and exits with 0, on a system that keeps
    -- files and JSON as documented and holds a state of ASCII texts: afterwards it holds a state of
    -- ASCII texts, in which pair has added a buddy at the end, of the name given, which is not empty
    -- and was nobody's, with the address given and the secret of its queue; from which unpair has
    -- taken the first buddy of the name given, and nothing else; whose location set-location has made
    -- the first six characters of the code given, without its separators and in upper case; or which,
    -- after any other command, is as it was.
    pub run_main-Leaves :
        (args : List Bytes) (st : State) (s s' : S)
        → All IsAscii args
        → IsOnce args
        → IsAsciiState st
        → load_state os s ≡ (ok st, s)
        → run_main os fires cfg args s ≡ (0, s')
        → Leaves os laws args st s'
    unfolding run_main
    run_main-Leaves [] st s s' h once ascii saved e = cc e
    run_main-Leaves (name ∷ args) st s s' h once ascii saved e =
        elim (Bool-cases (bytes_eq name (codes "pair"))) [
          | inl a ↦ as_named name (codes "pair") args st s' a (
              cmd_pair-Leaves os laws args st s s' h.1 ascii saved
                (exited-eq-zero _ s' (rw a at e)))
          | inr a ↦ elim (Bool-cases (bytes_eq name (codes "list"))) [
            | inl b ↦
                let list : name ≡ codes "list" = (bytes_eq_iff name _).0 b in
                cmd_list-Leaves args st s s' ascii saved (exited-eq-zero _ s' (rw (a, b) at e))
                  (name ∷ args)
                  (λ x. cc (sym list ∙ x), λ x. cc (sym list ∙ x), λ x. cc (sym list ∙ x))
            | inr b ↦ elim (Bool-cases (bytes_eq name (codes "set-location"))) [
              | inl c ↦ as_named name (codes "set-location") args st s' c (
                  cmd_set_location-Leaves os laws args st s s' h.1 ascii saved
                    (exited-eq-zero _ s' (rw (a, b, c) at e)))
              | inr c ↦ elim (Bool-cases (bytes_eq name (codes "unpair"))) [
                | inl d ↦ as_named name (codes "unpair") args st s' d (
                    cmd_unpair-Leaves os laws args st s s' ascii saved
                      (exited-eq-zero _ s' (rw (a, b, c, once, d) at e)))
                | inr d ↦
                    same_state st s s' ascii saved
                      (printed_only _ _ s s' (rw (a, b, c, once, d) at e)) (name ∷ args)
                      (differs name _ a, differs name _ c, differs name _ d)
              ]
            ]
          ]
        ]
