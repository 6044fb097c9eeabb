-- ===== src/Channel/Drains.antt =====
-- The loops over a map of channels that empty it.
use simplex_go.Base.{ℕ, ◌≡◌, refl, sym, ap, ◌∙◌, ◌≢◌, [], ◌∷◌}
use simplex_go.Channel.{Chan, Outcome, runs, Entries, set, drain}
use simplex_go.Channel.Tables.{
  Every, IsAbsent, IsDistinct, Holds, Every-map, Every-set, set-same, set-other,
}

Every-both : (Q R : ℕ → Type 0) (es : Entries) → Every Q es → Every R es → Every (λ n. Q n × R n) es
Every-both Q R [] h g = tt
Every-both Q R ((k, n) ∷ es) h g = ((h.0, g.0), Every-both Q R es h.1 g.1)

module _ {A : Type 0} (P : Chan A → Type 0) (f : Chan A → Outcome (Chan A)) (g : Chan A → Chan A)
    (step : (c : Chan A) → P c → f c ≡ runs (g c)) where
  -- The loop applies f to each channel of the entries, once, and to no other.
  pub drain-runs :
      (next : ℕ) (es : Entries) (heap : ℕ → Chan A)
      → Every (Holds P next heap) es
      → IsDistinct es
      → (heap' : ℕ → Chan A) × (drain f es heap ≡ runs heap')
        × Every (λ n. heap' n ≡ g (heap n)) es
        × ((n : ℕ) → IsAbsent n es → heap' n ≡ heap n)
  unfolding drain
  drain-runs next [] heap h d = (heap, refl, tt, λ n a. refl)
  drain-runs next ((k, ch) ∷ es) heap h d =
      let heap₁ = set ch (g (heap ch)) heap in
      let (heap', e, each, others) =
        drain-runs next es heap₁ (Every-set P next ch (g (heap ch)) heap es d.0 h.1) d.1 in
      (
        heap',
        rw (step (heap ch) h.0.1) e,
        (
          others ch d.0 ∙ set-same ch (g (heap ch)) heap,
          Every-map (λ n. (n ≢ ch) × (heap' n ≡ g (heap₁ n))) (λ n. heap' n ≡ g (heap n))
              (λ n q. q.1 ∙ ap g (set-other ch n (g (heap ch)) heap q.0)) es
              (Every-both (λ n. n ≢ ch) (λ n. heap' n ≡ g (heap₁ n)) es d.0 each),
        ),
        λ n a. others n a.1 ∙ set-other ch n (g (heap ch)) heap (λ p. a.0 (sym p)),
      )
