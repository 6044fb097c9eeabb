-- ===== src/Client/Subscription/Tables.antt =====
-- What others do to a table of channels leaves a channel alone.
use simplex_go.Base.{
  ℕ, ◌<◌, ◌≡◌, refl, sym, ◌∙◌, subst, ◌≢◌, inl, inr, some, [], ◌∷◌, arith, Bool-cases, Bytes,
  bytes_eq, bytes_eq_iff, bytes_eq-ne,
}
use simplex_go.Channel.{
  Chan, Outcome, and_then, make, Entries, lookup, Table, set, insert, drop_key, on_channel, runs,
  panics, blocks,
}
use simplex_go.Channel.Tables.{IsAbsent, IsDistinct, Every-lookup, Every-delete, set-other}
use simplex_go.Client.Waiting.{lookup-delete_other}

-- The channel has this state, and is registered under the key.
pub record Held {A : Type 0} (key : Bytes) (ch : ℕ) (x : Chan A) (t : Table A) : Type 0 where
  pub entry : lookup key t.entries ≡ some ch
  pub state : t.heap ch ≡ x
  pub made : ch < t.next

-- The channel has this state, and is not registered.
pub record Loose {A : Type 0} (ch : ℕ) (x : Chan A) (t : Table A) : Type 0 where
  pub absent : IsAbsent ch t.entries
  pub state : t.heap ch ≡ x
  pub made : ch < t.next

-- What changes of other channels, under the keys of K, keep.
pub record Untouched {A : Type 0} (K : Bytes → Type 0) (ch : ℕ) (Q : Table A → Type 0)
    : Type 0 where
  pub sets :
      (n : ℕ) (y : Chan A) (t : Table A) → n ≢ ch → Q t → Q (record t { heap = set n y t.heap })
  pub drops : (k : Bytes) (t : Table A) → K k → Q t → Q (drop_key k t)
  pub inserts : (k : Bytes) (capacity : ℕ) (t : Table A) → K k → Q t → Q (insert k capacity t)

module _ {A : Type 0} where
  Held-insert :
      (key k : Bytes) (ch capacity : ℕ) (x : Chan A) (t : Table A)
      → k ≢ key
      → Held key ch x t
      → Held key ch x (insert k capacity t)
  unfolding insert lookup
  Held-insert key k ch capacity x t ne h = record {
    entry = rw (bytes_eq-ne k key ne) (lookup-delete_other key k t.entries ne ∙ h.entry);
    state = set-other t.next ch (make capacity) t.heap (λ e. ground (arith, h.made, e)) ∙ h.state;
    made = omega (arith, h.made);
  }

  Held-drop :
      (key k : Bytes) (ch : ℕ) (x : Chan A) (t : Table A)
      → k ≢ key
      → Held key ch x t
      → Held key ch x (drop_key k t)
  unfolding drop_key
  Held-drop key k ch x t ne h = record {
    entry = lookup-delete_other key k t.entries ne ∙ h.entry;
    state = h.state;
    made = h.made;
  }

  pub Held-Untouched :
      (key : Bytes) (ch : ℕ) (x : Chan A) → Untouched (λ k. k ≢ key) ch (Held key ch x)
  Held-Untouched key ch x = record {
    sets = λ n y t ne h. record {
      entry = h.entry;
      state = set-other n ch y t.heap (λ e. ne (sym e)) ∙ h.state;
      made = h.made;
    };
    drops = λ k t ne h. Held-drop key k ch x t ne h;
    inserts = λ k capacity t ne h. Held-insert key k ch capacity x t ne h;
  }

  Loose-insert :
      (k : Bytes) (ch capacity : ℕ) (x : Chan A) (t : Table A)
      → Loose ch x t
      → Loose ch x (insert k capacity t)
  unfolding insert
  Loose-insert k ch capacity x t h = record {
    absent = (λ e. ground (arith, h.made, e), Every-delete (λ n. n ≢ ch) k t.entries h.absent);
    state = set-other t.next ch (make capacity) t.heap (λ e. ground (arith, h.made, e)) ∙ h.state;
    made = omega (arith, h.made);
  }

  pub Loose-drop :
      (k : Bytes) (ch : ℕ) (x : Chan A) (t : Table A) → Loose ch x t → Loose ch x (drop_key k t)
  unfolding drop_key
  Loose-drop k ch x t h = record {
    absent = Every-delete (λ n. n ≢ ch) k t.entries h.absent;
    state = h.state;
    made = h.made;
  }

  pub Loose-Untouched : (ch : ℕ) (x : Chan A) → Untouched (λ k. Unit {0}) ch (Loose ch x)
  Loose-Untouched ch x = record {
    sets = λ n y t ne h. record {
      absent = h.absent;
      state = set-other n ch y t.heap (λ e. ne (sym e)) ∙ h.state;
      made = h.made;
    };
    drops = λ k t u h. Loose-drop k ch x t h;
    inserts = λ k capacity t u h. Loose-insert k ch capacity x t h;
  }

  -- An operation on a channel that runs.
  pub on_channel-eq-runs :
      (f : Chan A → Outcome (Chan A)) (n : ℕ) (t t' : Table A)
      → on_channel f n t ≡ runs t'
      → (y : Chan A) × (f (t.heap n) ≡ runs y) × (record t { heap = set n y t.heap } ≡ t')
  unfolding on_channel
  on_channel-eq-runs f n t t' e = from (f (t.heap n)) e refl
    where
      from :
          (o : Outcome (Chan A))
          → and_then o (λ c. runs (record t { heap = set n c t.heap })) ≡ runs t'
          → f (t.heap n) ≡ o
          → (y : Chan A) × (f (t.heap n) ≡ runs y) × (record t { heap = set n y t.heap } ≡ t')
      from (runs y) e same = (y, same, cc e)
      from panics e same = cc e
      from blocks e same = cc e

-- Two keys with different entries: where no channel stands twice, they are different channels.
pub lookup-differ :
    (key k : Bytes) (es : Entries) (ch n : ℕ)
    → IsDistinct es
    → k ≢ key
    → lookup key es ≡ some ch
    → lookup k es ≡ some n
    → n ≢ ch
unfolding lookup
lookup-differ key k [] ch n d ne e f = cc e
lookup-differ key k ((k', m) ∷ es) ch n d ne e f = elim (Bool-cases (bytes_eq k' key)) [
  | inl here ↦
      let at_key = (bytes_eq_iff k' key).0 here in
      let not_k = bytes_eq-ne k' k (λ s. ne (sym s ∙ at_key)) in
      let later : lookup k es ≡ some n = rw not_k at f in
      let first : some m ≡ some ch = rw here at e in
      let at_ch : m ≡ ch = cc first in
      subst (λ x. n ≢ x) at_ch (Every-lookup (λ x. x ≢ m) k es d.0 later)
  | inr later ↦
      let rest : lookup key es ≡ some ch = rw later at e in
      elim (Bool-cases (bytes_eq k' k)) [
        | inl here ↦
            let first : some m ≡ some n = rw here at f in
            let at_n : m ≡ n = cc first in
            λ same. Every-lookup (λ x. x ≢ m) key es d.0 rest (sym same ∙ sym at_n)
        | inr differs ↦ lookup-differ key k es ch n d.1 ne rest (rw differs at f)
      ]
]
