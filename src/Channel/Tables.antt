-- ===== src/Channel/Tables.antt =====
-- Maps of channels in which no channel stands twice.
use simplex_go.Base.{
  ℕ, suc, ◌<◌, ◌≡◌, sym, subst, ◌≢◌, inl, inr, some, [], ◌∷◌, arith, ◌==◌, ==_iff, ==_self,
  Bool-cases, All, Bytes, bytes_eq,
}
use simplex_go.Channel.{Chan, make, Entries, lookup, delete, Table, set, insert, drop_key}

-- Every channel of the entries satisfies Q.
abbrev pub Every : (ℕ → Type 0) → Entries → Type 0
Every Q = All (λ e. Q e.1)

-- The channel is not among those of the entries.
abbrev pub IsAbsent : ℕ → Entries → Type 0
IsAbsent ch = Every (λ n. n ≢ ch)

-- No channel stands twice.
abbrev pub IsDistinct : Entries → Type 0
IsDistinct [] = Unit {0}
IsDistinct ((k, ch) ∷ es) = IsAbsent ch es × IsDistinct es

pub Every-map :
    (Q R : ℕ → Type 0) → ((n : ℕ) → Q n → R n) → (es : Entries) → Every Q es → Every R es
Every-map Q R f [] h = tt
Every-map Q R f ((k, ch) ∷ es) h = (f ch h.0, Every-map Q R f es h.1)

pub Every-delete :
    (Q : ℕ → Type 0) (key : Bytes) (es : Entries) → Every Q es → Every Q (delete key es)
unfolding delete
Every-delete Q key [] h = tt
Every-delete Q key ((k, ch) ∷ es) h = elim (Bool-cases (bytes_eq k key)) [
  | inl same ↦ rw same (Every-delete Q key es h.1)
  | inr new ↦ rw new (h.0, Every-delete Q key es h.1)
]

pub IsDistinct-delete : (key : Bytes) (es : Entries) → IsDistinct es → IsDistinct (delete key es)
unfolding delete
IsDistinct-delete key [] h = tt
IsDistinct-delete key ((k, ch) ∷ es) h = elim (Bool-cases (bytes_eq k key)) [
  | inl same ↦ rw same (IsDistinct-delete key es h.1)
  | inr new ↦ rw new (Every-delete (λ n. n ≢ ch) key es h.0, IsDistinct-delete key es h.1)
]

pub Every-lookup :
    (Q : ℕ → Type 0) (key : Bytes) (es : Entries) {ch : ℕ}
    → Every Q es
    → lookup key es ≡ some ch
    → Q ch
unfolding lookup
Every-lookup Q key [] h e = cc
Every-lookup Q key ((k, n) ∷ es) h e = elim (Bool-cases (bytes_eq k key)) [
  | inl same ↦ subst Q (some-injective (rw same at e)) h.0
  | inr new ↦ Every-lookup Q key es h.1 (rw new at e)
]
  where
    some-injective : {a b : ℕ} → some a ≡ some b → a ≡ b
    some-injective p = cc

-- After delete(m, key) the channel that stood under the key is no more among the entries.
pub delete-IsAbsent :
    (key : Bytes) (es : Entries) (ch : ℕ)
    → IsDistinct es
    → lookup key es ≡ some ch
    → IsAbsent ch (delete key es)
unfolding lookup delete
delete-IsAbsent key [] ch h e = tt
delete-IsAbsent key ((k, n) ∷ es) ch h e = elim (Bool-cases (bytes_eq k key)) [
  | inl same ↦
      let at_head : n ≡ ch = cc (rw same at e) in
      rw same (Every-delete (λ m. m ≢ ch) key es (subst (λ m. IsAbsent m es) at_head h.0))
  | inr new ↦
      let rest : lookup key es ≡ some ch = rw new at e in
      rw new
        (λ p. Every-lookup (λ m. m ≢ n) key es h.0 rest (sym p), delete-IsAbsent key es ch h.1 rest)
]

module _ {A : Type 0} where
  pub set-same : (ch : ℕ) (c : Chan A) (heap : ℕ → Chan A) → set ch c heap ch ≡ c
  unfolding set
  set-same ch c heap = rw (==_self ch)

  pub set-other : (ch n : ℕ) (c : Chan A) (heap : ℕ → Chan A) → n ≢ ch → set ch c heap n ≡ heap n
  unfolding set
  set-other ch n c heap differ = elim (Bool-cases (n == ch)) [
    | inl same ↦ absurd (differ ((==_iff n ch).0 same))
    | inr new ↦ rw new
  ]

  -- What holds of the channels' states, and that they were made.
  abbrev pub Holds : (Chan A → Type 0) → ℕ → (ℕ → Chan A) → ℕ → Type 0
  Holds P next heap n = (n < next) × P (heap n)

  pub record IsTable (P : Chan A → Type 0) (t : Table A) : Type 0 where
    pub every : Every (Holds P t.next t.heap) t.entries
    pub distinct : IsDistinct t.entries

  -- A change of a channel that is not among the entries does not touch them.
  pub Every-set :
      (P : Chan A → Type 0) (next ch : ℕ) (c : Chan A) (heap : ℕ → Chan A) (es : Entries)
      → IsAbsent ch es
      → Every (Holds P next heap) es
      → Every (Holds P next (set ch c heap)) es
  Every-set P next ch c heap [] absent h = tt
  Every-set P next ch c heap ((k, n) ∷ es) absent h = (
    (h.0.0, subst P (sym (set-other ch n c heap absent.0)) h.0.1),
    Every-set P next ch c heap es absent.1 h.1,
  )

  pub IsTable-drop_key :
      (P : Chan A → Type 0) (key : Bytes) (t : Table A) → IsTable P t → IsTable P (drop_key key t)
  unfolding drop_key
  IsTable-drop_key P key t h = record {
    every = Every-delete (Holds P t.next t.heap) key t.entries h.every;
    distinct = IsDistinct-delete key t.entries h.distinct;
  }

  pub IsTable-insert :
      (P : Chan A → Type 0) (key : Bytes) (capacity : ℕ) (t : Table A)
      → P (make capacity)
      → IsTable P t
      → IsTable P (insert key capacity t)
  unfolding insert
  IsTable-insert P key capacity t fresh h =
      let below : Every (Holds P t.next t.heap) (delete key t.entries) =
        Every-delete (Holds P t.next t.heap) key t.entries h.every in
      let absent : IsAbsent t.next (delete key t.entries) =
        Every-map (Holds P t.next t.heap) (λ n. n ≢ t.next) (λ n q same. ground (arith, q.0, same))
          _ below in
      record {
        every = (
          (omega arith, subst P (sym (set-same t.next (make capacity) t.heap)) fresh),
          Every-map (Holds P t.next (set t.next (make capacity) t.heap))
              (Holds P (suc t.next) (set t.next (make capacity) t.heap))
              (λ n q. (omega (arith, q.0), q.1)) _
              (Every-set P t.next t.next (make capacity) t.heap _ absent below),
        );
        distinct = (absent, IsDistinct-delete key t.entries h.distinct);
      }

  -- An operation on a channel that is not among the entries keeps the table.
  pub IsTable-set_absent :
      (P : Chan A → Type 0) (ch : ℕ) (c : Chan A) (t : Table A)
      → IsAbsent ch t.entries
      → IsTable P t
      → IsTable P (record t { heap = set ch c t.heap })
  IsTable-set_absent P ch c t absent h = record {
    every = Every-set P t.next ch c t.heap t.entries absent h.every;
    distinct = h.distinct;
  }

  -- A change of a channel that keeps P keeps the table.
  pub Every-set_kept :
      (P : Chan A → Type 0) (next ch : ℕ) (c : Chan A) (heap : ℕ → Chan A) (es : Entries)
      → P c
      → Every (Holds P next heap) es
      → Every (Holds P next (set ch c heap)) es
  unfolding set
  Every-set_kept P next ch c heap [] kept h = tt
  Every-set_kept P next ch c heap ((k, n) ∷ es) kept h = (
    (h.0.0, elim (Bool-cases (n == ch)) [ inl same ↦ rw same kept | inr new ↦ rw new h.0.1 ]),
    Every-set_kept P next ch c heap es kept h.1,
  )
