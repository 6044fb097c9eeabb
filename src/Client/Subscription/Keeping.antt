-- ===== src/Client/Subscription/Keeping.antt =====
-- A step of another goroutine keeps what a subscription can count on.
use simplex_go.Base.{
  ℕ, zero, suc, ◌≡◌, refl, sym, ap, ◌∙◌, subst, ◌≢◌, inl, inr, true, false, none, some, List, [],
  ◌∷◌, ◌++◌, arith, ltb, if◌then◌else◌, Bool-cases, Option-cases, if_false, if_true, length, take,
  Bytes, ok,
}
use simplex_go.Broker.{Message, BrokerMsg, ids_msg, msg_msg, ok_msg, pong_msg, end_msg, err_msg}
use simplex_go.Channel.{
  Chan, Outcome, and_then, try_send, close, lookup, Table, set, insert, drop_key, on_channel, runs,
  panics, blocks,
}
use simplex_go.Client.{
  BrokerResult, Client, settle, deliver, push, respond, register, subscribe, answer,
}
use simplex_go.Client.Settling.{runs-injective}
use simplex_go.Client.Subscription.Tables.{Untouched, on_channel-eq-runs}
use simplex_go.Client.Subscription.Traces.{filled}

pub take-snoc {ℓ} :
    {A : Type ℓ} (n : ℕ) (xs : List A) (x : A)
    → take n (xs ++ (x ∷ []))
      ≡ (if ltb (length (take n xs)) n then take n xs ++ (x ∷ []) else take n xs)
take-snoc zero xs x = refl
take-snoc (suc zero) [] x = refl
take-snoc (suc (suc n)) [] x = let room : ltb 0 (suc (suc n)) ≡ true = ground arith in rw room refl
take-snoc (suc n) (y ∷ xs) x = elim (Bool-cases (ltb (length (take n xs)) n)) [
  | inl room ↦
      let room' : ltb (suc (length (take n xs))) (suc n) ≡ true = ground arith in
      rw room' (ap (λ r. y ∷ r) (take-snoc n xs x ∙ if_true _ _ _ room))
  | inr full ↦
      let full' : ltb (suc (length (take n xs))) (suc n) ≡ false = ground arith in
      rw full' (ap (λ r. y ∷ r) (take-snoc n xs x ∙ if_false _ _ _ full))
]

-- A message that is pushed to the subscription is kept, or dropped when 32 are waiting.
pub try_send-filled :
    (ms : List Message) (m : Message) → try_send m (filled ms) ≡ runs (filled (ms ++ (m ∷ [])))
unfolding try_send
try_send-filled ms m = elim (Bool-cases (ltb (length (take 32 ms)) 32)) [
  | inl room ↦ rw room (
      ap (λ b. runs (record (filled ms) { buffer = b }))
        (sym (take-snoc 32 ms m ∙ if_true _ _ _ room)))
  | inr full ↦ rw full (
      ap (λ b. runs (record (filled ms) { buffer = b }))
        (sym (take-snoc 32 ms m ∙ if_false _ _ _ full)))
]

-- An operation on the subscriptions alone.
on_subs-eq-runs :
    (o : Outcome (Table Message)) (f : Table Message → Table Message) (c c' : Client)
    → and_then o (λ subs. runs (record c { subs = f subs })) ≡ runs c'
    → (t : Table Message) × (o ≡ runs t) × (f t ≡ c'.subs)
on_subs-eq-runs (runs t) f c c' e = (t, refl, ap (λ (x : Client). x.subs) (runs-injective e))
on_subs-eq-runs panics f c c' e = cc e
on_subs-eq-runs blocks f c c' e = cc e

pub on_channel-subs :
    (op : Chan Message → Outcome (Chan Message)) (f : Table Message → Table Message) (n : ℕ)
    (c c' : Client)
    → and_then (on_channel op n c.subs) (λ subs. runs (record c { subs = f subs })) ≡ runs c'
    → (y : Chan Message) × (op (c.subs.heap n) ≡ runs y)
      × (f (record c.subs { heap = set n y c.subs.heap }) ≡ c'.subs)
on_channel-subs op f n c c' e =
    let (t, made, same) = on_subs-eq-runs (on_channel op n c.subs) f c c' e in
    let (y, done, is) = on_channel-eq-runs op n c.subs t made in (y, done, ap f is ∙ same)

-- An operation on the commands alone.
on_sent-subs :
    (o : Outcome (Table BrokerResult)) (f : Table BrokerResult → Table BrokerResult) (c c' : Client)
    → and_then o (λ t. runs (record c { sent_cmds = f t })) ≡ runs c'
    → c.subs ≡ c'.subs
on_sent-subs (runs t) f c c' e = ap (λ (x : Client). x.subs) (runs-injective e)
on_sent-subs panics f c c' e = cc e
on_sent-subs blocks f c c' e = cc e

pub respond-subs :
    (key : Bytes) (msg : BrokerMsg) (c c' : Client) → respond key msg c ≡ runs c' → c.subs ≡ c'.subs
unfolding respond
respond-subs key msg c c' e = elim (Option-cases (lookup key c.sent_cmds.entries)) [
  | inl missing ↦
      let same : runs c ≡ runs c' = rw (missing, respond) at e in
      ap (λ (x : Client). x.subs) (runs-injective same)
  | inr (n, found) ↦
      on_sent-subs (on_channel (settle (answer msg)) n c.sent_cmds) (drop_key key) c c'
        (rw (found, respond) at e)
]

pub register-subs :
    (cid : Bytes) (n : ℕ) (c c' : Client) → register cid c ≡ (ok n, c') → c.subs ≡ c'.subs
unfolding register
register-subs cid n c c' e = elim (Bool-cases c.closed) [
  | inl done ↦ cc (rw done at e)
  | inr alive ↦ cc (rw alive at e)
]

module _ (K : Bytes → Type 0) (ch : ℕ) (Q : Table Message → Type 0) (keep : Untouched K ch Q) where
  deliver-kept :
      (k : Bytes) (n : ℕ) (msg : BrokerMsg) (c c' : Client)
      → K k
      → n ≢ ch
      → deliver k n msg c ≡ runs c'
      → Q c.subs
      → Q c'.subs
  unfolding deliver
  deliver-kept k n (msg_msg m) c c' allowed ne e h =
      let (y, _, same) = on_channel-subs (try_send m) (λ t. t) n c c' e in
      subst Q same (keep.sets n y c.subs ne h)
  deliver-kept k n end_msg c c' allowed ne e h =
      let (y, _, same) = on_channel-subs close (drop_key k) n c c' e in
      subst Q same (keep.drops k _ allowed (keep.sets n y c.subs ne h))
  deliver-kept k n (ids_msg m) c c' allowed ne e h =
      subst Q (ap (λ (x : Client). x.subs) (runs-injective e)) h
  deliver-kept k n ok_msg c c' allowed ne e h =
      subst Q (ap (λ (x : Client). x.subs) (runs-injective e)) h
  deliver-kept k n pong_msg c c' allowed ne e h =
      subst Q (ap (λ (x : Client). x.subs) (runs-injective e)) h
  deliver-kept k n (err_msg t d) c c' allowed ne e h =
      subst Q (ap (λ (x : Client). x.subs) (runs-injective e)) h

  pub push-kept :
      (k : Bytes) (msg : BrokerMsg) (c c' : Client)
      → K k
      → ((n : ℕ) → lookup k c.subs.entries ≡ some n → n ≢ ch)
      → push k msg c ≡ runs c'
      → Q c.subs
      → Q c'.subs
  unfolding push
  push-kept k msg c c' allowed apart e h = elim (Option-cases (lookup k c.subs.entries)) [
    | inl missing ↦
        let same : runs c ≡ runs c' = rw (missing, push) at e in
        subst Q (ap (λ (x : Client). x.subs) (runs-injective same)) h
    | inr (n, found) ↦ deliver-kept k n msg c c' allowed (apart n found) (rw (found, push) at e) h
  ]

  pub subscribe-kept :
      (k : Bytes) (n : ℕ) (c c' : Client)
      → (lookup k c.subs.entries ≡ none → K k)
      → subscribe k c ≡ (ok n, c')
      → Q c.subs
      → Q c'.subs
  unfolding subscribe
  subscribe-kept k n c c' allowed e h = elim (Bool-cases c.closed) [
    | inl done ↦ cc (rw done at e)
    | inr alive ↦ elim (Option-cases (lookup k c.subs.entries)) [
      | inr (old, taken) ↦ cc (rw (alive, taken, subscribe) at e)
      | inl fresh ↦
          let same : insert k 32 c.subs ≡ c'.subs = cc (rw (alive, fresh, subscribe) at e) in
          subst Q same (keep.inserts k 32 c.subs (allowed fresh) h)
    ]
  ]

  -- abandons and pushes.
  pub op-kept :
      (op : Chan Message → Outcome (Chan Message)) (n : ℕ) (c c' : Client)
      → n ≢ ch
      → and_then (on_channel op n c.subs) (λ subs. runs (record c { subs = subs })) ≡ runs c'
      → Q c.subs
      → Q c'.subs
  op-kept op n c c' ne e h =
      let (y, _, same) = on_channel-subs op (λ t. t) n c c' e in
      subst Q same (keep.sets n y c.subs ne h)
