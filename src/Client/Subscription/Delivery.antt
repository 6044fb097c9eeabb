-- ===== src/Client/Subscription/Delivery.antt =====
-- What the channel of a subscription holds, whatever the other goroutines have done.
use simplex_go.Base.{
  ℕ, ◌≡◌, refl, sym, ap, ◌∙◌, subst, ◌≢◌, inl, inr, true, none, some, List, [], ◌++◌, append-nil,
  if◌then◌else◌, Bool-cases, Bytes, bytes_eq, bytes_eq_iff, Result-cases, ok,
}
use simplex_go.Broker.{Message, BrokerMsg, decode_broker_msg, end_msg}
use simplex_go.Transmission.{Transmission, no_corr_id}
use simplex_go.Channel.{Chan, send, close, lookup, Table, drop_key, runs}
use simplex_go.Client.{
  BrokerResult, Client, shut_down, close_client, handle_read_error, push, dispatch, forget,
  unsubscribe, close_sub, push_first,
}
use simplex_go.Client.Shutdown.{IsValid, closed_chan}
use simplex_go.Client.Invariant.{Step-IsValid}
use simplex_go.Client.Steps.{
  Step, dispatches, read_fails, closes, registers, forgets, receives, subscribes, unsubscribes,
  abandons, pushes, reads,
}
use simplex_go.Client.Subscription.Tables.{Held, Loose, Held-Untouched, lookup-differ}
use simplex_go.Client.Subscription.Keeping.{
  respond-subs, register-subs, push-kept, subscribe-kept, op-kept,
}
use simplex_go.Client.Subscription.Moves.{Kept, unchanged, deliver-Kept, stop-Held, Step-Loose}
use simplex_go.Client.Subscription.Traces.{
  IsForeign, Trace, still, then_foreign, gained_of, gained, gained_in, delivered, Stops, HasStopped,
  filled,
}

Kept-map :
    {Why Why' : Type 0} (key : Bytes) (ch : ℕ) (ms : List Message) (t : Table Message)
    → (Why → Why')
    → Kept Why key ch ms t
    → Kept Why' key ch ms t
Kept-map key ch ms t f (inl h) = inl h
Kept-map key ch ms t f (inr (w, x, shut, loose)) = inr (f w, x, shut, loose)

-- What brings no message keeps the channel.
Held-Kept :
    {Why : Type 0} (key : Bytes) (ch : ℕ) (ms : List Message) (t : Table Message)
    → Held key ch (filled ms) t
    → Kept Why key ch (ms ++ []) t
Held-Kept {Why} key ch ms t h = subst (λ l. Kept Why key ch l t) (sym (append-nil ms)) (inl h)

push-Kept :
    (key : Bytes) (ch : ℕ) (ms : List Message) (msg : BrokerMsg) (c c' : Client)
    → IsValid c
    → push key msg c ≡ runs c'
    → Held key ch (filled ms) c.subs
    → Kept (msg ≡ end_msg) key ch (ms ++ gained_of (ok msg) true) c'.subs
unfolding push
push-Kept key ch ms msg c c' v e h = deliver-Kept key ch ms msg c c' v (rw (h.entry, push) at e) h

dispatch-Kept :
    (ver : ℕ) (tx : Transmission) (key : Bytes) (ch : ℕ) (ms : List Message) (c c' : Client)
    → IsValid c
    → dispatch ver tx c ≡ runs c'
    → Held key ch (filled ms) c.subs
    → Kept
        ((tx.corr_id ≡ no_corr_id)
          × (tx.entity_id ≡ key)
          × (decode_broker_msg ver tx.command ≡ ok end_msg))
        key
        ch
        (ms ++ gained ver key tx)
        c'.subs
unfolding dispatch
dispatch-Kept ver tx key ch ms c c' v e h = elim (Result-cases (decode_broker_msg ver tx.command)) [
  | inr (y, bad) ↦ rw bad (unchanged key ch ms c c' (rw bad at e) h)
  | inl (msg, good) ↦ elim (Bool-cases (bytes_eq tx.corr_id no_corr_id)) [
    | inr response ↦
        rw (good, response)
          (Held-Kept key ch ms c'.subs (
            subst (Held key ch (filled ms))
              (respond-subs tx.corr_id msg c c' (rw (good, response) at e)) h))
    | inl event ↦
        let ran : push tx.entity_id msg c ≡ runs c' = rw (good, event) at e in
        let zero_id = (bytes_eq_iff tx.corr_id no_corr_id).0 event in
        elim (Bool-cases (bytes_eq tx.entity_id key)) [
          | inl here ↦
              let same = (bytes_eq_iff tx.entity_id key).0 here in
              let mine : push key msg c ≡ runs c' =
                subst (λ (k : Bytes). push k msg c ≡ runs c') same ran in
              rw (good, event, here)
                (Kept-map key ch _ c'.subs (λ is. (zero_id, same, ap ok is))
                  (push-Kept key ch ms msg c c' v mine h))
          | inr elsewhere ↦
              let differs : tx.entity_id ≢ key =
                λ s. cc (elsewhere, (bytes_eq_iff tx.entity_id key).1 s) in
              rw (good, event, elsewhere)
                (Held-Kept key ch ms c'.subs (
                  push-kept (λ k. k ≢ key) ch (Held key ch (filled ms))
                    (Held-Untouched key ch (filled ms)) tx.entity_id msg c c' differs
                    (λ n found.
                      lookup-differ key tx.entity_id c.subs.entries ch n v.subs.distinct differs
                        h.entry found)
                    ran h))
        ]
  ]
]

stop-Kept :
    {Why : Type 0} (r : BrokerResult) (key : Bytes) (ch : ℕ) (ms : List Message) (c c' : Client)
    → IsValid c
    → (if c.closed then runs c else shut_down r c) ≡ runs c'
    → Why
    → Held key ch (filled ms) c.subs
    → Kept Why key ch (ms ++ []) c'.subs
stop-Kept r key ch ms c c' v e why h = elim (stop-Held r key ch (filled ms) c c' v e h) [
  | inl held ↦ Held-Kept key ch ms c'.subs held
  | inr loose ↦ inr (why, closed_chan (filled ms), refl, loose)
]

Step-Kept :
    (ver : ℕ) (key : Bytes) (ch : ℕ) (ms : List Message) (c c' : Client) (s : Step ver c c')
    → IsForeign key ch s
    → IsValid c
    → Held key ch (filled ms) c.subs
    → Kept (Stops ver key s) key ch (ms ++ gained_in ver key s) c'.subs
unfolding handle_read_error close_client forget unsubscribe close_sub push_first drop_key
Step-Kept ver key ch ms c c' (dispatches tx e) o v h = dispatch-Kept ver tx key ch ms c c' v e h
Step-Kept ver key ch ms c c' (read_fails y e) o v h = stop-Kept _ key ch ms c c' v e tt h
Step-Kept ver key ch ms c c' (closes e) o v h = stop-Kept _ key ch ms c c' v e tt h
Step-Kept ver key ch ms c c' (registers cid n e) o v h =
    Held-Kept key ch ms c'.subs (subst (Held key ch (filled ms)) (register-subs cid n c c' e) h)
Step-Kept ver key ch ms c _ (forgets cid) o v h = Held-Kept key ch ms c.subs h
Step-Kept ver key ch ms c _ (receives n r rest e) o v h = Held-Kept key ch ms c.subs h
Step-Kept ver key ch ms c c' (subscribes k n e) o v h = Held-Kept key ch ms c'.subs (
    subscribe-kept (λ k'. k' ≢ key) ch (Held key ch (filled ms)) (Held-Untouched key ch (filled ms))
      k n c c' (new_key k) e h)
  where
    new_key : (k : Bytes) → lookup k c.subs.entries ≡ none → k ≢ key
    new_key k fresh same =
        let clash : some ch ≡ none =
          sym h.entry ∙ ap (λ (x : Bytes). lookup x c.subs.entries) (sym same) ∙ fresh in
        cc clash
Step-Kept ver key ch ms c _ (unsubscribes k) o v h =
    Held-Kept key ch ms _ ((Held-Untouched key ch (filled ms)).drops k c.subs o h)
Step-Kept ver key ch ms c c' (abandons n absent e) o v h = Held-Kept key ch ms c'.subs (
    op-kept (λ k. k ≢ key) ch (Held key ch (filled ms)) (Held-Untouched key ch (filled ms)) close n
      c c' o e h)
Step-Kept ver key ch ms c c' (pushes n m e) o v h = Held-Kept key ch ms c'.subs (
    op-kept (λ k. k ≢ key) ch (Held key ch (filled ms)) (Held-Untouched key ch (filled ms)) (send m)
      n c c' o e h)
Step-Kept ver key ch ms c _ (reads n m rest e) o v h = Held-Kept key ch ms _ (
    (Held-Untouched key ch (filled ms)).sets n (record (c.subs.heap n) { buffer = rest }) c.subs o
      h)

pub Trace-IsValid :
    {ver : ℕ} {key : Bytes} {ch : ℕ} {c c' : Client}
    → Trace ver key ch c c'
    → IsValid c
    → IsValid c'
Trace-IsValid still v = v
Trace-IsValid {ver} (then_foreign t s o) v = Step-IsValid ver _ _ s (Trace-IsValid t v)

pub Trace-Loose :
    {ver : ℕ} {key : Bytes} {ch : ℕ} {c c' : Client} (x : Chan Message)
    → Trace ver key ch c c'
    → IsValid c
    → Loose ch x c.subs
    → Loose ch x c'.subs
Trace-Loose x still v h = h
Trace-Loose {ver} {key} {ch} x (then_foreign t s o) v h =
    Step-Loose ver key ch x _ _ s o (Trace-IsValid t v) (Trace-Loose x t v h)

-- From a registered channel that is empty: it is registered still and holds what was delivered, or
-- one of the steps has ended the subscription.
pub Trace-Kept :
    {ver : ℕ} {key : Bytes} {ch : ℕ} {c c' : Client} (t : Trace ver key ch c c')
    → IsValid c
    → Held key ch (filled []) c.subs
    → Kept (HasStopped t) key ch (delivered t) c'.subs
Trace-Kept still v h = inl h
Trace-Kept {ver} {key} {ch} (then_foreign t s o) v h = elim (Trace-Kept t v h) [
  | inl held ↦
      Kept-map key ch _ _ (λ w. inr w)
        (Step-Kept ver key ch (delivered t) _ _ s o (Trace-IsValid t v) held)
  | inr (why, x, shut, loose) ↦
      inr (inl why, x, shut, Step-Loose ver key ch x _ _ s o (Trace-IsValid t v) loose)
]
