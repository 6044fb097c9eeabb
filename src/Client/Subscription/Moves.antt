-- ===== src/Client/Subscription/Moves.antt =====
-- What each step of another goroutine makes of the channel of a subscription.
use simplex_go.Base.{
  ℕ, ◌≡◌, refl, sym, ap, ◌∙◌, subst, ◌≢◌, ◌⊎◌, inl, inr, true, List, [], ◌∷◌, ◌++◌, append-nil,
  if◌then◌else◌, Bool-cases, if_false, if_true, Bytes, bytes_eq, Result-cases, ok,
}
use simplex_go.Broker.{
  Message, BrokerMsg, decode_broker_msg, ids_msg, msg_msg, ok_msg, pong_msg, end_msg, err_msg,
}
use simplex_go.Transmission.{Transmission, no_corr_id}
use simplex_go.Channel.{Chan, send, try_send, close, Table, drop_key, drain_all, runs}
use simplex_go.Channel.Tables.{Every, IsAbsent, Every-lookup, delete-IsAbsent, set-same}
use simplex_go.Channel.Drains.{drain-runs}
use simplex_go.Client.{
  BrokerResult, Client, settle, shut_down, close_client, handle_read_error, deliver, dispatch,
  forget, unsubscribe, close_sub, push_first,
}
use simplex_go.Client.Shutdown.{
  IsWaiting, IsOpen, IsValid, settled, settle-waiting, closed_chan, close-open,
}
use simplex_go.Client.Steps.{
  Step, dispatches, read_fails, closes, registers, forgets, receives, subscribes, unsubscribes,
  abandons, pushes, reads,
}
use simplex_go.Client.Settling.{runs-injective}
use simplex_go.Client.Subscription.Tables.{Held, Loose, Loose-Untouched, Loose-drop}
use simplex_go.Client.Subscription.Keeping.{
  try_send-filled, on_channel-subs, respond-subs, register-subs, push-kept, subscribe-kept, op-kept,
}
use simplex_go.Client.Subscription.Traces.{IsForeign, gained_of, filled}

shut_down-subs :
    (r : BrokerResult) (c c' : Client)
    → IsValid c
    → shut_down r c ≡ runs c'
    → (heap : ℕ → Chan Message) × (record c.subs { entries = []; heap = heap } ≡ c'.subs)
      × Every (λ n. heap n ≡ closed_chan (c.subs.heap n)) c.subs.entries
      × ((n : ℕ) → IsAbsent n c.subs.entries → heap n ≡ c.subs.heap n)
unfolding shut_down drain_all
shut_down-subs r c c' v e =
    let (sent, p, _, _) =
      drain-runs IsWaiting (settle r) (λ x. settled r) (settle-waiting r) c.sent_cmds.next
        c.sent_cmds.entries c.sent_cmds.heap v.sent_cmds.every v.sent_cmds.distinct in
    let (subs, q, each, untouched) =
      drain-runs IsOpen close closed_chan close-open c.subs.next c.subs.entries c.subs.heap
        v.subs.every v.subs.distinct in
    let ran = rw (p, q) at e in
    (subs, ap (λ (x : Client). x.subs) (runs-injective ran), each, untouched)

pub stop-Held :
    (r : BrokerResult) (key : Bytes) (ch : ℕ) (x : Chan Message) (c c' : Client)
    → IsValid c
    → (if c.closed then runs c else shut_down r c) ≡ runs c'
    → Held key ch x c.subs
    → Held key ch x c'.subs ⊎ Loose ch (closed_chan x) c'.subs
stop-Held r key ch x c c' v e h = elim (Bool-cases c.closed) [
  | inl done ↦
      let same : runs c ≡ runs c' = sym (if_true c.closed _ _ done) ∙ e in
      inl (subst (Held key ch x) (ap (λ (d : Client). d.subs) (runs-injective same)) h)
  | inr alive ↦
      let (heap, same, each, _) = shut_down-subs r c c' v (sym (if_false c.closed _ _ alive) ∙ e) in
      inr (
        subst (Loose ch (closed_chan x)) same (record {
          absent = tt;
          state =
              Every-lookup (λ n. heap n ≡ closed_chan (c.subs.heap n)) key c.subs.entries each
                h.entry
              ∙ ap closed_chan h.state;
          made = h.made;
        }))
]

stop-Loose :
    (r : BrokerResult) (ch : ℕ) (x : Chan Message) (c c' : Client)
    → IsValid c
    → (if c.closed then runs c else shut_down r c) ≡ runs c'
    → Loose ch x c.subs
    → Loose ch x c'.subs
stop-Loose r ch x c c' v e h = elim (Bool-cases c.closed) [
  | inl done ↦
      let same : runs c ≡ runs c' = sym (if_true c.closed _ _ done) ∙ e in
      subst (Loose ch x) (ap (λ (d : Client). d.subs) (runs-injective same)) h
  | inr alive ↦
      let (heap, same, _, untouched) =
        shut_down-subs r c c' v (sym (if_false c.closed _ _ alive) ∙ e) in
      subst (Loose ch x) same
        (record { absent = tt; state = untouched ch h.absent ∙ h.state; made = h.made })
]

dispatch-Loose :
    (ver : ℕ) (tx : Transmission) (ch : ℕ) (x : Chan Message) (c c' : Client)
    → dispatch ver tx c ≡ runs c'
    → Loose ch x c.subs
    → Loose ch x c'.subs
unfolding dispatch
dispatch-Loose ver tx ch x c c' e h = elim (Result-cases (decode_broker_msg ver tx.command)) [
  | inr (y, bad) ↦
      let same : runs c ≡ runs c' = rw bad at e in
      subst (Loose ch x) (ap (λ (d : Client). d.subs) (runs-injective same)) h
  | inl (msg, good) ↦ elim (Bool-cases (bytes_eq tx.corr_id no_corr_id)) [
    | inl event ↦
        push-kept (λ k. Unit {0}) ch (Loose ch x) (Loose-Untouched ch x) tx.entity_id msg c c' tt
          (λ n found. Every-lookup (λ m. m ≢ ch) tx.entity_id c.subs.entries h.absent found)
          (rw (good, event) at e) h
    | inr response ↦
        subst (Loose ch x) (respond-subs tx.corr_id msg c c' (rw (good, response) at e)) h
  ]
]

-- An unregistered channel stays as it is.
pub Step-Loose :
    (ver : ℕ) (key : Bytes) (ch : ℕ) (x : Chan Message) (c c' : Client) (s : Step ver c c')
    → IsForeign key ch s
    → IsValid c
    → Loose ch x c.subs
    → Loose ch x c'.subs
unfolding handle_read_error close_client forget unsubscribe close_sub push_first
Step-Loose ver key ch x c c' (dispatches tx e) o v h = dispatch-Loose ver tx ch x c c' e h
Step-Loose ver key ch x c c' (read_fails y e) o v h = stop-Loose _ ch x c c' v e h
Step-Loose ver key ch x c c' (closes e) o v h = stop-Loose _ ch x c c' v e h
Step-Loose ver key ch x c c' (registers cid n e) o v h =
    subst (Loose ch x) (register-subs cid n c c' e) h
Step-Loose ver key ch x c _ (forgets cid) o v h = h
Step-Loose ver key ch x c _ (receives n r rest e) o v h = h
Step-Loose ver key ch x c c' (subscribes k n e) o v h =
    subscribe-kept (λ k'. Unit {0}) ch (Loose ch x) (Loose-Untouched ch x) k n c c' (λ f. tt) e h
Step-Loose ver key ch x c _ (unsubscribes k) o v h = Loose-drop k ch x c.subs h
Step-Loose ver key ch x c c' (abandons n absent e) o v h =
    op-kept (λ k. Unit {0}) ch (Loose ch x) (Loose-Untouched ch x) close n c c' o e h
Step-Loose ver key ch x c c' (pushes n m e) o v h =
    op-kept (λ k. Unit {0}) ch (Loose ch x) (Loose-Untouched ch x) (send m) n c c' o e h
Step-Loose ver key ch x c _ (reads n m rest e) o v h =
    (Loose-Untouched ch x).sets n (record (c.subs.heap n) { buffer = rest }) c.subs o h

-- The subscription is registered with these messages, or was ended with its channel closed.
abbrev pub Kept : Type 0 → Bytes → ℕ → List Message → Table Message → Type 0
Kept Why key ch ms t =
    Held key ch (filled ms) t ⊎ (Why × (x : Chan Message) × (x.closed ≡ true) × Loose ch x t)

pub unchanged :
    {Why : Type 0} (key : Bytes) (ch : ℕ) (ms : List Message) (c c' : Client)
    → runs c ≡ runs c'
    → Held key ch (filled ms) c.subs
    → Kept Why key ch (ms ++ []) c'.subs
unchanged {Why} key ch ms c c' e h =
    subst (λ l. Kept Why key ch l c'.subs) (sym (append-nil ms))
      (inl (subst (Held key ch (filled ms)) (ap (λ (d : Client). d.subs) (runs-injective e)) h))

-- A message for the subscription itself.
pub deliver-Kept :
    (key : Bytes) (ch : ℕ) (ms : List Message) (msg : BrokerMsg) (c c' : Client)
    → IsValid c
    → deliver key ch msg c ≡ runs c'
    → Held key ch (filled ms) c.subs
    → Kept (msg ≡ end_msg) key ch (ms ++ gained_of (ok msg) true) c'.subs
unfolding deliver drop_key
deliver-Kept key ch ms (msg_msg m) c c' v e h =
    let (y, sent, same) = on_channel-subs (try_send m) (λ t. t) ch c c' e in
    let now : runs (filled (ms ++ (m ∷ []))) ≡ runs y =
      sym (try_send-filled ms m) ∙ ap (try_send m) (sym h.state) ∙ sent in
    let is : filled (ms ++ (m ∷ [])) ≡ y = cc now in
    inl (
      subst (Held key ch (filled (ms ++ (m ∷ [])))) same
        (record { entry = h.entry; state = set-same ch y c.subs.heap ∙ sym is; made = h.made }))
deliver-Kept key ch ms end_msg c c' v e h =
    let (y, shut, same) = on_channel-subs close (drop_key key) ch c c' e in
    let now : runs (closed_chan (filled ms)) ≡ runs y =
      sym (close-open (filled ms) refl) ∙ ap close (sym h.state) ∙ shut in
    let is : closed_chan (filled ms) ≡ y = cc now in
    inr (
      refl,
      y,
      ap (λ (z : Chan Message). z.closed) (sym is),
      subst (Loose ch y) same (record {
        absent = delete-IsAbsent key c.subs.entries ch v.subs.distinct h.entry;
        state = set-same ch y c.subs.heap;
        made = h.made;
      }),
    )
deliver-Kept key ch ms (ids_msg m) c c' v e h = unchanged key ch ms c c' e h
deliver-Kept key ch ms ok_msg c c' v e h = unchanged key ch ms c c' e h
deliver-Kept key ch ms pong_msg c c' v e h = unchanged key ch ms c c' e h
deliver-Kept key ch ms (err_msg t d) c c' v e h = unchanged key ch ms c c' e h
