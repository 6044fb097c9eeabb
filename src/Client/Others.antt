-- ===== src/Client/Others.antt =====
-- A step of another goroutine keeps what a waiting command can count on.
use simplex_go.Base.{
  ℕ, ◌≡◌, refl, sym, ap, ◌∙◌, subst, ◌≢◌, ◌⊎◌, inl, inr, false, none, some, if◌then◌else◌,
  Bool-cases, Option-cases, if_false, if_true, Bytes, bytes_eq, bytes_eq_self, Result-cases, ok,
}
use simplex_go.Broker.{
  Message, BrokerMsg, decode_broker_msg, ids_msg, msg_msg, ok_msg, pong_msg, end_msg, err_msg,
}
use simplex_go.Transmission.{no_corr_id, Transmission}
use simplex_go.Client.{
  BrokerResult, Client, shut_down, close_client, handle_read_error, deliver, push, dispatch,
  register, forget, subscribe, unsubscribe, close_sub, push_first, answer,
}
use simplex_go.Channel.{
  Outcome, and_then, send, try_send, close, lookup, Table, insert, drop_key, on_channel, runs,
  panics, blocks,
}
use simplex_go.Client.Shutdown.{IsWaiting, IsValid, settled}
use simplex_go.Channel.Tables.{Holds, Every-lookup}
use simplex_go.Client.Steps.{
  Step, dispatches, read_fails, closes, registers, forgets, receives, subscribes, unsubscribes,
  abandons, pushes, reads,
}
use simplex_go.Client.Invariant.{Step-IsValid, register-IsValid}
use simplex_go.Client.Waiting.{
  IsOther, Meanwhile, nothing, then_step, Gives, Came, Pending, Pending-drop_other,
  Pending-set_other, Pending-insert_other,
}
use simplex_go.Client.Settling.{runs-injective, shut_down-HasResult, respond-Pending}

-- An operation on the subscriptions leaves the commands alone.
on_subs-sent :
    (o : Outcome (Table Message)) (f : Table Message → Table Message) (c c' : Client)
    → and_then o (λ subs. runs (record c { subs = f subs })) ≡ runs c'
    → c.sent_cmds ≡ c'.sent_cmds
on_subs-sent (runs t) f c c' e = ap (λ (x : Client). x.sent_cmds) (runs-injective e)
on_subs-sent panics f c c' e = cc
on_subs-sent blocks f c c' e = cc

deliver-sent :
    (key : Bytes) (ch : ℕ) (msg : BrokerMsg) (c c' : Client)
    → deliver key ch msg c ≡ runs c'
    → c.sent_cmds ≡ c'.sent_cmds
unfolding deliver
deliver-sent key ch (msg_msg m) c c' e =
    on_subs-sent (on_channel (try_send m) ch c.subs) (λ t. t) c c' e
deliver-sent key ch end_msg c c' e = on_subs-sent (on_channel close ch c.subs) (drop_key key) c c' e
deliver-sent key ch (ids_msg m) c c' e = ap (λ (x : Client). x.sent_cmds) (runs-injective e)
deliver-sent key ch ok_msg c c' e = ap (λ (x : Client). x.sent_cmds) (runs-injective e)
deliver-sent key ch pong_msg c c' e = ap (λ (x : Client). x.sent_cmds) (runs-injective e)
deliver-sent key ch (err_msg t d) c c' e = ap (λ (x : Client). x.sent_cmds) (runs-injective e)

push-sent :
    (key : Bytes) (msg : BrokerMsg) (c c' : Client)
    → push key msg c ≡ runs c'
    → c.sent_cmds ≡ c'.sent_cmds
unfolding push
push-sent key msg c c' e = elim (Option-cases (lookup key c.subs.entries)) [
  | inl missing ↦
      let same : runs c ≡ runs c' = rw (missing, push) at e in
      ap (λ (x : Client). x.sent_cmds) (runs-injective same)
  | inr (ch, found) ↦ deliver-sent key ch msg c c' (rw (found, push) at e)
]

dispatch-Pending :
    {From : BrokerResult → Type 0} (ver : ℕ) (tx : Transmission) (cid : Bytes) (ch : ℕ)
    (c c' : Client)
    → IsValid c
    → dispatch ver tx c ≡ runs c'
    → ((msg : BrokerMsg)
        → tx.corr_id ≡ cid
        → decode_broker_msg ver tx.command ≡ ok msg
        → From (answer msg))
    → Pending From cid ch c.sent_cmds
    → Pending From cid ch c'.sent_cmds
unfolding dispatch
dispatch-Pending {From} ver tx cid ch c c' v e gives h =
    elim (Result-cases (decode_broker_msg ver tx.command)) [
      | inr (x, bad) ↦
          let same : runs c ≡ runs c' = rw bad at e in
          subst (λ (d : Client). Pending From cid ch d.sent_cmds) (runs-injective same) h
      | inl (msg, good) ↦ elim (Bool-cases (bytes_eq tx.corr_id no_corr_id)) [
        | inl event ↦
            subst (Pending From cid ch) (push-sent tx.entity_id msg c c' (rw (good, event) at e)) h
        | inr response ↦
            respond-Pending cid tx.corr_id ch msg c c' v (rw (good, response) at e)
              (λ same. gives msg same good) h
      ]
    ]

stop-Pending :
    {From : BrokerResult → Type 0} (r : BrokerResult) (cid : Bytes) (ch : ℕ) (c c' : Client)
    → IsValid c
    → (if c.closed then runs c else shut_down r c) ≡ runs c'
    → From r
    → Pending From cid ch c.sent_cmds
    → Pending From cid ch c'.sent_cmds
stop-Pending {From} r cid ch c c' v e given h = elim (Bool-cases c.closed) [
  | inl done ↦
      let same : runs c ≡ runs c' = sym (if_true c.closed _ _ done) ∙ e in
      subst (λ (d : Client). Pending From cid ch d.sent_cmds) (runs-injective same) h
  | inr alive ↦
      inr (shut_down-HasResult r cid ch c c' v (sym (if_false c.closed _ _ alive) ∙ e) given h)
]

register-Pending :
    {From : BrokerResult → Type 0} (key cid : Bytes) (n ch : ℕ) (c c' : Client)
    → key ≢ cid
    → register key c ≡ (ok n, c')
    → Pending From cid ch c.sent_cmds
    → Pending From cid ch c'.sent_cmds
unfolding register
register-Pending {From} key cid n ch c c' ne e h = elim (Bool-cases c.closed) [
  | inl done ↦ cc (rw done at e)
  | inr alive ↦
      let same : insert key 1 c.sent_cmds ≡ c'.sent_cmds =
        cc (sym (if_false c.closed _ _ alive) ∙ e) in
      subst (Pending From cid ch) same (Pending-insert_other cid key ch 1 c.sent_cmds ne h)
]

subscribe-sent :
    (key : Bytes) (n : ℕ) (c c' : Client)
    → subscribe key c ≡ (ok n, c')
    → c.sent_cmds ≡ c'.sent_cmds
unfolding subscribe
subscribe-sent key n c c' e = elim (Bool-cases c.closed) [
  | inl done ↦ cc (rw done at e)
  | inr alive ↦ elim (Option-cases (lookup key c.subs.entries)) [
    | inr (old, taken) ↦ cc (rw (alive, taken, subscribe) at e)
    | inl fresh ↦ cc (rw (alive, fresh, subscribe) at e)
  ]
]

Step-Pending :
    {From : BrokerResult → Type 0} (ver : ℕ) (cid : Bytes) (ch : ℕ) (c c' : Client)
    (s : Step ver c c')
    → IsOther cid ch s
    → ((r : BrokerResult) → Gives ver cid s r → From r)
    → IsValid c
    → Pending From cid ch c.sent_cmds
    → Pending From cid ch c'.sent_cmds
unfolding handle_read_error close_client forget unsubscribe close_sub push_first
Step-Pending {From} ver cid ch c c' (dispatches tx e) o gives v h =
    dispatch-Pending ver tx cid ch c c' v e
      (λ msg same good. gives (answer msg) (same, msg, good, refl)) h
Step-Pending {From} ver cid ch c c' (read_fails x e) o gives v h =
    stop-Pending _ cid ch c c' v e (gives _ refl) h
Step-Pending {From} ver cid ch c c' (closes e) o gives v h =
    stop-Pending _ cid ch c c' v e (gives _ refl) h
Step-Pending {From} ver cid ch c c' (registers key n e) o gives v h =
    register-Pending key cid n ch c c' o e h
Step-Pending {From} ver cid ch c _ (forgets key) o gives v h =
    Pending-drop_other cid key ch c.sent_cmds o h
Step-Pending {From} ver cid ch c _ (receives n r rest e) o gives v h =
    Pending-set_other cid ch n (record (c.sent_cmds.heap n) { buffer = rest }) c.sent_cmds o h
Step-Pending {From} ver cid ch c c' (subscribes key n e) o gives v h =
    subst (Pending From cid ch) (subscribe-sent key n c c' e) h
Step-Pending {From} ver cid ch c _ (unsubscribes key) o gives v h = h
Step-Pending {From} ver cid ch c c' (abandons n absent e) o gives v h =
    subst (Pending From cid ch) (on_subs-sent (on_channel close n c.subs) (λ t. t) c c' e) h
Step-Pending {From} ver cid ch c c' (pushes n m e) o gives v h =
    subst (Pending From cid ch) (on_subs-sent (on_channel (send m) n c.subs) (λ t. t) c c' e) h
Step-Pending {From} ver cid ch c _ (reads n m rest e) o gives v h = h

pub Meanwhile-IsValid :
    (ver : ℕ) (cid : Bytes) (ch : ℕ) (c c' : Client)
    → Meanwhile ver cid ch c c'
    → IsValid c
    → IsValid c'
Meanwhile-IsValid ver cid ch c _ nothing v = v
Meanwhile-IsValid ver cid ch c c' (then_step m s o) v =
    Step-IsValid ver _ c' s (Meanwhile-IsValid ver cid ch c _ m v)

pub Meanwhile-Pending :
    {From : BrokerResult → Type 0} (ver : ℕ) (cid : Bytes) (ch : ℕ) (c c' : Client)
    (m : Meanwhile ver cid ch c c')
    → ((r : BrokerResult) → Came ver cid ch m r → From r)
    → IsValid c
    → Pending From cid ch c.sent_cmds
    → Pending From cid ch c'.sent_cmds
Meanwhile-Pending ver cid ch c _ nothing came v h = h
Meanwhile-Pending ver cid ch c c' (then_step m s o) came v h =
    Step-Pending ver cid ch _ c' s o (λ r g. came r (inr g)) (Meanwhile-IsValid ver cid ch c _ m v)
      (Meanwhile-Pending ver cid ch c _ m (λ r g. came r (inl g)) v h)

pub register-Pending_self :
    {From : BrokerResult → Type 0} (cid : Bytes) (ch : ℕ) (c c' : Client)
    → register cid c ≡ (ok ch, c')
    → Pending From cid ch c'.sent_cmds
unfolding register insert lookup
register-Pending_self {From} cid ch c c' e = elim (Bool-cases c.closed) [
  | inl done ↦ cc (rw done at e)
  | inr alive ↦
      let ran = sym (if_false c.closed _ _ alive) ∙ e in
      let same : insert cid 1 c.sent_cmds ≡ c'.sent_cmds = cc ran in
      let fresh : c.sent_cmds.next ≡ ch = cc ran in
      subst (Pending From cid ch) same (inl (rw (bytes_eq_self cid) (ap some fresh)))
]

-- After send has registered its command on a valid client, and whatever the other goroutines do
-- then, in any order: either the client is still open and the command still registered on its
-- channel, which is open and empty and has room for the result, or the channel holds exactly one
-- result for send to receive, and one of their steps gave it: a reply with this correlation id was
-- dispatched and the result is its message, or the client was stopped and the result is the error of
-- that. So no result is lost, and once the client is closed send has one.
pub registered_wait_ends :
    (ver : ℕ) (cid : Bytes) (ch : ℕ) (c c₁ c₂ : Client)
    → IsValid c
    → register cid c ≡ (ok ch, c₁)
    → (m : Meanwhile ver cid ch c₁ c₂)
    → ((c₂.closed ≡ false)
        × (lookup cid c₂.sent_cmds.entries ≡ some ch)
        × IsWaiting (c₂.sent_cmds.heap ch))
      ⊎ ((r : BrokerResult) × (c₂.sent_cmds.heap ch ≡ settled r) × Came ver cid ch m r)
unfolding lookup
registered_wait_ends ver cid ch c c₁ c₂ v e m =
    let v₁ = register-IsValid cid c c₁ ch v e in
    let v₂ = Meanwhile-IsValid ver cid ch c₁ c₂ m v₁ in
    let pending =
      Meanwhile-Pending {From = Came ver cid ch m} ver cid ch c₁ c₂ m (λ r g. g) v₁
        (register-Pending_self cid ch c c₁ e) in
    elim pending [
      | inr h ↦ inr (h.result, h.state, h.from)
      | inl waiting ↦ elim v₂.drained [
        | inr gone ↦
            let missing : none ≡ some ch = ap (lookup cid) (sym gone.0) ∙ waiting in cc missing
        | inl alive ↦ inl (
          alive,
          waiting,
          (Every-lookup (Holds IsWaiting c₂.sent_cmds.next c₂.sent_cmds.heap) cid
              c₂.sent_cmds.entries v₂.sent_cmds.every waiting).1,
        )
      ]
    ]
