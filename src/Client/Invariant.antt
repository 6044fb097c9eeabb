-- ===== src/Client/Invariant.antt =====
-- Every step keeps the invariant of a Client.
use simplex_go.Base.{
  ℕ, ◌≡◌, refl, sym, ap, ◌∙◌, subst, ◌≢◌, inl, inr, false, List, [], ◌∷◌, ◌++◌, ltb, Bool-cases,
  Option-cases, if_false, length, Bytes, client_closed, sentinel, ok,
}
use simplex_go.Broker.{Message}
use simplex_go.Client.{
  BrokerResult, Client, close_client, register, forget, subscribe, unsubscribe, close_sub,
  push_first, failure,
}
use simplex_go.Channel.{
  Chan, Outcome, and_then, send, close, lookup, delete, set, insert, drop_key, on_channel, runs,
  panics, blocks,
}
use simplex_go.Channel.Tables.{
  Every-map, IsTable-drop_key, IsTable-insert, IsTable-set_absent, Holds, IsAbsent,
}
use simplex_go.Client.Shutdown.{IsWaiting, IsOpen, IsValid, shut_down-settles, Settled-IsValid}
use simplex_go.Client.Reader.{dispatch-runs, handle_read_error-runs, IsTable-keep}
use simplex_go.Client.Steps.{
  take_result, take_message, Step, Reachable, dispatches, read_fails, closes, registers, forgets,
  receives, subscribes, unsubscribes, abandons, pushes, reads, start, next,
}

runs-injective : {c c' : Client} → runs c ≡ runs c' → c ≡ c'
runs-injective e = cc

-- A section that runs to a valid client, as the step says it does.
ran-IsValid :
    {o : Outcome Client} {c' : Client}
    → ((d : Client) × (o ≡ runs d) × IsValid d)
    → o ≡ runs c'
    → IsValid c'
ran-IsValid (d, e, v) h = subst IsValid (runs-injective (sym e ∙ h)) v

close_client-runs :
    (c : Client) → IsValid c → (c' : Client) × (close_client c ≡ runs c') × IsValid c'
unfolding close_client
close_client-runs c v = elim (Bool-cases c.closed) [
  | inl done ↦ (c, rw done, v)
  | inr alive ↦
      let r = failure (sentinel client_closed) in
      let (c', p, s) = shut_down-settles r c v in
      (c', if_false c.closed _ _ alive ∙ p, Settled-IsValid r c c' s)
]

pub register-IsValid :
    (cid : Bytes) (c c' : Client) (ch : ℕ) → IsValid c → register cid c ≡ (ok ch, c') → IsValid c'
unfolding register
register-IsValid cid c c' ch v e = elim (Bool-cases c.closed) [
  | inl done ↦ cc (rw done at e)
  | inr alive ↦
      let same : record c { sent_cmds = insert cid 1 c.sent_cmds } ≡ c' =
        cc (sym (if_false c.closed _ _ alive) ∙ e) in
      subst IsValid same (record {
        sent_cmds =
            IsTable-insert IsWaiting cid 1 c.sent_cmds
              (record { still_open = refl; empty = refl; room = refl }) v.sent_cmds;
        subs = v.subs;
        drained = inl alive;
      })
]

subscribe-IsValid :
    (key : Bytes) (c c' : Client) (ch : ℕ) → IsValid c → subscribe key c ≡ (ok ch, c') → IsValid c'
unfolding subscribe
subscribe-IsValid key c c' ch v e = elim (Bool-cases c.closed) [
  | inl done ↦ cc (rw done at e)
  | inr alive ↦ elim (Option-cases (lookup key c.subs.entries)) [
    | inr (old, taken) ↦ cc (rw (alive, taken, subscribe) at e)
    | inl fresh ↦
        let same : record c { subs = insert key 32 c.subs } ≡ c' =
          cc (rw (alive, fresh, subscribe) at e) in
        subst IsValid same (record {
          sent_cmds = v.sent_cmds;
          subs = IsTable-insert IsOpen key 32 c.subs refl v.subs;
          drained = inl alive;
        })
  ]
]

pub forget-IsValid : (cid : Bytes) (c : Client) → IsValid c → IsValid (forget cid c)
unfolding forget drop_key delete
forget-IsValid cid c v = record {
  sent_cmds = IsTable-drop_key IsWaiting cid c.sent_cmds v.sent_cmds;
  subs = v.subs;
  drained = elim v.drained [ inl alive ↦ inl alive | inr (p, q) ↦ inr (rw p refl, q) ];
}

unsubscribe-IsValid : (key : Bytes) (c : Client) → IsValid c → IsValid (unsubscribe key c)
unfolding unsubscribe drop_key delete
unsubscribe-IsValid key c v = record {
  sent_cmds = v.sent_cmds;
  subs = IsTable-drop_key IsOpen key c.subs v.subs;
  drained = elim v.drained [ inl alive ↦ inl alive | inr (p, q) ↦ inr (p, rw q refl) ];
}

send-IsOpen : (m : Message) (x y : Chan Message) → send m x ≡ runs y → IsOpen y
unfolding send
send-IsOpen m x y e = elim (Bool-cases x.closed) [
  | inl done ↦ cc (rw done at e)
  | inr alive ↦ elim (Bool-cases (ltb (length x.buffer) x.capacity)) [
    | inr full ↦ cc (rw (alive, full) at e)
    | inl room ↦
        let sent : Chan Message = record {
          buffer = x.buffer ++ (m ∷ []);
          capacity = x.capacity;
          closed = false;
        } in
        let same : runs sent ≡ runs y = rw (alive, room) at e in
        let state : sent ≡ y = cc same in subst IsOpen state refl
  ]
]

-- A channel operation outside of the lock that ends has changed that channel alone.
on_subs :
    (o : Outcome (Chan Message)) (ch : ℕ) (c c' : Client)
    → and_then
        (and_then o λ x. runs (record c.subs { heap = set ch x c.subs.heap }))
        (λ subs. runs (record c { subs = subs }))
      ≡ runs c'
    → (x : Chan Message) × (o ≡ runs x)
      × (record c { subs = record c.subs { heap = set ch x c.subs.heap } } ≡ c')
on_subs (runs x) ch c c' e = (x, refl, runs-injective e)
on_subs panics ch c c' e = cc
on_subs blocks ch c c' e = cc

abandons-IsValid :
    (ch : ℕ) (c c' : Client)
    → IsValid c
    → IsAbsent ch c.subs.entries
    → close_sub ch c ≡ runs c'
    → IsValid c'
unfolding close_sub on_channel
abandons-IsValid ch c c' v absent e =
    let (x, _, same) = on_subs (close (c.subs.heap ch)) ch c c' e in
    subst IsValid same (record {
      sent_cmds = v.sent_cmds;
      subs = IsTable-set_absent IsOpen ch x c.subs absent v.subs;
      drained = v.drained;
    })

pushes-IsValid :
    (ch : ℕ) (m : Message) (c c' : Client) → IsValid c → push_first ch m c ≡ runs c' → IsValid c'
unfolding push_first on_channel
pushes-IsValid ch m c c' v e =
    let (x, sent, same) = on_subs (send m (c.subs.heap ch)) ch c c' e in
    subst IsValid same (record {
      sent_cmds = v.sent_cmds;
      subs = IsTable-keep IsOpen ch x c.subs (send-IsOpen m (c.subs.heap ch) x sent) v.subs;
      drained = v.drained;
    })

-- A channel from which a result can be taken is not registered any more.
receives-IsValid :
    (ch : ℕ) (r : BrokerResult) (rest : List BrokerResult) (c : Client)
    → IsValid c
    → (c.sent_cmds.heap ch).buffer ≡ r ∷ rest
    → IsValid (take_result ch rest c)
receives-IsValid ch r rest c v full =
    let absent : IsAbsent ch c.sent_cmds.entries =
      Every-map (Holds IsWaiting c.sent_cmds.next c.sent_cmds.heap) (λ n. n ≢ ch)
        (λ n q same.
          empty-full (sym q.1.empty ∙ ap (λ (k : ℕ). (c.sent_cmds.heap k).buffer) same ∙ full))
        c.sent_cmds.entries v.sent_cmds.every in
    record {
      sent_cmds =
          IsTable-set_absent IsWaiting ch (record (c.sent_cmds.heap ch) { buffer = rest })
            c.sent_cmds absent v.sent_cmds;
      subs = v.subs;
      drained = v.drained;
    }
  where
    empty-full : ◌≡◌ {A = List BrokerResult} [] (r ∷ rest) → ⊥
    empty-full p = cc

reads-IsValid :
    (ch : ℕ) (rest : List Message) (c : Client) → IsValid c → IsValid (take_message ch rest c)
reads-IsValid ch rest c v = elim (Bool-cases (c.subs.heap ch).closed) [
  | inr alive ↦ record {
    sent_cmds = v.sent_cmds;
    subs = IsTable-keep IsOpen ch (record (c.subs.heap ch) { buffer = rest }) c.subs alive v.subs;
    drained = v.drained;
  }
  | inl done ↦
      let absent : IsAbsent ch c.subs.entries =
        Every-map (Holds IsOpen c.subs.next c.subs.heap) (λ n. n ≢ ch)
          (λ n q same. cc (done, q.1, ap (λ (k : ℕ). (c.subs.heap k).closed) same)) c.subs.entries
          v.subs.every in
      record {
        sent_cmds = v.sent_cmds;
        subs =
            IsTable-set_absent IsOpen ch (record (c.subs.heap ch) { buffer = rest }) c.subs absent
              v.subs;
        drained = v.drained;
      }
]

pub Step-IsValid : (ver : ℕ) (c c' : Client) → Step ver c c' → IsValid c → IsValid c'
Step-IsValid ver c c' (dispatches tx e) v = ran-IsValid (dispatch-runs ver tx c v) e
Step-IsValid ver c c' (read_fails x e) v =
    let (d, p, w, _) = handle_read_error-runs x c v in ran-IsValid (d, p, w) e
Step-IsValid ver c c' (closes e) v = ran-IsValid (close_client-runs c v) e
Step-IsValid ver c c' (registers cid ch e) v = register-IsValid cid c c' ch v e
Step-IsValid ver c _ (forgets cid) v = forget-IsValid cid c v
Step-IsValid ver c _ (receives ch r rest e) v = receives-IsValid ch r rest c v e
Step-IsValid ver c c' (subscribes key ch e) v = subscribe-IsValid key c c' ch v e
Step-IsValid ver c _ (unsubscribes key) v = unsubscribe-IsValid key c v
Step-IsValid ver c c' (abandons ch absent e) v = abandons-IsValid ch c c' v absent e
Step-IsValid ver c c' (pushes ch m e) v = pushes-IsValid ch m c c' v e
Step-IsValid ver c _ (reads ch m rest e) v = reads-IsValid ch rest c v

-- Whatever the goroutines do, in any order, from a new client on: every command in flight has a
-- channel that is open and empty and has room for its one result, every subscription has an open
-- channel, no channel is registered twice, and a client that is closed has nothing registered.
pub Reachable-IsValid : (ver : ℕ) (c : Client) → Reachable ver c → IsValid c
Reachable-IsValid ver _ start = record {
  sent_cmds = record { every = tt; distinct = tt };
  subs = record { every = tt; distinct = tt };
  drained = inl refl;
}
Reachable-IsValid ver c' (next r s) = Step-IsValid ver _ c' s (Reachable-IsValid ver _ r)
