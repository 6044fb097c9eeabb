-- ===== src/Client/Reader.antt =====
-- The reader goroutine of a Client: dispatch, and readLoop.
use simplex_go.Base.{
  ℕ, ◌≡◌, refl, ◌∙◌, ◌⊎◌, inl, inr, true, false, some, List, [], ◌∷◌, ◌++◌, ltb, Bool-cases,
  Option-cases, if_false, length, Bytes, bytes_eq, Error, Result-cases, within,
}
use simplex_go.Broker.{
  Message, BrokerMsg, decode_broker_msg, ids_msg, msg_msg, ok_msg, pong_msg, end_msg, err_msg,
}
use simplex_go.Block.{decode_block}
use simplex_go.Transmission.{no_corr_id, Transmission}
use simplex_go.Client.{
  Client, handle_read_error, deliver, push, respond, dispatch, dispatch_all, on_block, read_loop,
  answer, failure,
}
use simplex_go.Client.Shutdown.{
  IsWaiting, IsOpen, IsValid, settled, closed_chan, settle-waiting, close-open, shut_down-settles,
  Settled-IsValid,
}
use simplex_go.Channel.{
  Outcome, runs, try_send, lookup, Chan, Table, set, delete, on_channel, drop_key,
}
use simplex_go.Channel.Tables.{
  Every-lookup, Every-delete, Every-set, Every-set_kept, IsTable, IsDistinct-delete, Holds,
  delete-IsAbsent,
}

drained-delete_subs :
    (key : Bytes) (c : Client)
    → IsValid c
    → (c.closed ≡ false) ⊎ ((c.sent_cmds.entries ≡ []) × (delete key c.subs.entries ≡ []))
unfolding delete
drained-delete_subs key c v = elim v.drained [
  | inl alive ↦ inl alive
  | inr (p, q) ↦ inr (p, rw q refl)
]

drained-delete_cmds :
    (key : Bytes) (c : Client)
    → IsValid c
    → (c.closed ≡ false) ⊎ ((delete key c.sent_cmds.entries ≡ []) × (c.subs.entries ≡ []))
unfolding delete
drained-delete_cmds key c v = elim v.drained [
  | inl alive ↦ inl alive
  | inr (p, q) ↦ inr (rw p refl, q)
]

-- A change of a channel under its key, after which the key is deleted, keeps a table.
pub IsTable-finish :
    {A : Type 0} (P : Chan A → Type 0) (key : Bytes) (ch : ℕ) (x : Chan A) (t : Table A)
    → lookup key t.entries ≡ some ch
    → IsTable P t
    → IsTable P (drop_key key (record t { heap = set ch x t.heap }))
unfolding drop_key
IsTable-finish P key ch x t found h = record {
  every =
      Every-set P t.next ch x t.heap _ (delete-IsAbsent key t.entries ch h.distinct found)
        (Every-delete (Holds P t.next t.heap) key t.entries h.every);
  distinct = IsDistinct-delete key t.entries h.distinct;
}

pub IsTable-keep :
    {A : Type 0} (P : Chan A → Type 0) (ch : ℕ) (x : Chan A) (t : Table A)
    → P x
    → IsTable P t
    → IsTable P (record t { heap = set ch x t.heap })
IsTable-keep P ch x t kept h = record {
  every = Every-set_kept P t.next ch x t.heap t.entries kept h.every;
  distinct = h.distinct;
}

try_send-IsOpen :
    (m : Message) (c : Chan Message)
    → IsOpen c
    → (c' : Chan Message) × (try_send m c ≡ runs c') × IsOpen c'
unfolding try_send
try_send-IsOpen m c h = elim (Bool-cases (ltb (length c.buffer) c.capacity)) [
  | inl room ↦ (record c { buffer = c.buffer ++ (m ∷ []) }, rw (h, room), h)
  | inr full ↦ (c, rw (h, full), h)
]

-- The subscription's channel is open where its key is registered.
registered-IsOpen :
    (key : Bytes) (ch : ℕ) (c : Client)
    → IsValid c
    → lookup key c.subs.entries ≡ some ch
    → IsOpen (c.subs.heap ch)
registered-IsOpen key ch c v found =
    (Every-lookup (Holds IsOpen c.subs.next c.subs.heap) key c.subs.entries v.subs.every found).1

abbrev Runs : Outcome Client → Type 0
Runs o = (c' : Client) × (o ≡ runs c') × IsValid c'

deliver-Runs :
    (key : Bytes) (ch : ℕ) (msg : BrokerMsg) (c : Client)
    → IsValid c
    → lookup key c.subs.entries ≡ some ch
    → Runs (deliver key ch msg c)
unfolding deliver on_channel drop_key
deliver-Runs key ch (msg_msg m) c v found =
    let (x, e, h) = try_send-IsOpen m (c.subs.heap ch) (registered-IsOpen key ch c v found) in
    (
      record c { subs = record c.subs { heap = set ch x c.subs.heap } },
      rw e,
      record {
        sent_cmds = v.sent_cmds;
        subs = IsTable-keep IsOpen ch x c.subs h v.subs;
        drained = v.drained;
      },
    )
deliver-Runs key ch end_msg c v found =
    let x = closed_chan (c.subs.heap ch) in
    (
      record c { subs = drop_key key (record c.subs { heap = set ch x c.subs.heap }) },
      rw (close-open (c.subs.heap ch) (registered-IsOpen key ch c v found)),
      record {
        sent_cmds = v.sent_cmds;
        subs = IsTable-finish IsOpen key ch x c.subs found v.subs;
        drained = drained-delete_subs key c v;
      },
    )
deliver-Runs key ch (ids_msg m) c v found = (c, refl, v)
deliver-Runs key ch ok_msg c v found = (c, refl, v)
deliver-Runs key ch pong_msg c v found = (c, refl, v)
deliver-Runs key ch (err_msg t d) c v found = (c, refl, v)

push-Runs : (key : Bytes) (msg : BrokerMsg) (c : Client) → IsValid c → Runs (push key msg c)
unfolding push
push-Runs key msg c v = elim (Option-cases (lookup key c.subs.entries)) [
  | inl missing ↦ (c, rw (missing, push), v)
  | inr (ch, found) ↦
      let (c', e, v') = deliver-Runs key ch msg c v found in (c', rw (found, push) e, v')
]

-- The client after the answer to the command in flight with the channel ch.
abbrev pub answered : Bytes → ℕ → BrokerMsg → Client → Client
answered cid ch msg c = record c {
  sent_cmds =
      drop_key cid (record c.sent_cmds { heap = set ch (settled (answer msg)) c.sent_cmds.heap });
}

pub respond-eq-answered :
    (cid : Bytes) (ch : ℕ) (msg : BrokerMsg) (c : Client)
    → IsValid c
    → lookup cid c.sent_cmds.entries ≡ some ch
    → respond cid msg c ≡ runs (answered cid ch msg c)
unfolding respond on_channel
respond-eq-answered cid ch msg c v found =
    let state =
      Every-lookup (Holds IsWaiting c.sent_cmds.next c.sent_cmds.heap) cid c.sent_cmds.entries
        v.sent_cmds.every found in
    rw (found, respond, settle-waiting (answer msg) (c.sent_cmds.heap ch) state.1)

answered-IsValid :
    (cid : Bytes) (ch : ℕ) (msg : BrokerMsg) (c : Client)
    → IsValid c
    → lookup cid c.sent_cmds.entries ≡ some ch
    → IsValid (answered cid ch msg c)
unfolding drop_key
answered-IsValid cid ch msg c v found = record {
  sent_cmds = IsTable-finish IsWaiting cid ch (settled (answer msg)) c.sent_cmds found v.sent_cmds;
  subs = v.subs;
  drained = drained-delete_cmds cid c v;
}

respond-Runs : (cid : Bytes) (msg : BrokerMsg) (c : Client) → IsValid c → Runs (respond cid msg c)
unfolding respond
respond-Runs cid msg c v = elim (Option-cases (lookup cid c.sent_cmds.entries)) [
  | inl missing ↦ (c, rw (missing, respond), v)
  | inr (ch, found) ↦ (
    answered cid ch msg c,
    respond-eq-answered cid ch msg c v found,
    answered-IsValid cid ch msg c v found,
  )
]

-- On a valid client, whatever the transmission is, dispatch runs to its end: it does not send on or
-- close a closed channel and does not block on a full one while it holds the lock. The client is
-- valid afterwards.
pub dispatch-runs :
    (ver : ℕ) (tx : Transmission) (c : Client)
    → IsValid c
    → (c' : Client) × (dispatch ver tx c ≡ runs c') × IsValid c'
unfolding dispatch
dispatch-runs ver tx c v = elim (Result-cases (decode_broker_msg ver tx.command)) [
  | inr (e, bad) ↦ (c, rw bad, v)
  | inl (msg, good) ↦ elim (Bool-cases (bytes_eq tx.corr_id no_corr_id)) [
    | inl event ↦ let (c', e, v') = push-Runs tx.entity_id msg c v in (c', rw (good, event) e, v')
    | inr response ↦
        let (c', e, v') = respond-Runs tx.corr_id msg c v in (c', rw (good, response) e, v')
  ]
]

dispatch_all-Runs :
    (ver : ℕ) (txs : List Transmission) (c : Client) → IsValid c → Runs (dispatch_all ver txs c)
unfolding dispatch_all
dispatch_all-Runs ver [] c v = (c, refl, v)
dispatch_all-Runs ver (tx ∷ txs) c v =
    let (c₁, e₁, v₁) = dispatch-runs ver tx c v in
    let (c₂, e₂, v₂) = dispatch_all-Runs ver txs c₁ v₁ in (c₂, rw e₁ e₂, v₂)

on_block-Runs :
    (ver : ℕ) (sess_id block : Bytes) (c : Client) → IsValid c → Runs (on_block ver sess_id block c)
unfolding on_block
on_block-Runs ver s block c v = elim (Result-cases (decode_block ver s block)) [
  | inr (e, bad) ↦ (c, rw bad, v)
  | inl (txs, good) ↦ let (c', e, v') = dispatch_all-Runs ver txs c v in (c', rw good e, v')
]

-- A valid client is closed and has nothing registered after a read error.
pub handle_read_error-runs :
    (e : Error) (c : Client)
    → IsValid c
    → (c' : Client) × (handle_read_error e c ≡ runs c') × IsValid c' × (c'.closed ≡ true)
unfolding handle_read_error
handle_read_error-runs e c v = elim (Bool-cases c.closed) [
  | inl done ↦ (c, rw done, v, done)
  | inr alive ↦
      let r = failure (within "smp: read" e) in
      let (c', p, s) = shut_down-settles r c v in
      (c', if_false c.closed _ _ alive ∙ p, Settled-IsValid r c c' s, s.closed)
]

-- On a valid client readLoop, alone with the client, runs to its end whatever the blocks are that
-- the server sends before the read that fails: no panic and no block on a channel. The client is
-- then closed, valid, and has no command in flight and no subscription.
pub read_loop-runs :
    (ver : ℕ) (sess_id : Bytes) (blocks' : List Bytes) (e : Error) (c : Client)
    → IsValid c
    → (c' : Client) × (read_loop ver sess_id blocks' e c ≡ runs c')
      × IsValid c'
      × (c'.closed ≡ true)
      × (c'.sent_cmds.entries ≡ [])
      × (c'.subs.entries ≡ [])
unfolding read_loop
read_loop-runs ver s [] e c v =
    let (c', p, v', closed) = handle_read_error-runs e c v in
    let none_left : (c'.sent_cmds.entries ≡ []) × (c'.subs.entries ≡ []) = elim v'.drained [
      | inl alive ↦ absurd (cc (closed, alive))
      | inr gone ↦ gone
    ] in
    (c', p, v', closed, none_left.0, none_left.1)
read_loop-runs ver s (block ∷ bs) e c v =
    let (c₁, e₁, v₁) = on_block-Runs ver s block c v in
    let r = read_loop-runs ver s bs e c₁ v₁ in (r.0, rw e₁ r.1, r.2, r.3, r.4, r.5)
