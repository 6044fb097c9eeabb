-- ===== src/Client/Subscription/Sending.antt =====
-- The send of Subscribe, as steps that are foreign to the subscription.
use simplex_go.Base.{
  ℕ, ◌<◌, ◌≡◌, refl, sym, ap, ◌∙◌, subst, inl, inr, Option, List, ◌∷◌, Bool-cases, if_false,
  if_true, Bytes, Result, ok, err,
}
use simplex_go.Command.{Command}
use simplex_go.Client.{BrokerResult, Client, register}
use simplex_go.Client.Steps.{take_result, registers, forgets, receives}
use simplex_go.Client.Send.{
  Selected, received, done, World, send_block, sent, send, selected, written, registered,
}
use simplex_go.Client.Subscription.Traces.{Trace, then_foreign, chained}

-- The select of send: the others take steps, and then a result is received, or the context is done.
abbrev pub SelectsFor : (ver : ℕ) (key : Bytes) (sub n : ℕ) → Client → Selected → Client → Type 0
SelectsFor ver key sub n c (received r) c' =
    (d : Client) × (rest : List BrokerResult) × Trace ver key sub c d
    × ((d.sent_cmds.heap n).buffer ≡ r ∷ rest)
    × (c' ≡ take_result n rest d)
SelectsFor ver key sub n c (done e) c' = Trace ver key sub c c'

-- The other goroutines, to a subscription: from any state in which its channel has been made, while
-- Subscribe writes, waits or pauses, the client changes by steps that are foreign to it.
pub record IsFairTo {S : Type 0} (world : World S) (pause : Client × S → Client × S) (ver : ℕ)
    (key : Bytes) (sub : ℕ) : Type 0 where
  pub writes :
      (block : Bytes) (w : Client × S)
      → sub < w.0.subs.next
      → Trace ver key sub w.0 (world.write_block block w).1.0
  pub selects :
      (n : ℕ) (w : Client × S)
      → sub < w.0.subs.next
      → let r = world.select n w in SelectsFor ver key sub n w.0 r.0 r.1.0
  pub pauses : (w : Client × S) → sub < w.0.subs.next → Trace ver key sub w.0 (pause w).0

module _ {S : Type 0} (world : World S) (pause : Client × S → Client × S) (ver : ℕ) (key : Bytes)
    (sub : ℕ) (fair : IsFairTo world pause ver key sub) (from : Client)
    (made : (d : Client) → Trace ver key sub from d → sub < d.subs.next) where
  -- The steps from the first state to this one.
  abbrev To : Client → Type 0
  To c = Trace ver key sub from c

  selected-Trace :
      (cid : Bytes) (n : ℕ) (c : Client) (x : Selected) (w : Client × S)
      → To c
      → SelectsFor ver key sub n c x w.0
      → To (selected world cid x w).1.0
  selected-Trace cid n c (done e) w before t = then_foreign (chained before t) (forgets cid) tt
  selected-Trace cid n c (received r) w before (d, rest, t, full, same) =
      subst To (sym same) (then_foreign (chained before t) (receives n r rest full) tt)

  written-Trace :
      (cid : Bytes) (n : ℕ) (r : Result (Unit {0})) (w : Client × S)
      → To w.0
      → To (written world cid n r w).1.0
  written-Trace cid n (err e) w before = then_foreign before (forgets cid) tt
  written-Trace cid n (ok u) w before =
      let r = world.select n w in
      selected-Trace cid n w.0 r.0 r.1 before (fair.selects n w (made _ before))

  registered-Trace :
      (cid block : Bytes) (r : Result ℕ × Client) (c : Client) (s : S)
      → To c
      → register cid c ≡ r
      → To (registered world cid block r.0 (r.1, s)).1.0
  unfolding register
  registered-Trace cid block (err e, c') c s before h = elim (Bool-cases c.closed) [
    | inl stopped ↦
        let ran = sym (if_true c.closed _ _ stopped) ∙ h in
        let same : c ≡ c' = ap (λ p. p.1) ran in subst To same before
    | inr alive ↦ cc (sym (if_false c.closed _ _ alive) ∙ h)
  ]
  registered-Trace cid block (ok n, c') c s before h =
      let w = world.write_block block (c', s) in
      let now = then_foreign before (registers cid n h) tt in
      written-Trace cid n w.0 w.1 (chained now (fair.writes block (c', s) (made _ now)))

  sent-Trace :
      (r : Result (Bytes × Bytes)) (c : Client) (s : S) → To c → To (sent world r (c, s)).1.0
  sent-Trace (err e) c s before = before
  sent-Trace (ok (cid, block)) c s before =
      registered-Trace cid block (register cid c) c s before refl

  -- Whatever send comes to, it and the others have taken steps that are foreign to the subscription.
  pub send-Trace :
      (sess_id : Bytes) (sign_key : Option (Bytes → Bytes → Result Bytes)) (entity_id : Bytes)
      (cmd : Command) (corr : Result Bytes) (c : Client) (s : S)
      → Trace ver key sub from c
      → Trace ver key sub from (send world ver sess_id sign_key entity_id cmd corr (c, s)).1.0
  unfolding send
  send-Trace sess_id sign_key entity_id cmd corr c s before =
      sent-Trace (send_block ver sess_id sign_key entity_id cmd corr) c s before
