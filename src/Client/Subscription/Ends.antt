-- ===== src/Client/Subscription/Ends.antt =====
-- What Subscribe comes to after its send.
use simplex_go.Base.{
  ℕ, zero, suc, ◌≤◌, ◌<◌, ◌≡◌, refl, sym, ap, ◌∙◌, ◌⊎◌, inl, inr, true, List, [], ◌∷◌, ◌++◌, arith,
  ltb, Bool-cases, if_true, length, take, length-take, Bytes, Error, Result, ok, err,
}
use simplex_go.Broker.{Message, BrokerMsg, ids_msg, msg_msg, ok_msg, pong_msg, end_msg, err_msg}
use simplex_go.Channel
use simplex_go.Channel.{
  Chan, Outcome, and_then, send, close, Table, set, drop_key, on_channel, runs, panics, blocks,
}
use simplex_go.Channel.Tables.{delete-IsAbsent, set-same}
use simplex_go.Client.{Client, unsubscribe, close_sub, push_first}
use simplex_go.Client.Shutdown.{IsValid, closed_chan, close-open, close-closed}
use simplex_go.Client.Invariant.{Step-IsValid}
use simplex_go.Client.Steps.{unsubscribes}
use simplex_go.Client.Send.{World}
use simplex_go.Client.Subscription.{take_back, settle_sub}
use simplex_go.Client.Subscription.Keeping.{take-snoc}
use simplex_go.Client.Subscription.Tables.{Held, Loose, Loose-drop}
use simplex_go.Client.Subscription.Traces.{filled}
use simplex_go.Client.Subscription.Delivery.{Trace-Loose}
use simplex_go.Client.Subscription.Sending.{IsFairTo}

length-take_le {ℓ} : {A : Type ℓ} (n : ℕ) (xs : List A) → length (take n xs) ≤ length xs
length-take_le zero xs = omega arith
length-take_le (suc n) [] = omega arith
length-take_le (suc n) (x ∷ xs) = omega (arith, length-take_le n xs)

-- An operation on a channel whose state is known.
on_channel-at :
    (f : Chan Message → Outcome (Chan Message)) (n : ℕ) (t : Table Message) (x : Chan Message)
    → t.heap n ≡ x
    → on_channel f n t ≡ and_then (f x) (λ c. runs (record t { heap = set n c t.heap }))
unfolding on_channel
on_channel-at f n t x e = rw e refl

module _ {S : Type 0} (key : Bytes) (ch : ℕ) where
  -- The subscription was still there, with these messages delivered, when the answer was looked at.
  abbrev pub WhileHeld :
      List Message → Client × S → Result BrokerMsg → Outcome (Result ℕ × (Client × S)) → Type 0
  WhileHeld ms w (ok ok_msg) o = (o ≡ runs (ok ch, w)) × Held key ch (filled ms) w.0.subs
  WhileHeld ms w (ok (msg_msg m)) o =
      ((c : Client) × (length ms < 32)
        × (o ≡ runs (ok ch, (c, w.1)))
        × Held key ch (filled (ms ++ (m ∷ []))) c.subs)
      ⊎ ((32 ≤ length ms) × (o ≡ blocks))
  WhileHeld ms w r o =
      (e : Error) × (w' : Client × S) × (o ≡ runs (err e, w'))
      × Loose ch (closed_chan (filled ms)) w'.0.subs

  -- It had been ended.
  abbrev pub OnceStopped :
      Client × S → Result BrokerMsg → Outcome (Result ℕ × (Client × S)) → Type 0
  OnceStopped w (ok ok_msg) o =
      (o ≡ runs (ok ch, w)) × (x : Chan Message) × (x.closed ≡ true) × Loose ch x w.0.subs
  OnceStopped w r o = o ≡ panics

module _ {S : Type 0} (world : World S) (pause : Client × S → Client × S) (ver : ℕ) (key : Bytes)
    (ch : ℕ) (fair : IsFairTo world pause ver key ch) where
  take_back-Held :
      (ms : List Message) (e : Error) (w : Client × S)
      → IsValid w.0
      → Held key ch (filled ms) w.0.subs
      → (e' : Error) × (w' : Client × S) × (take_back world pause key ch e w ≡ runs (err e', w'))
        × Loose ch (closed_chan (filled ms)) w'.0.subs
  unfolding unsubscribe drop_key close_sub
  take_back-Held ms e w v h =
      let c₁ = unsubscribe key w.0 in
      let v₁ = Step-IsValid ver w.0 c₁ (unsubscribes key) v in
      let free : Loose ch (filled ms) c₁.subs = record {
        absent = delete-IsAbsent key w.0.subs.entries ch v.subs.distinct h.entry;
        state = h.state;
        made = h.made;
      } in
      let w₂ = pause (c₁, w.1) in
      let loose = Trace-Loose (filled ms) (fair.pauses (c₁, w.1) h.made) v₁ free in
      let shut = closed_chan (filled ms) in
      let c₃ : Client = record w₂.0 {
        subs = record w₂.0.subs { heap = set ch shut w₂.0.subs.heap };
      } in
      (
        e,
        (c₃, w₂.1),
        rw (on_channel-at close ch w₂.0.subs (filled ms) loose.state, close-open (filled ms) refl)
            refl,
        record {
          absent = loose.absent;
          state = set-same ch shut w₂.0.subs.heap;
          made = loose.made;
        },
      )

  take_back-Loose :
      (x : Chan Message) (e : Error) (w : Client × S)
      → IsValid w.0
      → x.closed ≡ true
      → Loose ch x w.0.subs
      → take_back world pause key ch e w ≡ panics
  unfolding unsubscribe close_sub drop_key
  take_back-Loose x e w v shut h =
      let c₁ = unsubscribe key w.0 in
      let v₁ = Step-IsValid ver w.0 c₁ (unsubscribes key) v in
      let w₂ = pause (c₁, w.1) in
      let loose =
        Trace-Loose x (fair.pauses (c₁, w.1) h.made) v₁ (Loose-drop key ch x w.0.subs h) in
      rw (on_channel-at close ch w₂.0.subs x loose.state, close-closed x shut) refl

  push_first-Held :
      (ms : List Message) (m : Message) (w : Client × S)
      → Held key ch (filled ms) w.0.subs
      → WhileHeld key ch ms w (ok (msg_msg m)) (settle_sub world pause key ch (ok (msg_msg m)) w)
  unfolding push_first Channel.send
  push_first-Held ms m w h =
      let moved = on_channel-at (Channel.send m) ch w.0.subs (filled ms) h.state in
      let cut = take-snoc 32 ms m in
      elim (Bool-cases (ltb (length (take 32 ms)) 32)) [
        | inr full ↦ inr (ground (arith, length-take_le 32 ms), rw (moved, full) refl)
        | inl room ↦
            let kept = filled (ms ++ (m ∷ [])) in
            let now : Channel.send m (filled ms) ≡ runs kept = rw room (
              ap (λ b. runs (record (filled ms) { buffer = b }))
                (sym (cut ∙ if_true _ _ _ room))) in
            let c : Client = record w.0 {
              subs = record w.0.subs { heap = set ch kept w.0.subs.heap };
            } in
            inl (
              c,
              ground (arith, length-take 32 ms),
              rw (moved, now) refl,
              record { entry = h.entry; state = set-same ch kept w.0.subs.heap; made = h.made },
            )
      ]

  pub settle_sub-Held :
      (ms : List Message) (r : Result BrokerMsg) (w : Client × S)
      → IsValid w.0
      → Held key ch (filled ms) w.0.subs
      → WhileHeld key ch ms w r (settle_sub world pause key ch r w)
  settle_sub-Held ms (ok ok_msg) w v h = (refl, h)
  settle_sub-Held ms (ok (msg_msg m)) w v h = push_first-Held ms m w h
  settle_sub-Held ms (err e) w v h = take_back-Held ms e w v h
  settle_sub-Held ms (ok pong_msg) w v h = take_back-Held ms _ w v h
  settle_sub-Held ms (ok end_msg) w v h = take_back-Held ms _ w v h
  settle_sub-Held ms (ok (ids_msg i)) w v h = take_back-Held ms _ w v h
  settle_sub-Held ms (ok (err_msg t d)) w v h = take_back-Held ms _ w v h

  push_first-Loose :
      (x : Chan Message) (m : Message) (w : Client × S)
      → x.closed ≡ true
      → Loose ch x w.0.subs
      → settle_sub world pause key ch (ok (msg_msg m)) w ≡ panics
  unfolding push_first Channel.send
  push_first-Loose x m w shut h =
      rw (on_channel-at (Channel.send m) ch w.0.subs x h.state, shut) refl

  pub settle_sub-Loose :
      (x : Chan Message) (r : Result BrokerMsg) (w : Client × S)
      → IsValid w.0
      → x.closed ≡ true
      → Loose ch x w.0.subs
      → OnceStopped key ch w r (settle_sub world pause key ch r w)
  settle_sub-Loose x (ok ok_msg) w v shut h = (refl, x, shut, h)
  settle_sub-Loose x (ok (msg_msg m)) w v shut h = push_first-Loose x m w shut h
  settle_sub-Loose x (err e) w v shut h = take_back-Loose x e w v shut h
  settle_sub-Loose x (ok pong_msg) w v shut h = take_back-Loose x _ w v shut h
  settle_sub-Loose x (ok end_msg) w v shut h = take_back-Loose x _ w v shut h
  settle_sub-Loose x (ok (ids_msg i)) w v shut h = take_back-Loose x _ w v shut h
  settle_sub-Loose x (ok (err_msg t d)) w v shut h = take_back-Loose x _ w v shut h
