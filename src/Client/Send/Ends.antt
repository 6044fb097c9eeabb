-- ===== src/Client/Send/Ends.antt =====
-- How send ends.
use simplex_go.Base.{
  ℕ, ◌≡◌, refl, sym, ap, ◌∙◌, subst, inl, inr, Option, none, List, [], ◌∷◌, Bool-cases, if_false,
  if_true, Bytes, Result, ok, err,
}
use simplex_go.Command.{Command}
use simplex_go.Client.{BrokerResult, Client, register, forget}
use simplex_go.Channel.{lookup, drop_key}
use simplex_go.Channel.Tables.{Holds, Every-lookup}
use simplex_go.Client.Shutdown.{IsWaiting, IsValid}
use simplex_go.Client.Invariant.{Step-IsValid, forget-IsValid, register-IsValid}
use simplex_go.Client.Steps.{take_result, receives}
use simplex_go.Client.Waiting.{Meanwhile, Pending, lookup-delete_self}
use simplex_go.Client.Others.{Meanwhile-IsValid, Meanwhile-Pending, register-Pending_self}
use simplex_go.Client.Send.{
  Selected, received, done, World, send_block, send, selected, written, registered,
}

-- The select of send: the others take steps, and then a result is received if the channel has one, or
-- the context is done.
abbrev pub Selects : (ver : ℕ) (cid : Bytes) (ch : ℕ) → Client → Selected → Client → Type 0
Selects ver cid ch c (received r) c' =
    (d : Client) × (rest : List BrokerResult) × Meanwhile ver cid ch c d
    × ((d.sent_cmds.heap ch).buffer ≡ r ∷ rest)
    × (c' ≡ take_result ch rest d)
Selects ver cid ch c (done e) c' = Meanwhile ver cid ch c c'

-- Go's channels and goroutines, to the send that registers this correlation id in this state: while
-- it writes its block or waits, the client changes by steps of others, which leave its correlation id
-- and its channel to it, and a receive takes the first of what the channel holds.
pub record IsFair {S : Type 0} (world : World S) (ver : ℕ) (cid : Bytes) (c : Client) (s : S)
    : Type 0 where
  pub writes :
      (ch : ℕ) (c₁ : Client) (block : Bytes)
      → register cid c ≡ (ok ch, c₁)
      → Meanwhile ver cid ch c₁ (world.write_block block (c₁, s)).1.0
  pub selects :
      (ch : ℕ) (c₁ : Client) (block : Bytes)
      → register cid c ≡ (ok ch, c₁)
      → let w = (world.write_block block (c₁, s)).1 in
        let r = world.select ch w in Selects ver cid ch w.0 r.0 r.1.0

-- After send has deleted its entry there is none.
forget-lookup : (cid : Bytes) (c : Client) → lookup cid (forget cid c).sent_cmds.entries ≡ none
unfolding forget drop_key
forget-lookup cid c = lookup-delete_self cid c.sent_cmds.entries

-- A received result means that the entry is gone.
taken :
    (ver : ℕ) (cid : Bytes) (ch : ℕ) (c d : Client) (r : BrokerResult) (rest : List BrokerResult)
    → IsValid c
    → Pending (λ x. Unit {0}) cid ch c.sent_cmds
    → Meanwhile ver cid ch c d
    → (d.sent_cmds.heap ch).buffer ≡ r ∷ rest
    → IsValid (take_result ch rest d) × (lookup cid d.sent_cmds.entries ≡ none)
taken ver cid ch c d r rest v h m full =
    let v' = Meanwhile-IsValid ver cid ch c d m v in
    (
      Step-IsValid ver d (take_result ch rest d) (receives ch r rest full) v',
      elim (Meanwhile-Pending ver cid ch c d m (λ x g. tt) v h) [
        | inr has ↦ has.gone
        | inl waiting ↦
            let state =
              Every-lookup (Holds IsWaiting d.sent_cmds.next d.sent_cmds.heap) cid
                d.sent_cmds.entries v'.sent_cmds.every waiting in
            let clash : ◌≡◌ {A = List BrokerResult} [] (r ∷ rest) = sym state.1.empty ∙ full in
            cc clash
      ],
    )

module _ {S : Type 0} (world : World S) (ver : ℕ) (cid : Bytes) where
  -- The client is valid, and has no entry for the correlation id.
  abbrev Clean : Client → Type 0
  Clean c = IsValid c × (lookup cid c.sent_cmds.entries ≡ none)

  selected-Clean :
      (ch : ℕ) (c : Client) (x : Selected) (w : Client × S)
      → IsValid c
      → Pending (λ x. Unit {0}) cid ch c.sent_cmds
      → Selects ver cid ch c x w.0
      → Clean (selected world cid x w).1.0
  selected-Clean ch c (received r) w v h (d, rest, m, full, same) =
      subst Clean (sym same) (taken ver cid ch c d r rest v h m full)
  selected-Clean ch c (done e) w v h m =
      (forget-IsValid cid w.0 (Meanwhile-IsValid ver cid ch c w.0 m v), forget-lookup cid w.0)

  written-Clean :
      (ch : ℕ) (r : Result (Unit {0})) (w : Client × S)
      → IsValid w.0
      → Pending (λ x. Unit {0}) cid ch w.0.sent_cmds
      → (let x = world.select ch w in Selects ver cid ch w.0 x.0 x.1.0)
      → Clean (written world cid ch r w).1.0
  written-Clean ch (err e) w v h sel = (forget-IsValid cid w.0 v, forget-lookup cid w.0)
  written-Clean ch (ok u) w v h sel =
      let r = world.select ch w in selected-Clean ch w.0 r.0 r.1 v h sel

  registered-Clean :
      (block : Bytes) (r : Result ℕ × Client) (c : Client) (s : S)
      → IsFair world ver cid c s
      → IsValid c
      → register cid c ≡ r
      → Clean (registered world cid block r.0 (r.1, s)).1.0
  unfolding register lookup
  registered-Clean block (err e, c') c s fair v h = elim (Bool-cases c.closed) [
    | inr alive ↦ cc (sym (if_false c.closed _ _ alive) ∙ h)
    | inl stopped ↦
        let ran = sym (if_true c.closed _ _ stopped) ∙ h in
        let same : c ≡ c' = cc ran in
        let gone : (c.sent_cmds.entries ≡ []) × (c.subs.entries ≡ []) = elim v.drained [
          | inl alive ↦ absurd (cc (stopped, alive))
          | inr gone ↦ gone
        ] in
        subst Clean same (v, ap (lookup cid) gone.0)
  ]
  registered-Clean block (ok ch, c') c s fair v h =
      let w = world.write_block block (c', s) in
      let m = fair.writes ch c' block h in
      let v' = register-IsValid cid c c' ch v h in
      written-Clean ch w.0 w.1 (Meanwhile-IsValid ver cid ch c' w.1.0 m v')
        (Meanwhile-Pending ver cid ch c' w.1.0 m (λ x g. tt) v'
          (register-Pending_self cid ch c c' h))
        (fair.selects ch c' block h)

-- A send on a valid client that gets as far as its block, in a world that is fair to it, which means
-- that no other goroutine uses its correlation id or its channel meanwhile: however it ends (a closed client, a write that
-- fails, a result, a context that is done), and whatever the other goroutines do while it writes and
-- waits, the client is valid afterwards and has no entry for the correlation id.
pub send-leaves_no_entry :
    {S : Type 0} (world : World S) (ver : ℕ) (sess_id : Bytes)
    (sign_key : Option (Bytes → Bytes → Result Bytes)) (entity_id : Bytes) (cmd : Command)
    (corr : Result Bytes) (cid block : Bytes) (c : Client) (s : S)
    → IsFair world ver cid c s
    → IsValid c
    → send_block ver sess_id sign_key entity_id cmd corr ≡ ok (cid, block)
    → let c' = (send world ver sess_id sign_key entity_id cmd corr (c, s)).1.0 in
      IsValid c' × (lookup cid c'.sent_cmds.entries ≡ none)
unfolding send
send-leaves_no_entry world ver sess_id sign_key entity_id cmd corr cid block c s fair v e =
    rw e (registered-Clean world ver cid block (register cid c) c s fair v refl)
