-- ===== src/Client/Waiting.antt =====
-- A command that was registered, while the goroutine of its send waits and the others take steps.
use simplex_go.Base.{
  ℕ, ◌<◌, ◌≡◌, refl, sym, ◌∙◌, ◌≢◌, ◌⊎◌, inl, inr, false, none, some, [], ◌∷◌, arith, Bool-cases,
  Bytes, bytes_eq, bytes_eq_iff, bytes_eq-ne, client_closed, sentinel, within, ok,
}
use simplex_go.Client.{BrokerResult, Client, answer, failure}
use simplex_go.Channel.{Chan, make, Entries, lookup, delete, Table, set, insert, drop_key}
use simplex_go.Channel.Tables.{IsAbsent, Every-delete, set-other}
use simplex_go.Broker.{BrokerMsg, decode_broker_msg}
use simplex_go.Client.Shutdown.{settled}
use simplex_go.Client.Steps.{Step, registers, forgets, receives, dispatches, read_fails, closes}

-- A step that is not one of the waiting goroutine: nobody else registers or forgets its correlation
-- id, or receives from its channel.
abbrev pub IsOther : (cid : Bytes) (ch : ℕ) {ver : ℕ} {c c' : Client} → Step ver c c' → Type 0
IsOther cid ch (registers cid' ch' e) = cid' ≢ cid
IsOther cid ch (forgets cid') = cid' ≢ cid
IsOther cid ch (receives ch' r rest e) = ch' ≢ ch
IsOther cid ch _ = Unit {0}

-- What the others do meanwhile.
pub data Meanwhile (ver : ℕ) (cid : Bytes) (ch : ℕ) (c : Client) : Client → Type 0 where
  nothing : Meanwhile ver cid ch c c
  then_step :
      {d d' : Client}
      → Meanwhile ver cid ch c d
      → (s : Step ver d d') → IsOther cid ch s
      → Meanwhile ver cid ch c d'

-- The step gives a result to the command: the reader dispatches a reply to it, or the client stops.
abbrev pub Gives : (ver : ℕ) (cid : Bytes) {c c' : Client} → Step ver c c' → BrokerResult → Type 0
Gives ver cid (dispatches tx e) r =
    (tx.corr_id ≡ cid)
    × (msg : BrokerMsg) × (decode_broker_msg ver tx.command ≡ ok msg)
    × (r ≡ answer msg)
Gives ver cid (read_fails x e) r = r ≡ failure (within "smp: read" x)
Gives ver cid (closes e) r = r ≡ failure (sentinel client_closed)
Gives ver cid _ r = ⊥

-- One of the steps gave the result.
abbrev pub Came :
    (ver : ℕ) (cid : Bytes) (ch : ℕ) {c c' : Client}
    → Meanwhile ver cid ch c c'
    → BrokerResult
    → Type 0
Came ver cid ch nothing r = ⊥
Came ver cid ch (then_step m s o) r = Came ver cid ch m r ⊎ Gives ver cid s r

-- The channel holds the one result and is closed, and neither the channel nor the correlation id is
-- registered any more.
pub record HasResult (From : BrokerResult → Type 0) (cid : Bytes) (ch : ℕ) (t : Table BrokerResult)
    : Type 0 where
  pub result : BrokerResult
  pub from : From result
  pub state : t.heap ch ≡ settled result
  pub made : ch < t.next
  pub absent : IsAbsent ch t.entries
  pub gone : lookup cid t.entries ≡ none

abbrev pub Pending : (BrokerResult → Type 0) → Bytes → ℕ → Table BrokerResult → Type 0
Pending From cid ch t = (lookup cid t.entries ≡ some ch) ⊎ HasResult From cid ch t

pub lookup-delete_self : (key : Bytes) (es : Entries) → lookup key (delete key es) ≡ none
unfolding lookup delete
lookup-delete_self key [] = refl
lookup-delete_self key ((k, n) ∷ es) = elim (Bool-cases (bytes_eq k key)) [
  | inl same ↦ rw same (lookup-delete_self key es)
  | inr differs ↦ rw differs (rw differs (lookup-delete_self key es))
]

pub lookup-delete_other :
    (cid key : Bytes) (es : Entries) → key ≢ cid → lookup cid (delete key es) ≡ lookup cid es
unfolding lookup delete
lookup-delete_other cid key [] ne = refl
lookup-delete_other cid key ((k, n) ∷ es) ne = elim (Bool-cases (bytes_eq k key)) [
  | inr new ↦ elim (Bool-cases (bytes_eq k cid)) [
    | inl here ↦ rw (new, here)
    | inr later ↦ rw (new, later) (lookup-delete_other cid key es ne)
  ]
  | inl same ↦
      let differs : bytes_eq k cid ≡ false =
        bytes_eq-ne k cid (λ e. ne (sym ((bytes_eq_iff k key).0 same) ∙ e)) in
      rw (same, differs) (lookup-delete_other cid key es ne)
]

pub Pending-drop_other :
    {From : BrokerResult → Type 0} (cid key : Bytes) (ch : ℕ) (t : Table BrokerResult)
    → key ≢ cid
    → Pending From cid ch t
    → Pending From cid ch (drop_key key t)
unfolding drop_key
Pending-drop_other cid key ch t ne (inl waiting) =
    inl (lookup-delete_other cid key t.entries ne ∙ waiting)
Pending-drop_other cid key ch t ne (inr h) = inr (record {
  result = h.result;
  from = h.from;
  state = h.state;
  made = h.made;
  absent = Every-delete (λ n. n ≢ ch) key t.entries h.absent;
  gone = lookup-delete_other cid key t.entries ne ∙ h.gone;
})

pub Pending-set_other :
    {From : BrokerResult → Type 0} (cid : Bytes) (ch n : ℕ) (x : Chan BrokerResult)
    (t : Table BrokerResult)
    → n ≢ ch
    → Pending From cid ch t
    → Pending From cid ch (record t { heap = set n x t.heap })
Pending-set_other cid ch n x t ne (inl waiting) = inl waiting
Pending-set_other cid ch n x t ne (inr h) = inr (record {
  result = h.result;
  from = h.from;
  state = set-other n ch x t.heap (λ e. ne (sym e)) ∙ h.state;
  made = h.made;
  absent = h.absent;
  gone = h.gone;
})

pub Pending-insert_other :
    {From : BrokerResult → Type 0} (cid key : Bytes) (ch capacity : ℕ) (t : Table BrokerResult)
    → key ≢ cid
    → Pending From cid ch t
    → Pending From cid ch (insert key capacity t)
unfolding insert lookup
Pending-insert_other cid key ch capacity t ne (inl waiting) =
    inl (rw (bytes_eq-ne key cid ne) (lookup-delete_other cid key t.entries ne ∙ waiting))
Pending-insert_other cid key ch capacity t ne (inr h) = inr (record {
  result = h.result;
  from = h.from;
  state = set-other t.next ch (make capacity) t.heap (λ e. ground (arith, h.made, e)) ∙ h.state;
  made = omega (arith, h.made);
  absent = (λ e. ground (arith, h.made, e), Every-delete (λ n. n ≢ ch) key t.entries h.absent);
  gone = rw (bytes_eq-ne key cid ne) (lookup-delete_other cid key t.entries ne ∙ h.gone);
})
