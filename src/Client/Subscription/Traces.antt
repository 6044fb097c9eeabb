-- ===== src/Client/Subscription/Traces.antt =====
-- What the other goroutines do while Subscribe has registered a channel, and what that delivers.
use simplex_go.Base.{
  ℕ, ◌≡◌, ◌≢◌, ◌⊎◌, Bool, true, false, ◌&&◌, List, [], ◌∷◌, ◌++◌, take, Bytes, bytes_eq, Result, ok,
  err,
}
use simplex_go.Broker.{Message, BrokerMsg, decode_broker_msg, msg_msg, end_msg}
use simplex_go.Transmission.{Transmission, no_corr_id}
use simplex_go.Channel.{Chan}
use simplex_go.Client.{Client}
use simplex_go.Client.Steps.{
  Step, dispatches, read_fails, closes, unsubscribes, abandons, pushes, reads,
}

-- A step that is not one of the subscription's own: nobody else takes the key back, or closes, sends
-- on or receives from the channel.
abbrev pub IsForeign : (key : Bytes) (ch : ℕ) {ver : ℕ} {c c' : Client} → Step ver c c' → Type 0
IsForeign key ch (unsubscribes k) = k ≢ key
IsForeign key ch (abandons n a e) = n ≢ ch
IsForeign key ch (pushes n m e) = n ≢ ch
IsForeign key ch (reads n m rest e) = n ≢ ch
IsForeign key ch _ = Unit {0}

pub data Trace (ver : ℕ) (key : Bytes) (ch : ℕ) (c : Client) : Client → Type 0 where
  still : Trace ver key ch c c
  then_foreign :
      {d d' : Client}
      → Trace ver key ch c d
      → (s : Step ver d d') → IsForeign key ch s
      → Trace ver key ch c d'

pub chained :
    {ver : ℕ} {key : Bytes} {ch : ℕ} {c d e : Client}
    → Trace ver key ch c d
    → Trace ver key ch d e
    → Trace ver key ch c e
chained t still = t
chained t (then_foreign u s o) = then_foreign (chained t u) s o

abbrev gained_msg : BrokerMsg → List Message
gained_msg (msg_msg m) = m ∷ []
gained_msg _ = []

abbrev pub gained_of : Result BrokerMsg → Bool → List Message
gained_of (err e) event = []
gained_of (ok msg) true = gained_msg msg
gained_of (ok msg) false = []

-- The message that a transmission brings to the subscription.
abbrev pub gained : ℕ → Bytes → Transmission → List Message
gained ver key tx =
    gained_of (decode_broker_msg ver tx.command)
      (bytes_eq tx.corr_id no_corr_id && bytes_eq tx.entity_id key)

abbrev pub gained_in : (ver : ℕ) (key : Bytes) {c c' : Client} → Step ver c c' → List Message
gained_in ver key (dispatches tx e) = gained ver key tx
gained_in ver key _ = []

-- The messages that the server has pushed to the subscription, in their order.
abbrev pub delivered :
    {ver : ℕ} {key : Bytes} {ch : ℕ} {c c' : Client} → Trace ver key ch c c' → List Message
delivered still = []
delivered {ver} {key} (then_foreign t s o) = delivered t ++ gained_in ver key s

-- The step ends the subscription: the server has sent END for it, or the client is shut down.
abbrev pub Stops : (ver : ℕ) (key : Bytes) {c c' : Client} → Step ver c c' → Type 0
Stops ver key (dispatches tx e) =
    (tx.corr_id ≡ no_corr_id)
    × (tx.entity_id ≡ key)
    × (decode_broker_msg ver tx.command ≡ ok end_msg)
Stops ver key (read_fails x e) = Unit {0}
Stops ver key (closes e) = Unit {0}
Stops ver key _ = ⊥

abbrev pub HasStopped :
    {ver : ℕ} {key : Bytes} {ch : ℕ} {c c' : Client} → Trace ver key ch c c' → Type 0
HasStopped still = ⊥
HasStopped {ver} {key} (then_foreign t s o) = HasStopped t ⊎ Stops ver key s

-- The channel of a subscription to which these messages were pushed: it keeps the first 32.
abbrev pub filled : List Message → Chan Message
filled ms = record { buffer = take 32 ms; capacity = 32; closed = false }
