-- ===== src/Client/Send/Answers.antt =====
-- What send returns.
use simplex_go.Base.{ℕ, ◌≡◌, ◌⊎◌, Bytes, ok}
use simplex_go.Command.{Command}
use simplex_go.Broker.{BrokerMsg, decode_broker_msg}
use simplex_go.Client.{Client, register}
use simplex_go.Client.Steps.{Step, dispatches}
use simplex_go.Client.Waiting.{Meanwhile, nothing, then_step}

-- The step dispatches a transmission with the correlation id, whose command is the message.
abbrev pub Replies : (ver : ℕ) (cid : Bytes) {c c' : Client} → Step ver c c' → BrokerMsg → Type 0
Replies ver cid (dispatches tx e) msg =
    (tx.corr_id ≡ cid) × (decode_broker_msg ver tx.command ≡ ok msg)
Replies ver cid _ msg = ⊥

-- One of the steps does so.
abbrev pub Replied :
    (ver : ℕ) (cid : Bytes) (ch : ℕ) {c c' : Client}
    → Meanwhile ver cid ch c c'
    → BrokerMsg
    → Type 0
Replied ver cid ch nothing msg = ⊥
Replied ver cid ch (then_step m s o) msg = Replied ver cid ch m msg ⊎ Replies ver cid s msg

-- The message answers a command that was registered under the correlation id in this state.
abbrev pub IsAnswered : ℕ → Bytes → Client → BrokerMsg → Type 0
IsAnswered ver cid c msg =
    (ch : ℕ) × (c₁ d : Client) × (register cid c ≡ (ok ch, c₁))
    × (m : Meanwhile ver cid ch c₁ d) × Replied ver cid ch m msg
