-- ===== src/Client/Send.antt =====
-- smp/client.go: send from its start to its end, with what the other goroutines do to the client
-- while it writes the block and while it waits.
pub mod Ends
pub mod Answers
pub mod Calls
use simplex_go.Base.{ℕ, Option, Bytes, Error, Result, wrap_result, Op, bind_result, within, ok, err}
use simplex_go.Broker.{BrokerMsg}
use simplex_go.Command.{Command, encode_command}
use simplex_go.Client.{BrokerResult, Client, register, forget, conclude, request}

-- What the select of send comes to: a receive from the response channel, or the context's error.
pub data Selected : Type 0 where
  received : BrokerResult → Selected
  done : Error → Selected

-- The client, and the world: WriteBlock of the transport and the select on a channel, each with the
-- steps of the other goroutines until it returns.
pub record World (S : Type 0) : Type 0 where
  pub write_block : Bytes → Op (Client × S) (Unit {0})
  pub select : ℕ → Client × S → Selected × (Client × S)

-- The steps of send before the channel is made: the correlation id, which newCorrID returns as
-- `corr`, and the block.
unfoldable pub send_block :
    ℕ
    → Bytes
    → Option (Bytes → Bytes → Result Bytes)
    → Bytes
    → Command
    → Result Bytes
    → Result (Bytes × Bytes)
send_block v sess_id sign_key entity_id cmd corr = bind_result (encode_command v cmd) λ cmd_bytes.
    bind_result (wrap_result "smp: corrId" corr)
      λ cid. bind_result (request v sess_id sign_key cid entity_id cmd) λ block. ok (cid, block)

module _ {S : Type 0} (world : World S) where
  abbrev pub selected : Bytes → Selected → Op (Client × S) BrokerMsg
  selected cid (received r) w = (conclude r, w)
  selected cid (done e) w = (err e, (forget cid w.0, w.1))

  abbrev pub written : Bytes → ℕ → Result (Unit {0}) → Op (Client × S) BrokerMsg
  written cid ch (err e) w = (err (within "smp: write" e), (forget cid w.0, w.1))
  written cid ch (ok _) w = let r = world.select ch w in selected cid r.0 r.1

  abbrev pub registered : Bytes → Bytes → Result ℕ → Op (Client × S) BrokerMsg
  registered cid block (err e) w = (err e, w)
  registered cid block (ok ch) w = let r = world.write_block block w in written cid ch r.0 r.1

  abbrev pub sent : Result (Bytes × Bytes) → Op (Client × S) BrokerMsg
  sent (err e) w = (err e, w)
  sent (ok (cid, block)) w = let r = register cid w.0 in registered cid block r.0 (r.1, w.1)

  unfoldable pub send :
      ℕ
      → Bytes
      → Option (Bytes → Bytes → Result Bytes)
      → Bytes
      → Command
      → Result Bytes
      → Op (Client × S) BrokerMsg
  send v sess_id sign_key entity_id cmd corr =
      sent (send_block v sess_id sign_key entity_id cmd corr)
