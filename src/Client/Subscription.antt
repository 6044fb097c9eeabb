-- ===== src/Client/Subscription.antt =====
-- smp/client.go: Subscribe from its start to its end, with what the other goroutines do to the client
-- between its first section and send, in send, and before each of its last sections.
pub mod Tables
pub mod Traces
pub mod Keeping
pub mod Moves
pub mod Delivery
pub mod Sending
pub mod Ends
pub mod Outcomes
use simplex_go.Base.{ℕ, Option, Bytes, Error, Result, other, ok, err}
use simplex_go.Broker.{BrokerMsg, msg_msg, ok_msg}
use simplex_go.Command.{sub_cmd}
use simplex_go.Channel.{Outcome, and_then, runs}
use simplex_go.Client.{Client, subscribe, unsubscribe, close_sub, push_first}
use simplex_go.Client.Send.{World, send}

module _ {S : Type 0} (world : World S) (pause : Client × S → Client × S) where
  -- delete(c.subs, key) under the lock; the others take steps; close(ch).
  abbrev pub take_back : Bytes → ℕ → Error → Client × S → Outcome (Result ℕ × (Client × S))
  take_back key ch e w =
      let w' = pause (unsubscribe key w.0, w.1) in
      and_then (close_sub ch w'.0) λ c. runs (err e, (c, w'.1))

  -- After send: the section of the error path, or ch <- m.Msg.
  abbrev pub settle_sub :
      Bytes → ℕ → Result BrokerMsg → Client × S → Outcome (Result ℕ × (Client × S))
  settle_sub key ch (err e) w = take_back key ch e w
  settle_sub key ch (ok ok_msg) w = runs (ok ch, w)
  settle_sub key ch (ok (msg_msg m)) w = and_then (push_first ch m w.0) λ c. runs (ok ch, (c, w.1))
  settle_sub key ch (ok _) w = take_back key ch (other "smp: SUB expected OK or MSG") w

  abbrev pub after_subscribe :
      ℕ
      → Bytes
      → Option (Bytes → Bytes → Result Bytes)
      → Bytes
      → Result Bytes
      → Result ℕ
      → Client × S
      → Outcome (Result ℕ × (Client × S))
  after_subscribe v sess_id sign_key key corr (err e) w = runs (err e, w)
  after_subscribe v sess_id sign_key key corr (ok ch) w =
      let r = send world v sess_id sign_key key sub_cmd corr (pause w) in
      settle_sub key ch r.0 (pause r.1)

  -- The channel that is returned, by its number.
  unfoldable pub subscribe_queue :
      ℕ
      → Bytes
      → Option (Bytes → Bytes → Result Bytes)
      → Bytes
      → Result Bytes
      → Client × S
      → Outcome (Result ℕ × (Client × S))
  subscribe_queue v sess_id sign_key key corr w =
      let r = subscribe key w.0 in after_subscribe v sess_id sign_key key corr r.0 (r.1, w.1)
