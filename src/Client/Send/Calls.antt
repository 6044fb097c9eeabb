-- ===== src/Client/Send/Calls.antt =====
-- smp/client.go: Ping, Send, Ack and NewQueue from their start to their end.
use simplex_go.Base.{ℕ, ◌≡◌, Option, none, [], Bytes, Result, Op, ok, err}
use simplex_go.Command.{MsgFlags, NewQueueReq, Command, send_cmd, ack_cmd, ping_cmd}
use simplex_go.Broker.{IdsResponse, BrokerMsg, ids_msg, ok_msg, pong_msg}
use simplex_go.Client.{Client}
use simplex_go.Client.Calls.{ping_result, send_result, ack_result, new_queue_cmd, new_queue_result}
use simplex_go.Client.Send.{World, send}

module _ {S : Type 0} (world : World S) (ver : ℕ) (sess_id : Bytes) (corr : Result Bytes) where
  unfoldable pub ping : Op (Client × S) (Unit {0})
  ping w = let r = send world ver sess_id none [] ping_cmd corr w in (ping_result r.0, r.1)

  unfoldable pub send_message :
      Option (Bytes → Bytes → Result Bytes) → Bytes → MsgFlags → Bytes → Op (Client × S) (Unit {0})
  send_message sig_key snd_id flags body w =
      let r = send world ver sess_id sig_key snd_id (send_cmd flags body) corr w in
      (send_result r.0, r.1)

  unfoldable pub ack :
      Option (Bytes → Bytes → Result Bytes) → Bytes → Bytes → Op (Client × S) (Unit {0})
  ack sign_key rcv_id msg_id w =
      let r = send world ver sess_id sign_key rcv_id (ack_cmd msg_id) corr w in
      (ack_result r.0, r.1)

  abbrev pub new_queue_with :
      Option (Bytes → Bytes → Result Bytes) → Result Command → Op (Client × S) IdsResponse
  new_queue_with sign_key (err e) w = (err e, w)
  new_queue_with sign_key (ok cmd) w =
      let r = send world ver sess_id sign_key [] cmd corr w in (new_queue_result r.0, r.1)

  unfoldable pub new_queue :
      Option (Bytes → Bytes → Result Bytes) → NewQueueReq → Op (Client × S) IdsResponse
  new_queue sign_key req = new_queue_with sign_key (new_queue_cmd req)

-- A call that has returned no error, and the message that it takes as the server's answer.
pub data Succeeded {S : Type 0} (world : World S) (ver : ℕ) (sess_id : Bytes) (corr : Result Bytes)
    (w : Client × S) : BrokerMsg → Type 0 where
  pinged : (ping world ver sess_id corr w).0 ≡ ok tt → Succeeded world ver sess_id corr w pong_msg
  delivered :
      (sig_key : Option (Bytes → Bytes → Result Bytes)) (snd_id : Bytes) (flags : MsgFlags)
      (body : Bytes)
      → (send_message world ver sess_id corr sig_key snd_id flags body w).0 ≡ ok tt
      → Succeeded world ver sess_id corr w ok_msg
  acked :
      (sign_key : Option (Bytes → Bytes → Result Bytes)) (rcv_id msg_id : Bytes)
      → (ack world ver sess_id corr sign_key rcv_id msg_id w).0 ≡ ok tt
      → Succeeded world ver sess_id corr w ok_msg
  created :
      (sign_key : Option (Bytes → Bytes → Result Bytes)) (req : NewQueueReq) (ids : IdsResponse)
      → (new_queue world ver sess_id corr sign_key req w).0 ≡ ok ids
      → Succeeded world ver sess_id corr w (ids_msg ids)
