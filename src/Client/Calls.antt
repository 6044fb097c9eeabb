-- ===== src/Client/Calls.antt =====
-- smp/client.go: what Ping, Send, Ack, NewQueue and Subscribe pass to send and make of its result.
-- The Go type of a message, which the text of an error prints, is left out.
use simplex_go.Base.{
  ◌≡◌, refl, sym, ap, ◌↔◌, ◌⊎◌, inl, inr, Option, none, some, arith, ◌==◌, if◌then◌else◌, ==_iff,
  Bool-cases, Result, other, ok, err,
}
use simplex_go.Broker.{
  IdsResponse, Message, BrokerMsg, ids_msg, msg_msg, ok_msg, pong_msg, end_msg, err_msg,
}
use simplex_go.Command.{subscribe_on_create, subscribe_manual, NewQueueReq, Command, new_cmd}
use simplex_go.Client.{BrokerResult, conclude, answer, failure}

-- Ping.
unfoldable pub ping_result : Result BrokerMsg → Result (Unit {0})
ping_result (err e) = err e
ping_result (ok pong_msg) = ok tt
ping_result (ok _) = err (other "smp: PING expected PONG")

-- Send.
unfoldable pub send_result : Result BrokerMsg → Result (Unit {0})
send_result (err e) = err e
send_result (ok ok_msg) = ok tt
send_result (ok _) = err (other "smp: SEND expected OK")

-- Ack.
unfoldable pub ack_result : Result BrokerMsg → Result (Unit {0})
ack_result (err e) = err e
ack_result (ok ok_msg) = ok tt
ack_result (ok _) = err (other "smp: ACK expected OK")

-- The switch of NewQueue on the mode, and the command that it passes to send.
unfoldable pub new_queue_cmd : NewQueueReq → Result Command
new_queue_cmd req =
    if req.subscribe_mode == 0
    then ok (new_cmd (record req { subscribe_mode = subscribe_manual }))
    else if req.subscribe_mode == subscribe_manual
    then ok (new_cmd req)
    else if req.subscribe_mode == subscribe_on_create
    then err (other "smp: NewQueue with SubscribeMode=SubscribeOnCreate not yet supported")
    else err (other "smp: invalid SubscribeMode")

unfoldable pub new_queue_result : Result BrokerMsg → Result IdsResponse
new_queue_result (err e) = err e
new_queue_result (ok (ids_msg ids)) = ok ids
new_queue_result (ok _) = err (other "smp: NEW expected IDS")

-- Subscribe after send: the message that it pushes first, if there is one, or the error after which
-- it takes the subscription back.
unfoldable pub subscribe_result : Result BrokerMsg → Result (Option Message)
subscribe_result (err e) = err e
subscribe_result (ok ok_msg) = ok none
subscribe_result (ok (msg_msg m)) = ok (some m)
subscribe_result (ok _) = err (other "smp: SUB expected OK or MSG")

-- NewQueue sends a command exactly for the unset mode and for the manual one, and the command it
-- sends then has the manual mode and is otherwise the request.
pub new_queue_cmd-eq-ok_iff :
    (req : NewQueueReq) (cmd : Command)
    → (new_queue_cmd req ≡ ok cmd) ↔ (
        ((req.subscribe_mode ≡ 0) ⊎ (req.subscribe_mode ≡ subscribe_manual))
        × (cmd ≡ new_cmd (record req { subscribe_mode = subscribe_manual })))
unfolding new_queue_cmd
new_queue_cmd-eq-ok_iff req cmd = elim (Bool-cases (req.subscribe_mode == 0)) [
  | inl unset ↦
      let zero_mode = (==_iff req.subscribe_mode 0).0 unset in
      rw unset (λ h. (inl zero_mode, cc h), λ h. ap ok (sym h.1))
  | inr given ↦ elim (Bool-cases (req.subscribe_mode == subscribe_manual)) [
    | inl manual ↦
        let same = (==_iff req.subscribe_mode subscribe_manual).0 manual in
        rw (given, manual) (λ h. (inr same, cc (h, same)), λ h. cc (h.1, same))
    | inr new ↦ (λ h. ground (arith, h), λ h. ground (arith, h.0))
  ]
]

-- For whatever result is received for its SUB, Subscribe succeeds exactly where the server answered
-- OK, and then pushes no message, or answered a message, which it then pushes; in each other case,
-- an error of the server, a lost connection and an unexpected message, it fails.
pub subscribe_result-conclude_iff :
    (b : BrokerResult) (first : Option Message)
    → (subscribe_result (conclude b) ≡ ok first) ↔ (
        ((b ≡ answer ok_msg) × (first ≡ none))
        ⊎ ((m : Message) × (b ≡ answer (msg_msg m)) × (first ≡ some m)))
unfolding subscribe_result conclude
subscribe_result-conclude_iff (failure e) first =
    (λ h. cc, λ h. elim h [ inl (p, q) ↦ cc | inr (m, p, q) ↦ cc ])
subscribe_result-conclude_iff (answer ok_msg) first =
    (λ h. inl (refl, cc h), λ h. elim h [ inl (p, q) ↦ cc | inr (m, p, q) ↦ cc ])
subscribe_result-conclude_iff (answer (msg_msg m)) first =
    (λ h. inr (m, refl, cc h), λ h. elim h [ inl (p, q) ↦ cc | inr (n, p, q) ↦ cc ])
subscribe_result-conclude_iff (answer (ids_msg ids)) first =
    (λ h. cc, λ h. elim h [ inl (p, q) ↦ cc | inr (m, p, q) ↦ cc ])
subscribe_result-conclude_iff (answer pong_msg) first =
    (λ h. cc, λ h. elim h [ inl (p, q) ↦ cc | inr (m, p, q) ↦ cc ])
subscribe_result-conclude_iff (answer end_msg) first =
    (λ h. cc, λ h. elim h [ inl (p, q) ↦ cc | inr (m, p, q) ↦ cc ])
subscribe_result-conclude_iff (answer (err_msg t d)) first =
    (λ h. cc, λ h. elim h [ inl (p, q) ↦ cc | inr (m, p, q) ↦ cc ])
