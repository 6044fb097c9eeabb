-- ===== src/Client.antt =====
-- smp/client.go: the Client, the operations that its mutex makes atomic, and the requests. Each
-- definition on a Client is one critical section, or one channel operation outside of one.
pub mod Steps
pub mod Shutdown
pub mod Reader
pub mod Answers
pub mod Invariant
pub mod Waiting
pub mod Settling
pub mod Others
pub mod Send
pub mod Closing
pub mod Subscription
pub mod Requests
pub mod Calls
use simplex_go.Base.{
  ℕ, Bool, true, Option, none, some, List, [], ◌∷◌, if◌then◌else◌, Bytes, bytes_eq, Error, Result,
  wrap_result, Op, bind_result, client_closed, sentinel, other, within, broker, ok, err,
}
use simplex_go.Transmission.{no_corr_id, Transmission, encode_transmission}
use simplex_go.Block.{encode_block, decode_block}
use simplex_go.Command.{Command, encode_command}
use simplex_go.Broker.{Message, BrokerMsg, decode_broker_msg, msg_msg, end_msg, err_msg}
use simplex_go.Channel.{
  Outcome, runs, panics, blocks, and_then, send, try_send, close, lookup, Chan, Table, insert,
  drop_key, on_channel, drain_all,
}

-- brokerResult: the code sets one of its two fields.
pub data BrokerResult : Type 0 where
  answer : BrokerMsg → BrokerResult
  failure : Error → BrokerResult

pub record Client : Type 0 where
  pub closed : Bool
  pub sent_cmds : Table BrokerResult
  pub subs : Table Message

-- ch <- r; close(ch)
unfoldable pub settle : BrokerResult → Chan BrokerResult → Outcome (Chan BrokerResult)
settle r c = and_then (send r c) close

-- What Close and handleReadError do under the lock when the client is not closed.
unfoldable pub shut_down : BrokerResult → Client → Outcome Client
shut_down r c = and_then (drain_all (settle r) c.sent_cmds) λ sent_cmds.
    and_then (drain_all close c.subs)
      λ subs. runs (record { closed = true; sent_cmds = sent_cmds; subs = subs })

unfoldable pub close_client : Client → Outcome Client
close_client c = if c.closed then runs c else shut_down (failure (sentinel client_closed)) c

unfoldable pub handle_read_error : Error → Client → Outcome Client
handle_read_error e c = if c.closed then runs c else shut_down (failure (within "smp: read" e)) c

-- A server-pushed event for the subscription `key` with the channel ch.
unfoldable pub deliver : Bytes → ℕ → BrokerMsg → Client → Outcome Client
deliver key ch (msg_msg m) c =
    and_then (on_channel (try_send m) ch c.subs) λ subs. runs (record c { subs = subs })
deliver key ch end_msg c =
    and_then (on_channel close ch c.subs) λ subs. runs (record c { subs = drop_key key subs })
deliver key ch _ c = runs c

unfoldable pub push : Bytes → BrokerMsg → Client → Outcome Client
push key msg c = elim (lookup key c.subs.entries) [ none ↦ runs c | some ch ↦ deliver key ch msg c ]

unfoldable pub respond : Bytes → BrokerMsg → Client → Outcome Client
respond cid msg c = elim (lookup cid c.sent_cmds.entries) [
  | none ↦ runs c
  | some ch ↦
      and_then (on_channel (settle (answer msg)) ch c.sent_cmds)
        λ sent_cmds. runs (record c { sent_cmds = drop_key cid sent_cmds })
]

abbrev pub dispatch_msg : Transmission → Result BrokerMsg → Client → Outcome Client
dispatch_msg tx (err e) c = runs c
dispatch_msg tx (ok msg) c =
    if bytes_eq tx.corr_id no_corr_id then push tx.entity_id msg c else respond tx.corr_id msg c

unfoldable pub dispatch : ℕ → Transmission → Client → Outcome Client
dispatch v tx c = dispatch_msg tx (decode_broker_msg v tx.command) c

-- for _, tx := range txs { c.dispatch(tx) }
unfoldable pub dispatch_all : ℕ → List Transmission → Client → Outcome Client
dispatch_all v [] c = runs c
dispatch_all v (tx ∷ txs) c = and_then (dispatch v tx c) (dispatch_all v txs)

-- One round of readLoop after a read that succeeded.
abbrev pub on_transmissions : ℕ → Result (List Transmission) → Client → Outcome Client
on_transmissions v (err e) c = runs c
on_transmissions v (ok txs) c = dispatch_all v txs c

unfoldable pub on_block : ℕ → Bytes → Bytes → Client → Outcome Client
on_block v sess_id block c = on_transmissions v (decode_block v sess_id block) c

-- readLoop, on the blocks that are read and the error that ends the reading.
unfoldable pub read_loop : ℕ → Bytes → List Bytes → Error → Client → Outcome Client
read_loop v sess_id [] e c = handle_read_error e c
read_loop v sess_id (block ∷ blocks') e c =
    and_then (on_block v sess_id block c) (read_loop v sess_id blocks' e)

-- send, up to WriteBlock: the response channel, of capacity 1.
unfoldable pub register : Bytes → Op Client ℕ
register cid c =
    if c.closed
    then (err (sentinel client_closed), c)
    else (ok c.sent_cmds.next, record c { sent_cmds = insert cid 1 c.sent_cmds })

-- send, after WriteBlock has failed or the context is done.
unfoldable pub forget : Bytes → Client → Client
forget cid c = record c { sent_cmds = drop_key cid c.sent_cmds }

-- Subscribe, up to send.
unfoldable pub subscribe : Bytes → Op Client ℕ
subscribe key c =
    if c.closed then (err (sentinel client_closed), c) else (elim (lookup key c.subs.entries) [
      | some ch ↦ (err (other "smp: already subscribed to queue"), c)
      | none ↦ (ok c.subs.next, record c { subs = insert key 32 c.subs })
    ])

-- Subscribe, on an error of send or an unexpected message: the section under the lock, and the
-- close(ch) that follows it.
unfoldable pub unsubscribe : Bytes → Client → Client
unsubscribe key c = record c { subs = drop_key key c.subs }

unfoldable pub close_sub : ℕ → Client → Outcome Client
close_sub ch c = and_then (on_channel close ch c.subs) λ subs. runs (record c { subs = subs })

-- Subscribe, where the answer is a message: ch <- m.Msg.
unfoldable pub push_first : ℕ → Message → Client → Outcome Client
push_first ch m c = and_then (on_channel (send m) ch c.subs) λ subs. runs (record c { subs = subs })

-- The result of send for what it receives from the response channel.
unfoldable pub conclude : BrokerResult → Result BrokerMsg
conclude (failure e) = err e
conclude (answer (err_msg type detail)) = err (broker type detail)
conclude (answer msg) = ok msg

-- The authorization of a transmission; `none` is the nil key, which leaves it empty.
abbrev pub authorize : Option (Bytes → Bytes → Result Bytes) → Bytes → Bytes → Result Bytes
authorize none auth_bytes cid = ok []
authorize (some sign) auth_bytes cid = wrap_result "smp: authorize" (sign auth_bytes cid)

-- send, up to the block that it writes, with the new correlation id.
unfoldable pub request :
    ℕ → Bytes → Option (Bytes → Bytes → Result Bytes) → Bytes → Bytes → Command → Result Bytes
request v sess_id sign_key cid entity_id cmd = bind_result (encode_command v cmd) λ cmd_bytes.
    let tx : Transmission = record {
      corr_id = cid;
      entity_id = entity_id;
      command = cmd_bytes;
      authorization = [];
    } in
    bind_result (encode_transmission v sess_id tx) λ r.
      bind_result (authorize sign_key r.1 cid) λ sig.
        bind_result (encode_transmission v sess_id (record tx { authorization = sig }))
          λ w. encode_block (w.0 ∷ [])
