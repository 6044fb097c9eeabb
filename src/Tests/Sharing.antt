-- ===== src/Tests/Sharing.antt =====
-- A Client with one command and one subscription in flight.
use simplex_go.Base.{
  ◌≤◌, ◌≡◌, refl, ◌≢◌, true, false, none, some, [], ◌∷◌, arith, length, take, replicate, Bytes,
  codes, bytes_eq, has_prefix, Result, client_closed, sentinel, other, within, ok,
}
use simplex_go.Transmission.{no_corr_id, Transmission, encode_transmission}
use simplex_go.Command.{encode_command, sub_cmd}
use simplex_go.Broker.{decode_broker_msg, ok_msg}
use simplex_go.Client.{
  Client, close_client, handle_read_error, dispatch, read_loop, register, subscribe, answer,
  failure,
}
use simplex_go.Client.Steps.{new_client, Reachable, registers, subscribes, start, next}
use simplex_go.Client.Shutdown.{IsValid, Settled, settled, close_client-settles}
use simplex_go.Client.Reader.{dispatch-runs, read_loop-runs}
use simplex_go.Client.Answers.{dispatch-answers}
use simplex_go.Client.Invariant.{Reachable-IsValid}
use simplex_go.Client.Requests.{Delivers, send_block-Delivers}
use simplex_go.Client.Send.{send_block}
use simplex_go.Tests.Session.{recorder, idle}
use simplex_go.Channel.{lookup, delete, insert, runs}
use simplex_go.Channel.Tables.{Every, IsAbsent}
use simplex_go.Transmission.Format.{Fits, auth_format, wire_format}

abbrev pub cid : Bytes
cid = replicate 24 7

abbrev pub queue : Bytes
queue = 5 ∷ []

abbrev pub sub_client : Client
sub_client = record new_client { subs = insert queue 32 new_client.subs }

-- Subscribe has registered its channel, and its SUB is on the way.
abbrev busy : Client
busy = record sub_client { sent_cmds = insert cid 1 sub_client.sent_cmds }

pub subscribe_step : subscribe queue new_client ≡ (ok 0, sub_client)
unfolding subscribe lookup
subscribe_step = refl

register_step : register cid sub_client ≡ (ok 0, busy)
unfolding register
register_step = refl

busy-Reachable : Reachable 7 busy
busy-Reachable =
    next (next start (subscribes queue 0 subscribe_step)) (registers cid 0 register_step)

Reachable-IsValid_example : IsValid busy
Reachable-IsValid_example = Reachable-IsValid 7 busy busy-Reachable

busy-IsValid : IsValid busy
busy-IsValid = Reachable-IsValid 7 busy busy-Reachable

busy-alive : busy.closed ≡ false
busy-alive = refl

abbrev pub reply : Transmission
reply = record { corr_id = cid; entity_id = queue; command = codes "OK"; authorization = [] }

dispatch-runs_example : (c' : Client) × (dispatch 7 reply busy ≡ runs c') × IsValid c'
dispatch-runs_example = dispatch-runs 7 reply busy busy-IsValid

read_loop-runs_example :
    (c' : Client) × (read_loop 7 [] ((1 ∷ 2 ∷ []) ∷ []) (other "EOF") busy ≡ runs c')
    × IsValid c'
    × (c'.closed ≡ true)
    × (c'.sent_cmds.entries ≡ [])
    × (c'.subs.entries ≡ [])
read_loop-runs_example = read_loop-runs 7 [] ((1 ∷ 2 ∷ []) ∷ []) (other "EOF") busy busy-IsValid

close_client-settles_example :
    ((c' : Client) × (close_client busy ≡ runs c')
      × Settled (failure (sentinel client_closed)) busy c'
      × (close_client c' ≡ runs c')
      × (handle_read_error (other "EOF") c' ≡ runs c'))
    × ((c' : Client) × (handle_read_error (other "EOF") busy ≡ runs c')
        × Settled (failure (within "smp: read" (other "EOF"))) busy c'
        × (close_client c' ≡ runs c')
        × (handle_read_error (other "EOF") c' ≡ runs c'))
close_client-settles_example = close_client-settles (other "EOF") busy busy-IsValid busy-alive

found_queue : lookup queue busy.subs.entries ≡ some 0
unfolding lookup insert delete bytes_eq
found_queue = refl

cid-ne-zero : cid ≢ no_corr_id
cid-ne-zero h = cc

decode_reply : decode_broker_msg 7 reply.command ≡ ok ok_msg
unfolding decode_broker_msg has_prefix bytes_eq
decode_reply = refl

found_cid : lookup cid busy.sent_cmds.entries ≡ some 0
unfolding lookup insert delete bytes_eq
found_cid = refl

dispatch-answers_example :
    (c' : Client) × (dispatch 7 reply busy ≡ runs c')
    × (c'.sent_cmds.heap 0 ≡ settled (answer ok_msg))
    × (c'.sent_cmds.entries ≡ delete cid busy.sent_cmds.entries)
    × IsAbsent 0 c'.sent_cmds.entries
    × Every (λ n. c'.sent_cmds.heap n ≡ busy.sent_cmds.heap n) c'.sent_cmds.entries
    × (c'.subs ≡ busy.subs)
dispatch-answers_example =
    dispatch-answers 7 reply ok_msg 0 busy busy-IsValid cid-ne-zero decode_reply found_cid

-- A key whose authorization is the first byte of what it authorizes.
abbrev pub first_byte : Bytes → Bytes → Result Bytes
first_byte auth_bytes nonce = ok (take 1 auth_bytes)

abbrev pub sub_tx : Transmission
sub_tx = record { corr_id = cid; entity_id = queue; command = codes "SUB"; authorization = 0 ∷ [] }

pub sub_tx-Fits : Fits [] sub_tx
sub_tx-Fits = record {
  corr_id = refl;
  session = omega arith;
  entity_id = omega arith;
  authorization = omega arith;
}

pub encode_sub : encode_command 7 sub_cmd ≡ ok (codes "SUB")
unfolding encode_command
encode_sub = refl

pub length-wire_sub : length (wire_format 7 [] sub_tx) ≤ 65535
unfolding bytes_eq
length-wire_sub = omega arith

send_block-Delivers_example :
    (block : Bytes) × (send_block 7 [] (some first_byte) queue sub_cmd (ok cid) ≡ ok (cid, block))
    × (encode_transmission 7 [] sub_tx ≡ ok (wire_format 7 [] sub_tx, auth_format [] sub_tx))
    × Delivers recorder 100 none idle 7 [] sub_tx (wire_format 7 [] sub_tx) block
send_block-Delivers_example =
    send_block-Delivers recorder 100 none idle 7 [] (some first_byte) sub_cmd
      (auth_format [] sub_tx) sub_tx refl encode_sub refl refl sub_tx-Fits length-wire_sub
