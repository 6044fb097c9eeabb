-- ===== src/Tests/Sending.antt =====
-- A send, while whose block is being written another send registers its command, which is still
-- unanswered at the end, and the reader dispatches the reply.
use simplex_go.Base.{
  ℕ, ◌≡◌, refl, ◌≢◌, ◌⊎◌, false, none, some, List, [], ◌∷◌, replicate, Bytes, Error, Result,
  client_closed, sentinel, other, ok, err,
}
use simplex_go.Command.{sub_cmd}
use simplex_go.Client.{
  BrokerResult, Client, settle, close_client, respond, dispatch, register, conclude, request,
  failure,
}
use simplex_go.Client.Requests.{request-delivers}
use simplex_go.Transmission.Format.{auth_format}
use simplex_go.Channel
use simplex_go.Channel.{Outcome, lookup, insert, runs, panics, blocks}
use simplex_go.Client.Steps.{next, registers, new_client, dispatches, start, take_result}
use simplex_go.Client.Shutdown.{Settled, IsValid, IsWaiting, settled}
use simplex_go.Client.Invariant.{Reachable-IsValid}
use simplex_go.Client.Closing.{close_and_wait, close_and_wait-settles}
use simplex_go.Client.Waiting.{Came, Meanwhile, nothing, then_step}
use simplex_go.Client.Others.{registered_wait_ends}
use simplex_go.Client.Send.{Selected, received, done, World, send_block, send}
use simplex_go.Client.{
  BrokerResult, Client, settle, close_client, respond, dispatch, register, conclude, request,
  failure,
}
use simplex_go.Client.Send.Ends.{Selects, IsFair, send-leaves_no_entry}
use simplex_go.Tests.Sharing.{
  cid, queue, reply, first_byte, sub_tx, sub_tx-Fits, encode_sub, length-wire_sub,
}

abbrev expired : Error
expired = other "context deadline exceeded"

-- The client after the step, if it ran.
abbrev pub after : Outcome Client → Client → Client
after (runs c') c = c'
after panics c = c
after blocks c = c

-- The select takes what is buffered, and else the context is done.
abbrev pub taken : ℕ → List BrokerResult → Client → Selected × Client
taken ch [] c = (done expired, c)
taken ch (r ∷ rest) c = (received r, take_result ch rest c)

-- The correlation id of the other send.
abbrev pub other_cid : Bytes
other_cid = replicate 24 8

abbrev pub joined : Client → Result ℕ × Client → Client
joined c (ok ch, c') = c'
joined c (err e, c') = c

abbrev pub joined_by_other : Client → Client
joined_by_other c = joined c (register other_cid c)

abbrev pub disturbed : Client → Client
disturbed c = after (dispatch 7 reply (joined_by_other c)) (joined_by_other c)

abbrev pub world : World (Unit {0})
world = record {
  write_block = λ block w. (ok tt, (disturbed w.0, tt));
  select = λ ch w. let r = taken ch (w.0.sent_cmds.heap ch).buffer w.0 in (r.0, (r.1, tt));
}

other_cid-ne : other_cid ≢ cid
other_cid-ne h = cc h

joined-Meanwhile :
    (ch : ℕ) (r : Result ℕ × Client) (c : Client)
    → register other_cid c ≡ r
    → Meanwhile 7 cid ch c (joined c r)
joined-Meanwhile ch (ok n, c') c e = then_step nothing (registers other_cid n e) other_cid-ne
joined-Meanwhile ch (err x, c') c e = nothing

after-Meanwhile :
    (ch : ℕ) (o : Outcome Client) (c d : Client)
    → Meanwhile 7 cid ch c d
    → dispatch 7 reply d ≡ o
    → Meanwhile 7 cid ch c (after o d)
after-Meanwhile ch (runs c') c d m e = then_step m (dispatches reply e) tt
after-Meanwhile ch panics c d m e = m
after-Meanwhile ch blocks c d m e = m

disturbed-Meanwhile : (ch : ℕ) (c : Client) → Meanwhile 7 cid ch c (disturbed c)
disturbed-Meanwhile ch c =
    after-Meanwhile ch (dispatch 7 reply (joined_by_other c)) c (joined_by_other c)
      (joined-Meanwhile ch (register other_cid c) c refl) refl

taken-Selects :
    (key : Bytes) (ch : ℕ) (rs : List BrokerResult) (c : Client)
    → (c.sent_cmds.heap ch).buffer ≡ rs
    → let r = taken ch rs c in Selects 7 key ch c r.0 r.1
taken-Selects key ch [] c e = nothing
taken-Selects key ch (r ∷ rest) c e = (c, rest, nothing, e, refl)

pub world-IsFair : IsFair world 7 cid new_client tt
world-IsFair = record {
  writes = λ ch c₁ block e. disturbed-Meanwhile ch c₁;
  selects = λ ch c₁ block e.
      let c = disturbed c₁ in taken-Selects cid ch (c.sent_cmds.heap ch).buffer c refl;
}

pub new_client-IsValid : IsValid new_client
new_client-IsValid = Reachable-IsValid 7 new_client start

abbrev busy : Client
busy = record new_client { sent_cmds = insert cid 1 new_client.sent_cmds }

register_step : register cid new_client ≡ (ok 0, busy)
unfolding register
register_step = refl

abbrev answered : Client
answered = disturbed busy

meanwhile : Meanwhile 7 cid 0 busy answered
meanwhile = disturbed-Meanwhile 0 busy

registered_wait_ends_example :
    ((answered.closed ≡ false)
      × (lookup cid answered.sent_cmds.entries ≡ some 0)
      × IsWaiting (answered.sent_cmds.heap 0))
    ⊎ ((r : BrokerResult) × (answered.sent_cmds.heap 0 ≡ settled r) × Came 7 cid 0 meanwhile r)
registered_wait_ends_example =
    registered_wait_ends 7 cid 0 new_client busy answered new_client-IsValid register_step meanwhile

pub requested : (block : Bytes) × (request 7 [] (some first_byte) cid queue sub_cmd ≡ ok block)
requested =
    let (sent, _, _) =
      request-delivers 7 [] (some first_byte) sub_cmd (auth_format [] sub_tx) sub_tx encode_sub refl
        refl sub_tx-Fits length-wire_sub in
    (_, sent)

pub sub_block : send_block 7 [] (some first_byte) queue sub_cmd (ok cid) ≡ ok (cid, requested.0)
unfolding send_block
sub_block = rw (encode_sub, requested.1) refl

send-leaves_no_entry_example :
    let c' = (send world 7 [] (some first_byte) queue sub_cmd (ok cid) (new_client, tt)).1.0 in
    IsValid c' × (lookup cid c'.sent_cmds.entries ≡ none)
send-leaves_no_entry_example =
    send-leaves_no_entry world 7 [] (some first_byte) queue sub_cmd (ok cid) cid requested.0
      new_client tt world-IsFair new_client-IsValid sub_block

busy-IsValid : IsValid busy
busy-IsValid = Reachable-IsValid 7 busy (next start (registers cid 0 register_step))

close_and_wait-settles_example :
    (c' : Client) × (close_and_wait 7 [] ((1 ∷ 2 ∷ []) ∷ []) (other "closed") busy ≡ runs c')
    × (close_client busy ≡ runs c')
    × Settled (failure (sentinel client_closed)) busy c'
close_and_wait-settles_example =
    close_and_wait-settles 7 [] ((1 ∷ 2 ∷ []) ∷ []) (other "closed") busy busy-IsValid refl
