-- ===== src/Client/Closing.antt =====
-- smp/client.go: Close from its start to its end, with the wait for the reader.
use simplex_go.Base.{
  ℕ, ◌≡◌, refl, ap, ◌∙◌, inl, inr, true, false, none, List, [], ◌∷◌, if◌then◌else◌, Bool-cases,
  if_false, if_true, Bytes, bytes_eq, Error, Result-cases, client_closed, sentinel,
}
use simplex_go.Block.{decode_block}
use simplex_go.Broker.{BrokerMsg, decode_broker_msg}
use simplex_go.Transmission.{Transmission, no_corr_id}
use simplex_go.Channel.{Outcome, and_then, lookup, runs}
use simplex_go.Client.{
  Client, close_client, handle_read_error, push, respond, dispatch, dispatch_all, on_block,
  read_loop, failure,
}
use simplex_go.Client.Shutdown.{IsValid, Settled, close_client-settles}

-- Close after its section: the transport is closed, whose error is what Close returns, and the reader
-- still reads these blocks and then the error that ends its loop.
unfoldable pub close_and_wait : ℕ → Bytes → List Bytes → Error → Client → Outcome Client
close_and_wait v sess_id blocks' e c =
    if c.closed then runs c else and_then (close_client c) (read_loop v sess_id blocks' e)

-- The client is closed and has nothing registered.
record IsIdle (c : Client) : Type 0 where
  is_closed : c.closed ≡ true
  no_cmds : c.sent_cmds.entries ≡ []
  no_subs : c.subs.entries ≡ []

push-IsIdle : (key : Bytes) (msg : BrokerMsg) (c : Client) → IsIdle c → push key msg c ≡ runs c
unfolding push lookup
push-IsIdle key msg c h =
    let missing : lookup key c.subs.entries ≡ none = ap (lookup key) h.no_subs in
    rw (missing, push) refl

respond-IsIdle :
    (key : Bytes) (msg : BrokerMsg) (c : Client) → IsIdle c → respond key msg c ≡ runs c
unfolding respond lookup
respond-IsIdle key msg c h =
    let missing : lookup key c.sent_cmds.entries ≡ none = ap (lookup key) h.no_cmds in
    rw (missing, respond) refl

dispatch-IsIdle : (ver : ℕ) (tx : Transmission) (c : Client) → IsIdle c → dispatch ver tx c ≡ runs c
unfolding dispatch
dispatch-IsIdle ver tx c h = elim (Result-cases (decode_broker_msg ver tx.command)) [
  | inr (x, bad) ↦ rw bad refl
  | inl (msg, good) ↦ elim (Bool-cases (bytes_eq tx.corr_id no_corr_id)) [
    | inl event ↦ rw (good, event) (push-IsIdle tx.entity_id msg c h)
    | inr response ↦ rw (good, response) (respond-IsIdle tx.corr_id msg c h)
  ]
]

dispatch_all-IsIdle :
    (ver : ℕ) (txs : List Transmission) (c : Client) → IsIdle c → dispatch_all ver txs c ≡ runs c
unfolding dispatch_all
dispatch_all-IsIdle ver [] c h = refl
dispatch_all-IsIdle ver (tx ∷ txs) c h =
    rw (dispatch-IsIdle ver tx c h) (dispatch_all-IsIdle ver txs c h)

on_block-IsIdle :
    (ver : ℕ) (sess_id block : Bytes) (c : Client)
    → IsIdle c
    → on_block ver sess_id block c ≡ runs c
unfolding on_block
on_block-IsIdle ver s block c h = elim (Result-cases (decode_block ver s block)) [
  | inr (e, bad) ↦ rw bad refl
  | inl (txs, good) ↦ rw good (dispatch_all-IsIdle ver txs c h)
]

read_loop-IsIdle :
    (ver : ℕ) (sess_id : Bytes) (blocks' : List Bytes) (e : Error) (c : Client)
    → IsIdle c
    → read_loop ver sess_id blocks' e c ≡ runs c
unfolding read_loop handle_read_error
read_loop-IsIdle ver s [] e c h = if_true c.closed _ _ h.is_closed
read_loop-IsIdle ver s (block ∷ bs) e c h =
    rw (on_block-IsIdle ver s block c h) (read_loop-IsIdle ver s bs e c h)

-- Close on a client that is open and valid returns, whatever blocks the reader still reads before its
-- read fails: no panic and no block on a channel. It has settled the client as its section does, each
-- command with ErrClientClosed, and the reader has changed nothing since.
pub close_and_wait-settles :
    (ver : ℕ) (sess_id : Bytes) (blocks' : List Bytes) (e : Error) (c : Client)
    → IsValid c
    → c.closed ≡ false
    → (c' : Client) × (close_and_wait ver sess_id blocks' e c ≡ runs c')
      × (close_client c ≡ runs c')
      × Settled (failure (sentinel client_closed)) c c'
unfolding close_and_wait
close_and_wait-settles ver s bs e c v alive =
    let ((c', p, settled, _, _), _) = close_client-settles e c v alive in
    let idle : IsIdle c' = record {
      is_closed = settled.closed;
      no_cmds = settled.no_cmds;
      no_subs = settled.no_subs;
    } in
    (
      c',
      if_false c.closed _ _ alive
          ∙ ap (λ o. and_then o (read_loop ver s bs e)) p
          ∙ read_loop-IsIdle ver s bs e c' idle,
      p,
      settled,
    )
