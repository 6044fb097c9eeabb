-- ===== src/Client/Shutdown.antt =====
-- The invariant of a Client, and what Close and the end of the reading leave behind.
use simplex_go.Base.{
  ℕ, ◌≡◌, refl, sym, ap, ◌∙◌, subst, ◌⊎◌, inr, true, false, some, [], ◌∷◌, if_false, Bytes, Error,
  client_closed, sentinel, within,
}
use simplex_go.Broker.{Message}
use simplex_go.Channel.{runs, panics, send, close, lookup, Chan, on_channel, drop_key, drain_all}
use simplex_go.Channel.Tables.{Every, Every-lookup, IsDistinct, IsTable, Holds}
use simplex_go.Channel.Drains.{drain-runs}
use simplex_go.Client.{
  BrokerResult, Client, settle, shut_down, close_client, handle_read_error, unsubscribe, close_sub,
  failure,
}

-- The channel of a command in flight: nothing has been sent on it, and one result has room.
pub record IsWaiting (c : Chan BrokerResult) : Type 0 where
  pub still_open : c.closed ≡ false
  pub empty : c.buffer ≡ []
  pub room : c.capacity ≡ 1

abbrev pub IsOpen : Chan Message → Type 0
IsOpen c = c.closed ≡ false

-- Every registered channel is open and registered once, and a client that is closed has none.
pub record IsValid (c : Client) : Type 0 where
  pub sent_cmds : IsTable IsWaiting c.sent_cmds
  pub subs : IsTable IsOpen c.subs
  pub drained : (c.closed ≡ false) ⊎ ((c.sent_cmds.entries ≡ []) × (c.subs.entries ≡ []))

-- The state of a channel that got its one result and was closed.
abbrev pub settled : BrokerResult → Chan BrokerResult
settled r = record { buffer = r ∷ []; capacity = 1; closed = true }

abbrev pub closed_chan : Chan Message → Chan Message
closed_chan c = record c { closed = true }

pub settle-waiting :
    (r : BrokerResult) (c : Chan BrokerResult) → IsWaiting c → settle r c ≡ runs (settled r)
unfolding settle send close
settle-waiting r c h = rw (h.still_open, h.empty, h.room)

pub close-open : (c : Chan Message) → IsOpen c → close c ≡ runs (closed_chan c)
unfolding close
close-open c h = rw h

pub close-closed : (c : Chan Message) → c.closed ≡ true → close c ≡ panics
unfolding close
close-closed c h = rw h

-- The client c was shut down, with the result r for its commands in flight, to c'.
pub record Settled (r : BrokerResult) (c c' : Client) : Type 0 where
  pub closed : c'.closed ≡ true
  pub no_cmds : c'.sent_cmds.entries ≡ []
  pub no_subs : c'.subs.entries ≡ []
  pub answered : Every (λ ch. c'.sent_cmds.heap ch ≡ settled r) c.sent_cmds.entries
  pub ended : Every (λ ch. c'.subs.heap ch ≡ closed_chan (c.subs.heap ch)) c.subs.entries

pub shut_down-settles :
    (r : BrokerResult) (c : Client)
    → IsValid c
    → (c' : Client) × (shut_down r c ≡ runs c') × Settled r c c'
unfolding shut_down drain_all
shut_down-settles r c v =
    let (sent, e, each, _) =
      drain-runs IsWaiting (settle r) (λ x. settled r) (settle-waiting r) c.sent_cmds.next
        c.sent_cmds.entries c.sent_cmds.heap v.sent_cmds.every v.sent_cmds.distinct in
    let (subs, e', each', _) =
      drain-runs IsOpen close closed_chan close-open c.subs.next c.subs.entries c.subs.heap
        v.subs.every v.subs.distinct in
    (
      record {
        closed = true;
        sent_cmds = record c.sent_cmds { entries = []; heap = sent };
        subs = record c.subs { entries = []; heap = subs };
      },
      rw (e, e'),
      record { closed = refl; no_cmds = refl; no_subs = refl; answered = each; ended = each' },
    )

pub Settled-IsValid : (r : BrokerResult) (c c' : Client) → Settled r c c' → IsValid c'
Settled-IsValid r c c' s = record {
  sent_cmds = record {
    every = subst (Every (Holds IsWaiting c'.sent_cmds.next c'.sent_cmds.heap)) (sym s.no_cmds) tt;
    distinct = subst IsDistinct (sym s.no_cmds) tt;
  };
  subs = record {
    every = subst (Every (Holds IsOpen c'.subs.next c'.subs.heap)) (sym s.no_subs) tt;
    distinct = subst IsDistinct (sym s.no_subs) tt;
  };
  drained = inr (s.no_cmds, s.no_subs);
}

-- On a client that is open and valid, Close and handleReadError run to the end of their sections,
-- without a panic and without blocking on a channel: each command in flight has got its one result,
-- ErrClientClosed or the error of the read, on a channel that is closed behind it, each subscription
-- is closed with its messages kept, and nothing is registered any more. Close or handleReadError
-- after that change nothing.
pub close_client-settles :
    (e : Error) (c : Client)
    → IsValid c
    → c.closed ≡ false
    → ((c' : Client) × (close_client c ≡ runs c')
        × Settled (failure (sentinel client_closed)) c c'
        × (close_client c' ≡ runs c')
        × (handle_read_error e c' ≡ runs c'))
      × ((c' : Client) × (handle_read_error e c ≡ runs c')
          × Settled (failure (within "smp: read" e)) c c'
          × (close_client c' ≡ runs c')
          × (handle_read_error e c' ≡ runs c'))
unfolding close_client handle_read_error
close_client-settles e c v alive =
    let (a, p, s) = shut_down-settles (failure (sentinel client_closed)) c v in
    let (b, q, t) = shut_down-settles (failure (within "smp: read" e)) c v in
    (
      (a, if_false c.closed _ _ alive ∙ p, s, rw s.closed, rw s.closed),
      (b, if_false c.closed _ _ alive ∙ q, t, rw t.closed, rw t.closed),
    )

-- On a client that is open and valid, with a subscription whose SUB is still in flight: once Close
-- or a read error has shut the client down, the error path of Subscribe, which deletes the key and
-- then closes the channel, panics, since the channel is closed already.
pub close_sub-panics :
    (e : Error) (key : Bytes) (ch : ℕ) (c : Client)
    → IsValid c
    → c.closed ≡ false
    → lookup key c.subs.entries ≡ some ch
    → ((c' : Client) × (close_client c ≡ runs c') × (close_sub ch (unsubscribe key c') ≡ panics))
      × ((c' : Client) × (handle_read_error e c ≡ runs c')
          × (close_sub ch (unsubscribe key c') ≡ panics))
unfolding close_sub unsubscribe drop_key on_channel
close_sub-panics e key ch c v alive found =
    let ((a, p, s, _, _), (b, q, t, _, _)) = close_client-settles e c v alive in
    ((a, p, double a s), (b, q, double b t))
  where
    double :
        {r : BrokerResult} (c' : Client)
        → Settled r c c'
        → close_sub ch (unsubscribe key c') ≡ panics
    double c' s =
        let state =
          Every-lookup (λ n. c'.subs.heap n ≡ closed_chan (c.subs.heap n)) key c.subs.entries
            s.ended found in
        rw (close-closed (c'.subs.heap ch) (ap (λ (x : Chan Message). x.closed) state))
