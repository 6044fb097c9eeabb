-- ===== src/Client/Answers.antt =====
-- That a response goes to the command that it answers.
use simplex_go.Base.{
  ℕ, ◌≡◌, refl, ◌≢◌, inl, inr, false, some, Bool-cases, bytes_eq, bytes_eq_iff, ok,
}
use simplex_go.Transmission.{no_corr_id, Transmission}
use simplex_go.Broker.{BrokerMsg, decode_broker_msg}
use simplex_go.Client.{Client, dispatch, answer}
use simplex_go.Channel.{runs, lookup, delete, drop_key}
use simplex_go.Channel.Tables.{Every, Every-map, IsAbsent, set-same, set-other, delete-IsAbsent}
use simplex_go.Client.Shutdown.{IsValid, settled}
use simplex_go.Client.Reader.{answered, respond-eq-answered}

-- On a valid client, a transmission with a correlation id that is not zero, whose bytes are a
-- message of the server, and for whose id a command is in flight on the channel ch: dispatch runs to
-- its end, the channel holds that message alone and is closed, it is registered no more, the other
-- commands' channels are as they were, and so are the subscriptions.
pub dispatch-answers :
    (ver : ℕ) (tx : Transmission) (msg : BrokerMsg) (ch : ℕ) (c : Client)
    → IsValid c
    → tx.corr_id ≢ no_corr_id
    → decode_broker_msg ver tx.command ≡ ok msg
    → lookup tx.corr_id c.sent_cmds.entries ≡ some ch
    → (c' : Client) × (dispatch ver tx c ≡ runs c')
      × (c'.sent_cmds.heap ch ≡ settled (answer msg))
      × (c'.sent_cmds.entries ≡ delete tx.corr_id c.sent_cmds.entries)
      × IsAbsent ch c'.sent_cmds.entries
      × Every (λ n. c'.sent_cmds.heap n ≡ c.sent_cmds.heap n) c'.sent_cmds.entries
      × (c'.subs ≡ c.subs)
unfolding dispatch drop_key
dispatch-answers ver tx msg ch c v response good found =
    let absent = delete-IsAbsent tx.corr_id c.sent_cmds.entries ch v.sent_cmds.distinct found in
    (
      answered tx.corr_id ch msg c,
      rw (good, is_response) (respond-eq-answered tx.corr_id ch msg c v found),
      set-same ch (settled (answer msg)) c.sent_cmds.heap,
      refl,
      absent,
      Every-map (λ n. n ≢ ch) _ (λ n q. set-other ch n (settled (answer msg)) c.sent_cmds.heap q) _
          absent,
      refl,
    )
  where
    is_response : bytes_eq tx.corr_id no_corr_id ≡ false
    is_response = elim (Bool-cases (bytes_eq tx.corr_id no_corr_id)) [
      | inl zero_id ↦ absurd (response ((bytes_eq_iff tx.corr_id no_corr_id).0 zero_id))
      | inr other_id ↦ other_id
    ]
