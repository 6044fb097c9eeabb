-- ===== src/Tests/Subscribing.antt =====
-- A Subscribe, while whose block is being written another command is registered and the reader
-- dispatches the reply; one that the server ends; and one that Close overtakes before its send.
use simplex_go.Base.{◌≡◌, refl, some, [], codes, bytes_eq, has_prefix, ok}
use simplex_go.Channel.{
  close, lookup, delete, set, insert, drop_key, on_channel, drain, drain_all, panics,
}
use simplex_go.Client.{
  Client, settle, shut_down, close_client, deliver, push, dispatch, register, forget, subscribe,
  unsubscribe, close_sub, conclude,
}
use simplex_go.Client.Steps.{new_client}
use simplex_go.Client.Send.{send}
use simplex_go.Client.Subscription.{subscribe_queue}
use simplex_go.Tests.Sharing.{cid, queue, first_byte}
use simplex_go.Channel
use simplex_go.Transmission.{Transmission, no_corr_id}
use simplex_go.Broker.{decode_broker_msg}
use simplex_go.Client.Send.{World}
use simplex_go.Tests.Sending.{sub_block, after, taken, world}

-- Nothing happens between two sections.
abbrev pause : Client × Unit {0} → Client × Unit {0}
pause w = w

abbrev ending : Transmission
ending = record {
  corr_id = no_corr_id;
  entity_id = queue;
  command = codes "END";
  authorization = [];
}

-- The server ends the subscription while the block is being written, and the SUB is never answered.
abbrev ending_world : World (Unit {0})
ending_world = record {
  write_block = λ block w. (ok tt, (after (dispatch 7 ending w.0) w.0, tt));
  select = λ n w. let r = taken n (w.0.sent_cmds.heap n).buffer w.0 in (r.0, (r.1, tt));
}

ended_subscribe :
    subscribe_queue ending_world pause 7 [] (some first_byte) queue (ok cid) (new_client, tt)
    ≡ panics
unfolding subscribe_queue subscribe unsubscribe close_sub send register dispatch conclude bytes_eq
    has_prefix decode_broker_msg lookup insert on_channel Channel.send set close drop_key push
    deliver forget
ended_subscribe = rw sub_block refl

-- Close before the send: send returns ErrClientClosed, and the channel is closed twice.
closes_first : Client × Unit {0} → Client × Unit {0}
closes_first w = (after (close_client w.0) w.0, tt)

closed_subscribe :
    subscribe_queue world closes_first 7 [] (some first_byte) queue (ok cid) (new_client, tt)
    ≡ panics
unfolding subscribe_queue closes_first subscribe unsubscribe close_client close_sub send register
    lookup insert on_channel close drop_key shut_down Channel.drain_all Channel.drain set
    Channel.delete conclude settle
closed_subscribe = rw sub_block refl
