-- ===== src/Tests/Asking.antt =====
-- An Ack that is answered while its block is being written.
use simplex_go.Base.{[], ◌∷◌, ◌++◌, codes}
use simplex_go.Transmission.{Transmission}
use simplex_go.Channel
use simplex_go.Tests.Sharing.{cid, queue}

abbrev ack_tx : Transmission
ack_tx = record {
  corr_id = cid;
  entity_id = queue;
  command = codes "ACK " ++ (1 ∷ 9 ∷ []);
  authorization = 0 ∷ [];
}
