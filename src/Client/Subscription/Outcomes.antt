-- ===== src/Client/Subscription/Outcomes.antt =====
-- What Subscribe comes to.
use simplex_go.Client.{Client}
