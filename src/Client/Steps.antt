-- ===== src/Client/Steps.antt =====
-- The steps that goroutines which share a Client take, in any order: each is one critical section of
-- the mutex, or one operation on a channel outside of it.
use simplex_go.Base.{ℕ, ◌≡◌, false, List, [], ◌∷◌, Bytes, Error, ok}
use simplex_go.Broker.{Message}
use simplex_go.Transmission.{Transmission}
use simplex_go.Client.{
  BrokerResult, Client, close_client, handle_read_error, dispatch, register, forget, subscribe,
  unsubscribe, close_sub, push_first,
}
use simplex_go.Channel.{runs, make, set}
use simplex_go.Channel.Tables.{IsAbsent}

-- NewClient: both maps are empty.
abbrev pub new_client : Client
new_client = record {
  closed = false;
  sent_cmds = record { entries = []; heap = λ n. make 0; next = 0 };
  subs = record { entries = []; heap = λ n. make 0; next = 0 };
}

-- `<-ch` of send, and of the reader of a subscription: the first element is taken.
abbrev pub take_result : ℕ → List BrokerResult → Client → Client
take_result ch rest c = record c {
  sent_cmds = record c.sent_cmds {
    heap = set ch (record (c.sent_cmds.heap ch) { buffer = rest }) c.sent_cmds.heap;
  };
}

abbrev pub take_message : ℕ → List Message → Client → Client
take_message ch rest c = record c {
  subs = record c.subs { heap = set ch (record (c.subs.heap ch) { buffer = rest }) c.subs.heap };
}

-- `abandons` is the close(ch) of Subscribe's error path, which comes after the deletion of its key.
pub data Step (ver : ℕ) : Client → Client → Type 0 where
  dispatches : {c c' : Client} (tx : Transmission) → dispatch ver tx c ≡ runs c' → Step ver c c'
  read_fails : {c c' : Client} (e : Error) → handle_read_error e c ≡ runs c' → Step ver c c'
  closes : {c c' : Client} → close_client c ≡ runs c' → Step ver c c'
  registers : {c c' : Client} (cid : Bytes) (ch : ℕ) → register cid c ≡ (ok ch, c') → Step ver c c'
  forgets : {c : Client} (cid : Bytes) → Step ver c (forget cid c)
  receives :
      {c : Client} (ch : ℕ) (r : BrokerResult) (rest : List BrokerResult)
      → (c.sent_cmds.heap ch).buffer ≡ r ∷ rest
      → Step ver c (take_result ch rest c)
  subscribes :
      {c c' : Client} (key : Bytes) (ch : ℕ) → subscribe key c ≡ (ok ch, c') → Step ver c c'
  unsubscribes : {c : Client} (key : Bytes) → Step ver c (unsubscribe key c)
  abandons :
      {c c' : Client} (ch : ℕ)
      → IsAbsent ch c.subs.entries
      → close_sub ch c ≡ runs c'
      → Step ver c c'
  pushes : {c c' : Client} (ch : ℕ) (m : Message) → push_first ch m c ≡ runs c' → Step ver c c'
  reads :
      {c : Client} (ch : ℕ) (m : Message) (rest : List Message)
      → (c.subs.heap ch).buffer ≡ m ∷ rest
      → Step ver c (take_message ch rest c)

pub data Reachable (ver : ℕ) : Client → Type 0 where
  start : Reachable ver new_client
  next : {c c' : Client} → Reachable ver c → Step ver c c' → Reachable ver c'
