-- ===== src/Client/Settling.antt =====
-- What a response and a shutdown leave for a command that waits.
use simplex_go.Base.{
  ℕ, ◌≡◌, refl, sym, ap, ◌∙◌, subst, ◌≢◌, ◌⊎◌, inl, inr, none, some, [], Bool-cases, Option-cases,
  Bytes, bytes_eq, bytes_eq_iff,
}
use simplex_go.Client.{BrokerResult, Client, settle, shut_down, respond, answer}
use simplex_go.Channel.{close, lookup, delete, set, drop_key, drain_all, runs}
use simplex_go.Broker.{BrokerMsg}
use simplex_go.Channel.Tables.{
  Holds, Every-lookup, Every-delete, delete-IsAbsent, set-same, set-other,
}
use simplex_go.Channel.Drains.{drain-runs}
use simplex_go.Client.Shutdown.{
  IsWaiting, IsOpen, IsValid, settled, settle-waiting, closed_chan, close-open,
}
use simplex_go.Client.Reader.{answered, respond-eq-answered}
use simplex_go.Client.Waiting.{HasResult, Pending, lookup-delete_self, lookup-delete_other}

pub runs-injective : {c c' : Client} → runs c ≡ runs c' → c ≡ c'
runs-injective e = cc

pub bytes_cases : (xs ys : Bytes) → (xs ≡ ys) ⊎ (xs ≢ ys)
bytes_cases xs ys = elim (Bool-cases (bytes_eq xs ys)) [
  | inl same ↦ inl ((bytes_eq_iff xs ys).0 same)
  | inr differs ↦ inr (λ e. cc (differs, (bytes_eq_iff xs ys).1 e))
]

after_answer :
    {From : BrokerResult → Type 0} (cid key : Bytes) (ch n : ℕ) (msg : BrokerMsg) (c : Client)
    → IsValid c
    → lookup key c.sent_cmds.entries ≡ some n
    → Pending From cid ch c.sent_cmds
    → (key ≡ cid → From (answer msg))
    → (key ≡ cid) ⊎ (key ≢ cid)
    → Pending From cid ch (answered key n msg c).sent_cmds
unfolding drop_key
after_answer cid key ch n msg c v found (inr h) gives mine =
    let ne : n ≢ ch = Every-lookup (λ m. m ≢ ch) key c.sent_cmds.entries h.absent found in
    inr (record {
      result = h.result;
      from = h.from;
      state = set-other n ch (settled (answer msg)) c.sent_cmds.heap (λ e. ne (sym e)) ∙ h.state;
      made = h.made;
      absent = Every-delete (λ m. m ≢ ch) key c.sent_cmds.entries h.absent;
      gone = still_gone mine;
    })
  where
    still_gone : (key ≡ cid) ⊎ (key ≢ cid) → lookup cid (delete key c.sent_cmds.entries) ≡ none
    still_gone (inl same) =
        let absurd_entry : some n ≡ none =
          sym found ∙ ap (λ (k : Bytes). lookup k c.sent_cmds.entries) same ∙ h.gone in
        cc absurd_entry
    still_gone (inr differs) = lookup-delete_other cid key c.sent_cmds.entries differs ∙ h.gone
after_answer cid key ch n msg c v found (inl waiting) gives (inr differs) =
    inl (lookup-delete_other cid key c.sent_cmds.entries differs ∙ waiting)
after_answer cid key ch n msg c v found (inl waiting) gives (inl same) =
    let there : lookup key c.sent_cmds.entries ≡ some ch =
      ap (λ (k : Bytes). lookup k c.sent_cmds.entries) same ∙ waiting in
    let at_n : some n ≡ some ch = sym found ∙ there in
    let n_is : n ≡ ch = cc at_n in
    inr (record {
      result = answer msg;
      from = gives same;
      state =
          ap (λ (k : ℕ). set k (settled (answer msg)) c.sent_cmds.heap ch) n_is
          ∙ set-same ch (settled (answer msg)) c.sent_cmds.heap;
      made =
          (Every-lookup (Holds IsWaiting c.sent_cmds.next c.sent_cmds.heap) key c.sent_cmds.entries
            v.sent_cmds.every there).0;
      absent = delete-IsAbsent key c.sent_cmds.entries ch v.sent_cmds.distinct there;
      gone =
          subst (λ (k : Bytes). lookup k (delete key c.sent_cmds.entries) ≡ none) same
            (lookup-delete_self key c.sent_cmds.entries);
    })

-- What a shutdown leaves for a command.
pub shut_down-HasResult :
    {From : BrokerResult → Type 0} (r : BrokerResult) (cid : Bytes) (ch : ℕ) (c c' : Client)
    → IsValid c
    → shut_down r c ≡ runs c'
    → From r
    → Pending From cid ch c.sent_cmds
    → HasResult From cid ch c'.sent_cmds
unfolding shut_down drain_all lookup
shut_down-HasResult r cid ch c c' v e given pending =
    let (sent, p, each, untouched) =
      drain-runs IsWaiting (settle r) (λ x. settled r) (settle-waiting r) c.sent_cmds.next
        c.sent_cmds.entries c.sent_cmds.heap v.sent_cmds.every v.sent_cmds.distinct in
    let (subs, q, _, _) =
      drain-runs IsOpen close closed_chan close-open c.subs.next c.subs.entries c.subs.heap
        v.subs.every v.subs.distinct in
    let ran = rw (p, q) at e in
    let same : record c.sent_cmds { entries = []; heap = sent } ≡ c'.sent_cmds = cc ran in
    subst (HasResult _ cid ch) same (elim pending [
      | inl waiting ↦ record {
        result = r;
        from = given;
        state = Every-lookup (λ n. sent n ≡ settled r) cid c.sent_cmds.entries each waiting;
        made =
            (Every-lookup (Holds IsWaiting c.sent_cmds.next c.sent_cmds.heap) cid
              c.sent_cmds.entries v.sent_cmds.every waiting).0;
        absent = tt;
        gone = refl;
      }
      | inr h ↦ record {
        result = h.result;
        from = h.from;
        state = untouched ch h.absent ∙ h.state;
        made = h.made;
        absent = tt;
        gone = refl;
      }
    ])

-- A response is for the command, or for another one.
pub respond-Pending :
    {From : BrokerResult → Type 0} (cid key : Bytes) (ch : ℕ) (msg : BrokerMsg) (c c' : Client)
    → IsValid c
    → respond key msg c ≡ runs c'
    → (key ≡ cid → From (answer msg))
    → Pending From cid ch c.sent_cmds
    → Pending From cid ch c'.sent_cmds
unfolding respond
respond-Pending {From} cid key ch msg c c' v e gives pending =
    elim (Option-cases (lookup key c.sent_cmds.entries)) [
      | inl missing ↦
          let same : runs c ≡ runs c' = rw (missing, respond) at e in
          subst (λ (x : Client). Pending From cid ch x.sent_cmds) (runs-injective same) pending
      | inr (n, found) ↦
          let same : answered key n msg c ≡ c' =
            runs-injective (sym (respond-eq-answered key n msg c v found) ∙ e) in
          subst (λ (x : Client). Pending From cid ch x.sent_cmds) same
            (after_answer cid key ch n msg c v found pending gives (bytes_cases key cid))
    ]
