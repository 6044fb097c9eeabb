-- ===== src/Tests/Buddies.antt =====
-- kozi-cli on a file system with one file.
use simplex_go.Base.{
  ℕ, ◌≡◌, refl, ap, subst, ◌≢◌, ◌⊎◌, inl, inr, Option, none, some, List, [], ◌∷◌, map, arith, ◌==◌,
  if◌then◌else◌, ==_iff, Bool-cases, replicate, Bytes, codes, bytes_eq, Result, Op, other, ok, err,
}
use simplex_go.Kozi.{
  Buddy, State, FileRead, Os, without_plus, secret_input, derive_proximity_secret,
  normalize_plus_code, state_path, load_state, save_state, cmd_set_location, contents, not_exist,
}
use simplex_go.Address.{to_string}
use simplex_go.Kozi.Codes.{upper}
use simplex_go.Kozi.Secrets.{derive_proximity_secret-same_queue}
use simplex_go.Kozi.Watch.{WatchConfig, watch_once}
use simplex_go.Kozi.Watch.Matches.{Rounds, neighbours, watch_once-Rounds}
use simplex_go.Kozi.Main.{run_main}
use simplex_go.Kozi.Main.Changes.{Laws, Leaves}
use simplex_go.Kozi.Main.Effects.{run_main-Leaves}
use simplex_go.Kozi.Main.Invariant.{IsSound, run_main-IsSound}
use simplex_go.Tests.Addresses.{address, mirror, parse_address, parse_mirror}

abbrev stored : Option Bytes → FileRead
stored none = not_exist
stored (some data') = contents data'

-- The file is the location, and nothing else can be encoded.
abbrev encoded : ℕ → Bytes → List Buddy → Result Bytes
encoded version location [] = if version == 1 then ok location else err (other "version")
encoded version location (b ∷ bs) = err (other "buddies")

-- The state of the system is the file if it exists.
abbrev one_file : Os (Option Bytes)
one_file = record {
  user_config_dir = ok (codes "/c");
  join = λ parts. codes "/c/kozi/state.json";
  dir = λ path. codes "/c/kozi";
  read_file = λ path s. (stored s, s);
  mkdir_all = λ path s. (ok tt, s);
  write_file = λ path data' s. (ok tt, some data');
  unmarshal = λ data'. ok (record { version = 1; current_location = data'; buddies = [] });
  marshal = λ st. encoded st.version st.current_location st.buddies;
  to_upper = map upper;
  sha256 = λ x. replicate 32 9;
}

reads_back :
    (path data' : Bytes) (t t' : Option Bytes)
    → one_file.write_file path data' t ≡ (ok tt, t')
    → one_file.read_file path t' ≡ (contents data', t')
reads_back path data' t t' h =
    let same : some data' ≡ t' = ap (λ (r : Result (Unit {0}) × Option Bytes). r.1) h in
    subst (λ (x : Option Bytes). one_file.read_file path x ≡ (contents data', x)) same refl

decodes :
    (version : ℕ) (location : Bytes) (bs : List Buddy) (data' : Bytes)
    → encoded version location bs ≡ ok data'
    → one_file.unmarshal data'
      ≡ ok (record { version = version; current_location = location; buddies = bs })
decodes version location (b ∷ bs) data' h = cc h
decodes version location [] data' h = elim (Bool-cases (version == 1)) [
  | inr later ↦ cc (rw later at h)
  | inl first ↦
      let same : ok location ≡ ok data' = rw first at h in
      let number = (==_iff version 1).0 first in cc (same, number)
]

laws : Laws one_file
laws = record {
  read_only = λ path s. refl;
  reads_back = reads_back;
  decodes = λ st ascii. decodes st.version st.current_location st.buddies;
  digests = λ x. omega arith;
  uppers = λ s h. refl;
}

-- One queue, at two ports.
derive_proximity_secret-same_queue_example :
    ((address.sender_id ≡ mirror.sender_id)
      × (address.dh_pub_key ≡ mirror.dh_pub_key)
      × (address.server_fingerprint ≡ mirror.server_fingerprint))
    ⊎ ((secret_input address ≢ secret_input mirror)
        × (one_file.sha256 (secret_input address) ≡ one_file.sha256 (secret_input mirror)))
unfolding derive_proximity_secret
derive_proximity_secret-same_queue_example =
    derive_proximity_secret-same_queue one_file (to_string address) (to_string mirror) address
      mirror laws.digests parse_address parse_mirror refl

-- The second notification fails.
abbrev fails_at_ben : Bytes → Bytes → Op (Option Bytes) (Unit {0})
fails_at_ben title body s = elim s [
  | none ↦ (ok tt, some body)
  | some sent ↦ (err (other "no display"), some sent)
]

abbrev watcher : WatchConfig (Option Bytes)
watcher = record { notifier = some fails_at_ben }

abbrev seen : Bytes → Bytes → Buddy
seen name grid = record {
  name = name;
  shared_secret = [];
  simplex_link = [];
  last_seen_grid = grid;
  last_seen_at = 0;
}

abbrev three : State
three = record {
  version = 1;
  current_location = codes "7JVW52";
  buddies =
      seen (codes "ann") (codes "7jvw52+gr")
      ∷ seen (codes "cid") (codes "7JVW53")
      ∷ seen (codes "ben") (codes "7JVW52GR")
      ∷ [];
}

watch_once-Rounds_example :
    Rounds fails_at_ben
      (codes "7JVW52")
      []
      (neighbours three.current_location three.buddies)
      none
      (watch_once one_file watcher three none)
unfolding upper without_plus bytes_eq
watch_once-Rounds_example =
    watch_once-Rounds one_file watcher fails_at_ben three none laws.uppers refl refl (omega arith)
      (omega arith)

set_location :
    run_main one_file 0 watcher (codes "set-location" ∷ codes "7jvw52gr" ∷ []) none
    ≡ (0, some (codes "7JVW52"))
unfolding run_main cmd_set_location load_state save_state state_path normalize_plus_code
    without_plus upper bytes_eq
set_location = refl

abbrev fresh : State
fresh = record { version = 1; current_location = []; buddies = [] }

load_fresh : load_state one_file none ≡ (ok fresh, none)
unfolding load_state state_path
load_fresh = refl

run_main-Leaves_example :
    Leaves one_file laws
      (codes "set-location" ∷ codes "7jvw52gr" ∷ [])
      fresh
      (some (codes "7JVW52"))
unfolding bytes_eq
run_main-Leaves_example =
    run_main-Leaves one_file 0 watcher laws (codes "set-location" ∷ codes "7jvw52gr" ∷ []) fresh
      none (some (codes "7JVW52")) (omega arith) refl (tt, tt) load_fresh set_location

run_main-IsSound_example :
    (st' : State) × (load_state one_file (some (codes "7JVW52")) ≡ (ok st', some (codes "7JVW52")))
    × IsSound st'
unfolding bytes_eq
run_main-IsSound_example =
    run_main-IsSound one_file 0 watcher ((codes "set-location" ∷ codes "7jvw52gr" ∷ []) ∷ []) fresh
      none (some (codes "7JVW52")) laws ((omega arith, refl), tt) (tt, tt)
      (record { distinct = tt; short = omega arith }) load_fresh
      (some (codes "7JVW52"), set_location, refl)
