-- ===== src/Kozi.antt =====
-- cmd/kozi-cli/state.go and commands.go: the saved state, and the commands that change it. The file
-- system, encoding/json, path/filepath, strings.ToUpper and crypto/sha256 are parameters. What is
-- printed is left out.
pub mod Buddies
pub mod Saved
pub mod Secrets
pub mod Codes
pub mod Watch
pub mod Main
use simplex_go.Base.{
  pure, ℕ, Bool, true, false, not, Option, none, some, List, [], ◌∷◌, ◌++◌, ltb, ◌==◌,
  if◌then◌else◌, length, take, Bytes, codes, bytes_eq, Error, Result, wrap_result, Op, fail, wrap,
  ◌>>=◌, ◌>>◌, bind_result, other, within, ok, err,
}
use simplex_go.Block.{lift}
use simplex_go.Text.Hex
use simplex_go.Address.{SmpQueueUri, parse_smp_queue_uri}

-- A time.Time is the number that stands for it.
pub record Buddy : Type 0 where
  pub name : Bytes
  pub shared_secret : Bytes
  pub simplex_link : Bytes
  pub last_seen_grid : Bytes
  pub last_seen_at : ℕ

pub record State : Type 0 where
  pub version : ℕ
  pub current_location : Bytes
  pub buddies : List Buddy

abbrev pub state_version : ℕ
state_version = 1

abbrev pub proximity_prefix_len : ℕ
proximity_prefix_len = 6

-- The outcome of os.ReadFile.
pub data FileRead : Type 0 where
  contents : Bytes → FileRead
  not_exist : FileRead
  unreadable : Error → FileRead

pub record Os (S : Type 0) : Type 0 where
  pub user_config_dir : Result Bytes
  pub join : List Bytes → Bytes
  pub dir : Bytes → Bytes
  pub read_file : Bytes → S → FileRead × S
  pub mkdir_all : Bytes → Op S (Unit {0})
  pub write_file : Bytes → Bytes → Op S (Unit {0})
  pub unmarshal : Bytes → Result State
  pub marshal : State → Result Bytes
  pub to_upper : Bytes → Bytes
  pub sha256 : Bytes → Bytes

-- strings.ReplaceAll(s, "+", "")
unfoldable pub without_plus : Bytes → Bytes
without_plus [] = []
without_plus (b ∷ bs) = let rest = without_plus bs in if b == b'+' then rest else b ∷ rest

-- The loop of cmdPair over the buddies.
unfoldable pub is_paired : Bytes → List Buddy → Bool
is_paired name [] = false
is_paired name (b ∷ bs) = if bytes_eq b.name name then true else is_paired name bs

abbrev pub keep : Buddy → Option (List Buddy) → Option (List Buddy)
keep b none = none
keep b (some bs) = some (b ∷ bs)

-- The loop of cmdUnpair: the buddies without the first of that name, if there is one.
unfoldable pub without_buddy : Bytes → List Buddy → Option (List Buddy)
without_buddy name [] = none
without_buddy name (b ∷ bs) =
    let rest = without_buddy name bs in if bytes_eq b.name name then some bs else keep b rest

-- cmdPair between loadState and saveState; `secret` is in hexadecimal.
unfoldable pub add_buddy : (name secret uri : Bytes) → State → Result State
add_buddy name secret uri s =
    if is_paired name s.buddies
    then err (other "buddy already paired")
    else ok (record s {
      buddies =
          s.buddies
          ++ (record {
            name = name;
            shared_secret = secret;
            simplex_link = uri;
            last_seen_grid = [];
            last_seen_at = 0;
          }
              ∷ []);
    })

-- cmdUnpair between loadState and saveState.
unfoldable pub remove_buddy : Bytes → State → Result State
remove_buddy name s = elim (without_buddy name s.buddies) [
  | none ↦ err (other "no buddy of that name")
  | some bs ↦ ok (record s { buddies = bs })
]

-- What deriveProximitySecret hashes; the tag ends in a zero byte.
abbrev pub secret_input : SmpQueueUri → Bytes
secret_input uri =
    codes "kozi-proximity-v1" ++ (0 ∷ (uri.sender_id ++ (uri.dh_pub_key ++ uri.server_fingerprint)))

module _ {S : Type 0} (os : Os S) where
  unfoldable pub derive_proximity_secret : SmpQueueUri → Bytes
  derive_proximity_secret uri = os.sha256 (secret_input uri)

  unfoldable pub normalize_plus_code : Bytes → Bytes
  normalize_plus_code s =
      let code = os.to_upper (without_plus s) in
      if ltb proximity_prefix_len (length code) then take proximity_prefix_len code else code

  unfoldable pub state_path : Result Bytes
  state_path =
      bind_result (wrap_result "locate config dir" os.user_config_dir)
        λ cfg. ok (os.join (cfg ∷ codes "kozi" ∷ codes "state.json" ∷ []))

  abbrev pub parsed : FileRead → Result State
  parsed not_exist = ok (record { version = state_version; current_location = []; buddies = [] })
  parsed (unreadable e) = err (within "read state" e)
  parsed (contents data') = wrap_result "parse state" (os.unmarshal data')

  unfoldable pub load_state : Op S State
  load_state = do path ← lift state_path; λ s. (let r = os.read_file path s in (parsed r.0, r.1))

  unfoldable pub save_state : State → Op S (Unit {0})
  save_state st = do
    path ← lift state_path
    wrap "create config dir" (os.mkdir_all (os.dir path))
    bytes ← lift (wrap_result "encode state" (os.marshal st))
    wrap "write state" (os.write_file path bytes)

  unfoldable pub cmd_pair : List Bytes → Op S (Unit {0})
  cmd_pair (name ∷ uri ∷ []) =
      if bytes_eq name [] then fail (other "buddy name must not be empty") else (do
        address ← lift (wrap_result "parse SMP URI" (parse_smp_queue_uri uri))
        st ← load_state
        st' ← lift (add_buddy name (Hex.encode (derive_proximity_secret address)) uri st)
        save_state st')
  cmd_pair _ = fail (other "pair requires <buddy-name> <smp-uri>")

  unfoldable pub cmd_list : List Bytes → Op S (Unit {0})
  cmd_list [] = do st ← load_state; pure tt
  cmd_list _ = fail (other "list takes no arguments")

  unfoldable pub cmd_unpair : List Bytes → Op S (Unit {0})
  cmd_unpair (name ∷ []) = do st ← load_state; st' ← lift (remove_buddy name st); save_state st'
  cmd_unpair _ = fail (other "unpair requires exactly one argument: <buddy-name>")

  unfoldable pub cmd_set_location : List Bytes → Op S (Unit {0})
  cmd_set_location (raw ∷ []) =
      if ltb (length raw) 4
      then fail (other "plus-code too short (need at least 4 chars)")
      else if ltb 16 (length raw)
      then fail (other "plus-code implausibly long (max 16 chars before normalization)")
      else (do
        st ← load_state
        save_state (record st { current_location = normalize_plus_code raw }))
  cmd_set_location _ = fail (other "set-location requires exactly one argument: <plus-code>")
