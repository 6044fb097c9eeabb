-- ===== src/Kozi/Watch.antt =====
-- cmd/kozi-cli/proximity.go: one round of the watch, and the loop of rounds. The notifier is a
-- parameter; what is printed is the report of a round.
pub mod Matches
use simplex_go.Base.{
  ℕ, zero, suc, Bool, false, not, Option, none, some, List, [], ◌∷◌, ◌++◌, if◌then◌else◌, Bytes,
  codes, bytes_eq, Error, Result, Op, fail, other, within, ok, err,
}
use simplex_go.Text.Hex
use simplex_go.Kozi.{Buddy, State, Os, normalize_plus_code, load_state}

-- The notifier of the configuration, or nil. The interval is the ticker's, and the time is used for
-- the slot ids and in what is printed.
pub record WatchConfig (S : Type 0) : Type 0 where
  pub notifier : Option (Bytes → Bytes → Op S (Unit {0}))

-- The names that triggered a notification, and the error if there is one.
abbrev pub Matches : Type 0
Matches = List Bytes × Option Error

abbrev pub title : Bytes
title = codes "Kozi: proximity match"

abbrev pub body : Bytes → Buddy → Bytes
body my_grid b = b.name ++ (codes " might be nearby (neighborhood " ++ (my_grid ++ codes ")"))

-- What a round prints: to stderr an error, to stdout the matches if there are any.
pub data Report : Type 0 where
  load_failed : Error → Report
  watch_failed : Error → Report
  matched : List Bytes → Report
  nothing_printed : Report

abbrev pub reported : List Bytes → Report
reported [] = nothing_printed
reported (name ∷ names) = matched (name ∷ names)

module _ {S : Type 0} (os : Os S) where
  unfoldable pub derive_slot_id : (shared_secret_hex hour_bucket : Bytes) → Bytes
  derive_slot_id secret bucket = Hex.encode (os.sha256 (secret ++ (codes ":" ++ bucket)))

  -- The two tests of the loop that go on to the next buddy.
  unfoldable pub is_nearby : Bytes → Buddy → Bool
  is_nearby my_grid b =
      if bytes_eq b.last_seen_grid []
      then false
      else bytes_eq (normalize_plus_code os b.last_seen_grid) my_grid

  -- After Notify: the next buddies, or the return with the error.
  abbrev pub notified :
      List Bytes → (List Bytes → S → Matches × S) → Result (Unit {0}) × S → Matches × S
  notified matches rest (ok _, s) = rest matches s
  notified matches rest (err e, s) = ((matches, some (within "notify" e)), s)

  -- The loop over the buddies, with the matches so far. The slot ids that it derives are not used.
  unfoldable pub watch_buddies :
      (Bytes → Bytes → Op S (Unit {0})) → Bytes → List Buddy → List Bytes → S → Matches × S
  watch_buddies notify my_grid [] matches s = ((matches, none), s)
  watch_buddies notify my_grid (b ∷ bs) matches s =
      let rest = watch_buddies notify my_grid bs in
      if is_nearby my_grid b
      then notified (matches ++ (b.name ∷ [])) rest (notify title (body my_grid b) s)
      else rest matches s

  unfoldable pub watch_once : WatchConfig S → State → S → Matches × S
  watch_once cfg st s = elim cfg.notifier [
    | none ↦ (([], some (other "watchOnce: cfg.Notifier is nil")), s)
    | some notify ↦
        if bytes_eq st.current_location []
        then (([], some (other "current location not set")), s)
        else watch_buddies notify (normalize_plus_code os st.current_location) st.buddies [] s
  ]

  abbrev pub watched : Matches × S → Report × S
  watched ((matches, none), s) = (reported matches, s)
  watched ((matches, some e), s) = (watch_failed e, s)

  abbrev pub loaded : WatchConfig S → Result State × S → Report × S
  loaded cfg (ok st, s) = watched (watch_once cfg st s)
  loaded cfg (err e, s) = (load_failed e, s)

  unfoldable pub tick : WatchConfig S → S → Report × S
  tick cfg s = loaded cfg (load_state os s)

  -- The loop when the ticker fires so many times before the context is done.
  unfoldable pub run_watch_loop : ℕ → WatchConfig S → S → List Report × S
  run_watch_loop zero cfg s = let r = tick cfg s in (r.0 ∷ [], r.1)
  run_watch_loop (suc fires) cfg s =
      let r = tick cfg s in let rest = run_watch_loop fires cfg r.1 in (r.0 ∷ rest.0, rest.1)

  -- runWatchLoop returns nil, so the command ends without an error.
  unfoldable pub cmd_proximity_watch : ℕ → WatchConfig S → List Bytes → Op S (Unit {0})
  cmd_proximity_watch fires cfg [] = λ s. (ok tt, (run_watch_loop fires cfg s).1)
  cmd_proximity_watch fires cfg _ = fail (other "proximity-watch takes no arguments")
