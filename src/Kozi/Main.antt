-- ===== src/Kozi/Main.antt =====
-- cmd/kozi-cli/main.go: the choice of the command, and the exit status.
pub mod Changes
pub mod Effects
pub mod Invariant
use simplex_go.Base.{
  ℕ, Bool, false, ◌||◌, List, [], ◌∷◌, if◌then◌else◌, Bytes, codes, bytes_eq, Result, ok, err,
}
use simplex_go.Kozi.{Os, cmd_pair, cmd_list, cmd_unpair, cmd_set_location}
use simplex_go.Kozi.Watch.{WatchConfig, cmd_proximity_watch}

abbrev pub one_of : Bytes → List Bytes → Bool
one_of name [] = false
one_of name (n ∷ ns) = bytes_eq name n || one_of name ns

module _ {S : Type 0} (os : Os S) (fires : ℕ) (cfg : WatchConfig S) where
  abbrev pub exited : Result (Unit {0}) × S → ℕ × S
  exited (ok _, s) = (0, s)
  exited (err e, s) = (1, s)

  -- The arguments after the program's own name.
  unfoldable pub run_main : List Bytes → S → ℕ × S
  run_main [] s = (2, s)
  run_main (name ∷ args) s =
      if bytes_eq name (codes "pair")
      then exited (cmd_pair os args s)
      else if bytes_eq name (codes "list")
      then exited (cmd_list os args s)
      else if bytes_eq name (codes "set-location")
      then exited (cmd_set_location os args s)
      else if bytes_eq name (codes "proximity-watch")
      then exited (cmd_proximity_watch os fires cfg args s)
      else if bytes_eq name (codes "unpair")
      then exited (cmd_unpair os args s)
      else if one_of name (codes "help" ∷ codes "-h" ∷ codes "--help" ∷ [])
      then (0, s)
      else if one_of name (codes "version" ∷ codes "-V" ∷ codes "--version" ∷ [])
      then (0, s)
      else (2, s)
