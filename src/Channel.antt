-- ===== src/Channel.antt =====
-- Go channels, and the maps of smp/client.go whose values are channels. A channel is a number, the
-- place of its state in a heap.
pub mod Tables
pub mod Drains
use simplex_go.Base.{
  ℕ, suc, Bool, true, false, Option, none, some, List, [], ◌∷◌, ◌++◌, ltb, ◌==◌, if◌then◌else◌,
  length, Bytes, bytes_eq,
}

pub record Chan (A : Type 0) : Type 0 where
  pub buffer : List A
  pub capacity : ℕ
  pub closed : Bool

-- What running some code comes to: it goes on, it panics, or it blocks on a full channel.
pub data Outcome (A : Type 0) : Type 0 where
  runs : A → Outcome A
  panics blocks : Outcome A

abbrev pub and_then : {A B : Type 0} → Outcome A → (A → Outcome B) → Outcome B
and_then (runs a) f = f a
and_then panics f = panics
and_then blocks f = blocks

module _ {A : Type 0} where
  -- make(chan A, capacity)
  abbrev pub make : ℕ → Chan A
  make capacity = record { buffer = []; capacity = capacity; closed = false }

  -- ch <- a
  unfoldable pub send : A → Chan A → Outcome (Chan A)
  send a c =
      if c.closed
      then panics
      else if ltb (length c.buffer) c.capacity
      then runs (record c { buffer = c.buffer ++ (a ∷ []) })
      else blocks

  -- select { case ch <- a: default: }
  unfoldable pub try_send : A → Chan A → Outcome (Chan A)
  try_send a c =
      if c.closed
      then panics
      else if ltb (length c.buffer) c.capacity
      then runs (record c { buffer = c.buffer ++ (a ∷ []) })
      else runs c

  -- close(ch)
  unfoldable pub close : Chan A → Outcome (Chan A)
  close c = if c.closed then panics else runs (record c { closed = true })

abbrev pub Entries : Type 0
Entries = List (Bytes × ℕ)

-- m[key]
unfoldable pub lookup : Bytes → Entries → Option ℕ
lookup key [] = none
lookup key ((k, ch) ∷ es) = if bytes_eq k key then some ch else lookup key es

-- delete(m, key)
unfoldable pub delete : Bytes → Entries → Entries
delete key [] = []
delete key ((k, ch) ∷ es) =
    let rest = delete key es in if bytes_eq k key then rest else (k, ch) ∷ rest

-- A map from keys to channels, the states of all channels made so far, and their number.
pub record Table (A : Type 0) : Type 0 where
  pub entries : Entries
  pub heap : ℕ → Chan A
  pub next : ℕ

module _ {A : Type 0} where
  unfoldable pub set : ℕ → Chan A → (ℕ → Chan A) → ℕ → Chan A
  set ch c heap n = if n == ch then c else heap n

  -- ch := make(chan A, capacity); m[key] = ch. The new channel is `t.next`.
  unfoldable pub insert : Bytes → ℕ → Table A → Table A
  insert key capacity t = record {
    entries = (key, t.next) ∷ delete key t.entries;
    heap = set t.next (make capacity) t.heap;
    next = suc t.next;
  }

  unfoldable pub drop_key : Bytes → Table A → Table A
  drop_key key t = record t { entries = delete key t.entries }

  -- An operation on the channel ch.
  unfoldable pub on_channel : (Chan A → Outcome (Chan A)) → ℕ → Table A → Outcome (Table A)
  on_channel f ch t = and_then (f (t.heap ch)) λ c. runs (record t { heap = set ch c t.heap })

  -- for key, ch := range m { f(ch); delete(m, key) }, in the order of the list.
  unfoldable pub drain : (Chan A → Outcome (Chan A)) → Entries → (ℕ → Chan A) → Outcome (ℕ → Chan A)
  drain f [] heap = runs heap
  drain f ((k, ch) ∷ es) heap = and_then (f (heap ch)) λ c. drain f es (set ch c heap)

  unfoldable pub drain_all : (Chan A → Outcome (Chan A)) → Table A → Outcome (Table A)
  drain_all f t =
      and_then (drain f t.entries t.heap) λ heap. runs (record t { entries = []; heap = heap })
