-- ===== src/Content/Cache/Shared.antt =====
-- internal/content/cache.go: a cache that goroutines share, while artifacts are stored.
pub mod Items
pub mod Answers
use libfossil.Base.{
  ℕ, zero, suc, ◌≡◌, Option, none, some, List, [], ◌∷◌, ◌++◌, Bytes, length, get_elem?, set, take,
  drop, ok, err, panicked,
}
use libfossil.Blob.{Db, Tools, Result}
use libfossil.Content.{expand}
use libfossil.Content.Stored.{Call, call}
use libfossil.Content.Cache.{Cache, expand_begin, fill, invalidate, clear}

-- A goroutine in `Cache.Expand` behind a miss: it is about to expand, or has done so.
pub data Goroutine : Type 0 where
  expanding : ℕ → Goroutine
  expanded : ℕ → Result Bytes → Goroutine

pub record System : Type 0 where
  pub cache : Cache
  pub db : Db
  pub running : List Goroutine

-- What may happen next: a critical section of the cache, the expansion of a goroutine, given by its
-- place, or a call that stores.
pub data Event : Type 0 where
  begins : ℕ → Event
  expands : ℕ → Event
  ends : ℕ → Event
  invalidates : ℕ → Event
  clears : Event
  stores : Call → Event

-- The rid that a caller of `Cache.Expand` asked for, and what it gets.
abbrev pub Answer : Type 0
Answer = ℕ × Result Bytes

unfoldable pub begun : System → ℕ → Cache × Option Bytes → System × Option Answer
begun s rid (c, some text) = (record s { cache = c }, some (rid, ok text))
begun s rid (c, none) = (record s { cache = c; running = expanding rid ∷ s.running }, none)

unfoldable pub expand_one : Tools → Db → Goroutine → Goroutine
expand_one t db (expanding rid) = expanded rid (expand t db rid)
expand_one t db (expanded rid o) = expanded rid o

-- The goroutine at place `n` expands.
unfoldable pub expand_at : Tools → Db → List Goroutine → ℕ → List Goroutine
unfolding expand_one
expand_at t db [] n = []
expand_at t db (g ∷ gs) zero = expand_one t db g ∷ gs
expand_at t db (g ∷ gs) (suc n) = g ∷ expand_at t db gs n

unfoldable pub remove_at : List Goroutine → ℕ → List Goroutine
remove_at [] n = []
remove_at (g ∷ gs) zero = gs
remove_at (g ∷ gs) (suc n) = g ∷ remove_at gs n

-- The goroutine at place `n` goes through the second critical section, if it has expanded.
unfoldable pub end_of : System → ℕ → Option Goroutine → System × Option Answer
end_of s n (some (expanded rid o)) =
    let (c, r) = fill s.cache rid o in
    (record s { cache = c; running = remove_at s.running n }, some (rid, r))
end_of s n (some (expanding _)) = (s, none)
end_of s n none = (s, none)

unfoldable pub step : Tools → System → Event → System × Option Answer
unfolding begun expand_at end_of
step t s (begins rid) = begun s rid (expand_begin s.cache rid)
step t s (expands n) = (record s { running = expand_at t s.db s.running n }, none)
step t s (ends n) = end_of s n (get_elem? s.running n)
step t s (invalidates rid) = (record s { cache = invalidate s.cache rid }, none)
step t s clears = (record s { cache = clear s.cache }, none)
step t s (stores c) = (record s { db = call t s.db c }, none)

-- Any order of events.
unfoldable pub run : Tools → System → List Event → System
unfolding step
run t s [] = s
run t s (e ∷ es) = run t (step t s e).0 es
