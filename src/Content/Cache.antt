-- ===== src/Content/Cache.antt =====
-- internal/content/cache.go: the cache of expanded artifacts.
pub mod Evict
pub mod Bounds
pub mod Shared
mod Tests
use libfossil.Base.{
  ℕ, zero, suc, ◌+◌, ◌-◌, ◌≤◌, ◌<◌, ◌≡◌, Bool, true, false, Option, none, some, List, [], ◌∷◌, ◌==◌,
  ltb, if◌then◌else◌, Bytes, length, Outcome, ok, err, panicked, stuck,
}
use libfossil.Blob.{Db, Tools, Result}
use libfossil.Content.{expand}

-- `order`, from front to back; the map `items` is its index by rid. The sizes are sums of lengths of
-- slices in memory, below 2^63.
pub record Cache : Type 0 where
  pub order : List (ℕ × Bytes)
  pub cur_size : ℕ
  pub max_size : ℕ
  pub hits : ℕ
  pub misses : ℕ

pub record CacheStats : Type 0 where
  pub stat_hits : ℕ
  pub stat_misses : ℕ
  pub size : ℕ
  pub stat_max_size : ℕ
  pub entries : ℕ

-- A bound of 0 or less is a panic.
unfoldable pub new_cache : ℕ → Result Cache
new_cache zero = panicked
new_cache (suc max_bytes) =
    ok (record { order = []; cur_size = 0; max_size = suc max_bytes; hits = 0; misses = 0 })

-- c.items[rid]
unfoldable pub find_item : List (ℕ × Bytes) → ℕ → Option Bytes
find_item [] rid = none
find_item ((r, d) ∷ es) rid = if r == rid then some d else find_item es rid

unfoldable pub remove_item : List (ℕ × Bytes) → ℕ → List (ℕ × Bytes)
remove_item [] rid = []
remove_item ((r, d) ∷ es) rid = if r == rid then es else (r, d) ∷ remove_item es rid

unfoldable pub move_to_front : List (ℕ × Bytes) → ℕ → Bytes → List (ℕ × Bytes)
unfolding remove_item
move_to_front es rid text = (rid, text) ∷ remove_item es rid

-- What `Expand` does in its first critical section, and the data of a hit.
unfoldable pub expand_begin : Cache → ℕ → Cache × Option Bytes
unfolding find_item move_to_front
expand_begin c rid = elim (find_item c.order rid) [
  | none ↦ (record c { misses = suc c.misses }, none)
  | some text ↦ (record c { order = move_to_front c.order rid text; hits = suc c.hits }, some text)
]

-- The back of the list, and what is in front of it.
unfoldable pub back : List (ℕ × Bytes) → Option (ℕ × Bytes)
back [] = none
back (e ∷ []) = some e
back (_ ∷ e ∷ es) = back (e ∷ es)

unfoldable pub remove_back : List (ℕ × Bytes) → List (ℕ × Bytes)
remove_back [] = []
remove_back (e ∷ []) = []
remove_back (x ∷ e ∷ es) = x ∷ remove_back (e ∷ es)

unfoldable pub evict_oldest : Cache → Cache
unfolding back remove_back
evict_oldest c = elim (back c.order) [
  | none ↦ c
  | some e ↦ record c { order = remove_back c.order; cur_size = c.cur_size - length e.1 }
]

-- The loop of `Expand`: the number of entries is fuel enough, since each round removes one.
unfoldable pub evict_loop : ℕ → Cache → Cache
unfolding evict_oldest
evict_loop zero c = c
evict_loop (suc fuel) c =
    let again = evict_loop fuel (evict_oldest c) in if ltb c.max_size c.cur_size then again else c

-- The second critical section, behind a miss: another goroutine may have been faster.
unfoldable pub expand_end : Cache → ℕ → Bytes → Cache
unfolding find_item move_to_front evict_loop
expand_end c rid text = elim (find_item c.order rid) [
  | some cached ↦ record c { order = move_to_front c.order rid cached }
  | none ↦
      let order = (rid, text) ∷ c.order in
      evict_loop (length order) (record c { order = order; cur_size = c.cur_size + length text })
]

unfoldable pub fill : Cache → ℕ → Result Bytes → Cache × Result Bytes
unfolding expand_end
fill c rid (ok text) = (expand_end c rid text, ok text)
fill c rid (err e) = (c, err e)
fill c rid panicked = (c, panicked)
fill c rid stuck = (c, stuck)

unfoldable pub answer : Tools → Db → ℕ → Cache × Option Bytes → Cache × Result Bytes
unfolding fill
answer t db rid (c, some text) = (c, ok text)
answer t db rid (c, none) = fill c rid (expand t db rid)

-- `Cache.Expand` by one goroutine, on a cache that is not nil.
unfoldable pub expand_cached : Tools → Db → Cache → ℕ → Cache × Result Bytes
unfolding answer expand_begin
expand_cached t db c rid = answer t db rid (expand_begin c rid)

unfoldable pub invalidate : Cache → ℕ → Cache
unfolding find_item remove_item
invalidate c rid = elim (find_item c.order rid) [
  | none ↦ c
  | some text ↦ record c { order = remove_item c.order rid; cur_size = c.cur_size - length text }
]

unfoldable pub clear : Cache → Cache
clear c = record c { order = []; cur_size = 0 }

unfoldable pub stats : Cache → CacheStats
stats c = record {
  stat_hits = c.hits;
  stat_misses = c.misses;
  size = c.cur_size;
  stat_max_size = c.max_size;
  entries = length c.order;
}
