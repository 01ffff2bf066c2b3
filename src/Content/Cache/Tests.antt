-- ===== src/Content/Cache/Tests.antt =====
-- Runs of internal/content/cache.go, and the theorems about it at a concrete cache.
use libfossil.Base.{◌≡◌, refl, none, some, List, [], ◌∷◌, codes, ok}
use libfossil.Delta.Create.Tests.{old_text}
use libfossil.Blob.{
  load, find_row, load_row, load_content, is_phantom_size, has_prefix, has_size, has_rid,
}
use libfossil.Blob.Tables.{find_source}
use libfossil.Content.{expand, walk_delta_chain, walk_loop, expand_chain, apply_deltas}
use libfossil.Content.Stored.{put}
use libfossil.Content.Tests.{tools, one_row, one_row-IsValid}
use libfossil.Content.Cache.{
  Cache, new_cache, find_item, move_to_front, remove_item, expand_begin, expand_end, evict_loop,
  evict_oldest, back, remove_back, fill,
}
use libfossil.Content.Cache.Evict.{total, fits, expand_end-Evicted}
use libfossil.Content.Cache.Bounds.{IsBounded}
use libfossil.Content.Cache.Shared.{
  Event, begins, expands, ends, stores, step, run, begun, expand_at, expand_one, end_of,
}
use libfossil.Content.Cache.Shared.Answers.{start, run-answers, run-IsBounded}

abbrev two_items : Cache
two_items = record {
  order = (5, codes "abc") ∷ (6, codes "defg") ∷ [];
  cur_size = 7;
  max_size = 8;
  hits = 0;
  misses = 0;
}

-- The oldest entry makes room.
evicted_oldest :
    (expand_end two_items 7 (codes "hi")).order ≡ (7, codes "hi") ∷ (5, codes "abc") ∷ []
unfolding expand_end find_item evict_loop evict_oldest back remove_back
evicted_oldest = refl

sized_and_new : (two_items.cur_size ≡ total two_items.order) × (find_item two_items.order 7 ≡ none)
unfolding total find_item
sized_and_new = (refl, refl)

expand_end-Evicted_example :
    (expand_end two_items 7 (codes "hi")).order ≡ fits 8 ((7, codes "hi") ∷ two_items.order)
expand_end-Evicted_example =
    expand_end-Evicted two_items 7 (codes "hi") sized_and_new.0 sized_and_new.1

abbrev small_cache : Cache
small_cache = record { order = []; cur_size = 0; max_size = 100; hits = 0; misses = 0 }

made : new_cache 100 ≡ ok small_cache
unfolding new_cache
made = refl

-- Two goroutines miss, both expand, a store comes between, and one of them is through.
abbrev events : List Event
events = begins 1 ∷ begins 1 ∷ expands 0 ∷ stores (put (codes "abc")) ∷ expands 1 ∷ ends 0 ∷ []

abbrev few_events : List Event
few_events = begins 1 ∷ begins 1 ∷ expands 0 ∷ ends 0 ∷ []

answered :
    (step (tools 0) (run (tools 0) (start small_cache one_row) few_events) (begins 1)).1
    ≡ some (1, ok old_text)
unfolding step run begun expand_at expand_one end_of fill expand_begin expand_end find_item
    move_to_front remove_item evict_loop expand walk_delta_chain walk_loop has_rid find_source
    expand_chain apply_deltas load find_row load_row is_phantom_size load_content has_prefix
    has_size
answered = refl

run-answers_example :
    expand
      (tools 0)
      (step (tools 0) (run (tools 0) (start small_cache one_row) few_events) (begins 1)).0.db
      1
    ≡ ok old_text
run-answers_example =
    run-answers (tools 0) 100 small_cache one_row few_events (begins 1) 1 old_text one_row-IsValid
      made answered

run-IsBounded_example : IsBounded (run (tools 0) (start small_cache one_row) events).cache
run-IsBounded_example = run-IsBounded (tools 0) 100 small_cache one_row events one_row-IsValid made
