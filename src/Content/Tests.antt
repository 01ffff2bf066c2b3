-- ===== src/Content/Tests.antt =====
-- Runs of internal/blob and internal/content, and the theorems about them at concrete tables.
use libfossil.Base.{
  ℕ, zero, suc, ◌≡◌, ◌↔◌, refl, ap, arith, false, none, some, List, [], ◌∷◌, ◌++◌, ◌==◌, Bytes,
  codes, length, drop, replicate, Returns, ok, err,
}
use libfossil.Base.Int.{pos}
use libfossil.Delta.Create.{create}
use libfossil.Delta.Create.Tests.{old_text, new_text, create_run, created_InMemory}
use libfossil.Xfer.Message.{put_uint32}
use libfossil.Blob.{
  Db, Error, Tools, bad_delta, chain_cycle, find_row, find_uuid, next_rid, load, load_row,
  load_content, is_phantom_size, has_prefix, has_size, compress, store, store_delta, has_rid,
}
use libfossil.Blob.Tables.{IsValid, find_source}
use libfossil.Blob.RoundTrip.{CanDelta, IsNew}
use libfossil.Blob.Collision.{store_delta_collision}
use libfossil.Content.{verify, walk_loop, walk_delta_chain, expand, expand_chain, apply_deltas}
use libfossil.Content.Walk.{IsChain, walk_delta_chain-Returns}
use libfossil.Content.Expansion.{Expands, expand-Expands}
use libfossil.Content.Stored.{
  Call, put, put_delta, put_phantom, calls, calls-IsValid, expand-calls, expand-store,
  expand-store_delta,
}

pub drop-replicate : (n : ℕ) (s : Bytes) → drop n (replicate n 0 ++ s) ≡ s
drop-replicate zero s = refl
drop-replicate (suc n) s = drop-replicate n s

-- Libraries whose hash is the length, and whose streams are the text behind a header of `n` bytes
-- more.
abbrev pub tools : ℕ → Tools
tools n = record {
  sha1 = λ s. length s ∷ replicate 39 0;
  sha3 = λ s. length s ∷ replicate 63 0;
  deflate = λ s. 0x78 ∷ 0x9c ∷ (replicate n 0 ++ s);
  inflate = λ s. some (drop n (drop 2 s));
  max_cap = 1000;
  length-sha1 = λ s. refl;
  inflate-deflate = λ s. ap some (drop-replicate n s);
  deflate_header = λ s. (0x9c, replicate n 0 ++ s, refl);
}

-- One artifact, stored as it is.
abbrev pub one_row : Db
one_row = record {
  blobs =
      record { rid = 1; size = pos 43; uuid = 43 ∷ replicate 39 0; content = some old_text } ∷ [];
  deltas = [];
  phantoms = [];
  unclustered = [];
}

pub one_row-IsValid : IsValid one_row
unfolding find_row find_uuid find_source next_rid
one_row-IsValid = record { rows = (refl, refl, tt); sources = tt; older = tt; phantoms = tt }

-- A chain that comes back to its start.
cycle_found : walk_delta_chain ((1, 2) ∷ (2, 1) ∷ []) 1 ≡ err chain_cycle
unfolding walk_delta_chain walk_loop has_rid find_source
cycle_found = refl

one_row_loaded : load (tools 0) one_row 1 ≡ ok old_text
unfolding load find_row load_row is_phantom_size load_content has_prefix has_size
one_row_loaded = refl

one_row_expanded : expand (tools 0) one_row 1 ≡ ok old_text
unfolding expand walk_delta_chain walk_loop has_rid find_source expand_chain apply_deltas load
    find_row load_row is_phantom_size load_content has_prefix has_size
one_row_expanded = refl

new_text-IsNew : IsNew (tools 0) one_row new_text
unfolding find_uuid
new_text-IsNew = (omega arith, refl)

-- The stored form of the delta from the old text to the new one.
compressed :
    (d : Bytes)
    → create old_text new_text ≡ ok d
    → (length d ≡ 27) × (length (compress (tools 0) d) ≡ 33)
unfolding compress put_uint32
compressed d h =
    let same : codes "e\n5:say: V@0,5:a log1uvyAw;" ≡ d = grind (arith, create_run) in
    rw (← same) (refl, refl)

differs : (n : ℕ) → n ≡ 33 → (n == 41) ≡ false
differs n h = ground arith

new_text-CanDelta : CanDelta (tools 0) one_row new_text 1 old_text
unfolding has_size
new_text-CanDelta = record {
  loaded = one_row_loaded;
  source_fits = omega arith;
  content_fits = omega arith;
  below_cap = omega arith;
  delta_fits = created_InMemory;
  other_size = λ d h. let l = (compressed d h).1 in differs _ l;
}

abbrev two_deltas : List (ℕ × ℕ)
two_deltas = (3, 2) ∷ (2, 1) ∷ []

walk_delta_chain-Returns_example :
    Returns (IsChain two_deltas 3) (walk_delta_chain two_deltas 3)
    × ((e : Error) (chain : List ℕ)
        → walk_delta_chain two_deltas 3 ≡ err e
        → IsChain two_deltas 3 chain
        → ⊥)
walk_delta_chain-Returns_example = walk_delta_chain-Returns two_deltas 3 (omega arith)

expand-Expands_example :
    (expand (tools 0) one_row 1 ≡ ok old_text) ↔ Expands (tools 0) one_row 1 old_text
expand-Expands_example = expand-Expands (tools 0) one_row 1 old_text one_row-IsValid (omega arith)

abbrev some_calls : List Call
some_calls = put (codes "abc") ∷ put_delta new_text 1 ∷ put_phantom (codes "00") ∷ []

calls-IsValid_example : IsValid (calls (tools 0) one_row some_calls)
calls-IsValid_example = calls-IsValid (tools 0) one_row some_calls one_row-IsValid

expand-calls_example : expand (tools 0) (calls (tools 0) one_row some_calls) 1 ≡ ok old_text
expand-calls_example =
    expand-calls (tools 0) one_row some_calls 1 old_text one_row-IsValid (omega arith)
      one_row_expanded

expand-store_example :
    let db' = (store (tools 0) one_row new_text).0 in
    let rid = next_rid one_row.blobs in
    (expand (tools 0) db' rid ≡ ok new_text) × (verify (tools 0) db' rid ≡ ok tt)
expand-store_example =
    expand-store (tools 0) one_row new_text one_row-IsValid new_text-IsNew (omega arith)

no_source : find_source one_row.deltas 1 ≡ none
unfolding find_source
no_source = refl

expand-store_delta_example :
    expand (tools 0) (store_delta (tools 0) one_row new_text 1).0 (next_rid one_row.blobs)
    ≡ ok new_text
expand-store_delta_example =
    expand-store_delta (tools 0) one_row new_text 1 old_text one_row-IsValid new_text-IsNew
      new_text-CanDelta no_source

-- With streams that are 8 bytes longer, the stored delta is as long as the new text.
store_delta_collision_example : (store_delta (tools 8) one_row new_text 1).1 ≡ err bad_delta
unfolding find_row find_uuid load load_row is_phantom_size load_content has_prefix has_size compress
    put_uint32
store_delta_collision_example =
    store_delta_collision (tools 8) one_row new_text 1 old_text
      (codes "e\n5:say: V@0,5:a log1uvyAw;") (omega arith, refl) refl create_run (omega arith)
      (omega arith) refl
