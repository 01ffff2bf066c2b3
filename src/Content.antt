-- ===== src/Content.antt =====
-- internal/content/content.go: expansion of artifacts along chains of deltas.
pub mod Walk
pub mod Expansion
pub mod Stored
pub mod Cache
pub mod Tests
use libfossil.Base.{
  ℕ, zero, suc, Bool, true, false, Option, none, some, List, [], ◌∷◌, ◌==◌, if◌then◌else◌, Bytes,
  equal, length, ok, err, panicked, stuck, ◌>>=◌,
}
use libfossil.Delta.{apply}
use libfossil.Blob.{
  Db, Row, Tools, Result, has_rid, find_row, load, from_delta, no_row, mismatch, chain_cycle,
}
use libfossil.Blob.Tables.{find_source}

-- The loop of `walkDeltaChain`, whose map `seen` holds the rids of `chain`. The chain grows in front,
-- so that it is in the order of the code's after its last loop, which reverses it.
unfoldable pub walk_loop : List (ℕ × ℕ) → ℕ → List ℕ → ℕ → Result (List ℕ)
walk_loop deltas zero chain current = stuck
walk_loop deltas (suc fuel) chain current =
    let again = walk_loop deltas fuel (current ∷ chain) in
    if has_rid chain current then err chain_cycle else elim (find_source deltas current) [
      | none ↦ ok (current ∷ chain)
      | some source ↦ again source
    ]

-- Each round but the last sees a row of the table delta for the first time.
unfoldable pub walk_delta_chain : List (ℕ × ℕ) → ℕ → Result (List ℕ)
unfolding walk_loop
walk_delta_chain deltas zero = panicked
walk_delta_chain deltas (suc rid) = walk_loop deltas (suc (length deltas)) [] (suc rid)

-- The loop of `Expand`.
unfoldable pub apply_deltas : Tools → Db → Bytes → List ℕ → Result Bytes
apply_deltas t db content [] = ok content
apply_deltas t db content (rid ∷ rids) = do
  delta ← load t db rid
  content' ← from_delta (apply t.max_cap content delta)
  apply_deltas t db content' rids

-- `chain[0]` of no element is a panic.
unfoldable pub expand_chain : Tools → Db → List ℕ → Result Bytes
unfolding apply_deltas
expand_chain t db [] = panicked
expand_chain t db (root ∷ rids) = do content ← load t db root; apply_deltas t db content rids

unfoldable pub expand : Tools → Db → ℕ → Result Bytes
unfolding walk_delta_chain expand_chain
expand t db rid = do chain ← walk_delta_chain db.deltas rid; expand_chain t db chain

-- A uuid of 64 characters is a SHA3 hash, any other a SHA1 hash.
unfoldable pub verify_content : Tools → Bytes → Bytes → Result (Unit {0})
verify_content t uuid content =
    let computed = if length uuid == 64 then t.sha3 content else t.sha1 content in
    if equal computed uuid then ok tt else err mismatch

unfoldable pub verify : Tools → Db → ℕ → Result (Unit {0})
unfolding expand verify_content
verify t db zero = panicked
verify t db (suc rid) = elim (find_row db.blobs (suc rid)) [
  | none ↦ err no_row
  | some r ↦ expand t db (suc rid) >>= verify_content t r.uuid
]

unfoldable pub is_phantom : Db → ℕ → Result Bool
unfolding has_rid
is_phantom db zero = panicked
is_phantom db (suc rid) = ok (has_rid db.phantoms (suc rid))
