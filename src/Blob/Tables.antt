-- ===== src/Blob/Tables.antt =====
-- internal/blob: what the tables keep, whatever is stored.
use libfossil.Base.{
  ℕ, suc, ◌≤◌, ◌<◌, ◌≡◌, refl, arith, Option, none, some, List, [], ◌∷◌, ◌==◌, if◌then◌else◌, Bytes,
  All, ok, err, panicked, stuck, Bool-cases, inl, inr,
}
use libfossil.Base.Int.{negsuc}
use libfossil.Blob.{
  Row, Db, has_rid, Result, find_row, find_uuid, next_rid, insert_row, insert_delta,
  mark_unclustered, verified,
}

-- SELECT srcid FROM delta WHERE rid=?
unfoldable pub find_source : List (ℕ × ℕ) → ℕ → Option ℕ
find_source [] rid = none
find_source ((r, src) ∷ es) rid = if r == rid then some src else find_source es rid

abbrev pub HasDistinctRows : List Row → Type 0
HasDistinctRows [] = Unit
HasDistinctRows (r ∷ rs) =
    (find_row rs r.rid ≡ none) × (find_uuid rs r.uuid ≡ none) × HasDistinctRows rs

abbrev pub HasDistinctDeltas : List (ℕ × ℕ) → Type 0
HasDistinctDeltas [] = Unit
HasDistinctDeltas (e ∷ es) = (find_source es e.0 ≡ none) × HasDistinctDeltas es

-- A row with no content.
abbrev pub HasPhantomRow : List Row → ℕ → Type 0
HasPhantomRow rows p =
    (uuid : Bytes) × (find_row rows p
      ≡ some (record { rid = p; size = negsuc 0; uuid = uuid; content = none }))

-- No two rows share a rid or a uuid, each delta has one source, which is older than it, and each
-- phantom is a row with no content.
pub record IsValid (db : Db) : Type 0 where
  pub rows : HasDistinctRows db.blobs
  pub sources : HasDistinctDeltas db.deltas
  pub older : All (λ e. (e.1 < e.0) × (e.0 < next_rid db.blobs)) db.deltas
  pub phantoms : All (HasPhantomRow db.blobs) db.phantoms

-- The next rid is new, and is above all that are there.
find_row-next_rid : (rows : List Row) (n : ℕ) → next_rid rows ≤ n → find_row rows n ≡ none
unfolding find_row next_rid
find_row-next_rid [] n h = refl
find_row-next_rid (r ∷ rs) n h = ground (arith, find_row-next_rid rs n)

pub next_rid-positive : (rows : List Row) → 0 < next_rid rows
unfolding next_rid
next_rid-positive [] = omega arith
next_rid-positive (r ∷ rs) = ground (arith, next_rid-positive rs)

pub rid-lt-next_rid :
    (rows : List Row) (n : ℕ) (r : Row) → find_row rows n ≡ some r → n < next_rid rows
unfolding find_row next_rid
rid-lt-next_rid [] n r h = cc
rid-lt-next_rid (x ∷ xs) n r h = ground (arith, rid-lt-next_rid xs n r)

pub find_source-above :
    (es : List (ℕ × ℕ)) (n k : ℕ)
    → All (λ e. (e.1 < e.0) × (e.0 < n)) es
    → n ≤ k
    → find_source es k ≡ none
unfolding find_source
find_source-above [] n k a h = refl
find_source-above (e ∷ es) n k (x, a) h = ground (arith, find_source-above es n k a)

older_mono :
    (es : List (ℕ × ℕ)) (n k : ℕ)
    → n ≤ k
    → All (λ e. (e.1 < e.0) × (e.0 < n)) es
    → All (λ e. (e.1 < e.0) × (e.0 < k)) es
older_mono [] n k h a = tt
older_mono (e ∷ es) n k h ((x, y), a) = ((x, omega arith), older_mono es n k h a)

-- A row that is there is found behind a new one.
pub find_row-insert :
    (rows : List Row) (r x : Row) (n : ℕ)
    → r.rid ≡ next_rid rows
    → find_row rows n ≡ some x
    → find_row (r ∷ rows) n ≡ some x
unfolding find_row
find_row-insert rows r x n e h = ground (arith, rid-lt-next_rid rows n x h)

phantoms_insert :
    (rows : List Row) (r : Row) (ps : List ℕ)
    → r.rid ≡ next_rid rows
    → All (HasPhantomRow rows) ps
    → All (HasPhantomRow (r ∷ rows)) ps
phantoms_insert rows r [] e a = tt
phantoms_insert rows r (p ∷ ps) e ((u, h), a) =
    ((u, find_row-insert rows r _ p e h), phantoms_insert rows r ps e a)

next_rid-insert :
    (rows : List Row) (r : Row) → r.rid ≡ next_rid rows → next_rid (r ∷ rows) ≡ suc (next_rid rows)
unfolding next_rid
next_rid-insert rows r e = ground arith

module _ (db : Db) (r : Row) (fresh : r.rid ≡ next_rid db.blobs)
    (new : find_uuid db.blobs r.uuid ≡ none) where
  pub insert_row-IsValid : IsValid db → IsValid (insert_row db r)
  unfolding insert_row
  insert_row-IsValid v = record {
    rows = (find_row-next_rid db.blobs r.rid (omega arith), new, v.rows);
    sources = v.sources;
    older = older_mono db.deltas _ _ (omega (arith, next_rid-insert db.blobs r fresh)) v.older;
    phantoms = phantoms_insert db.blobs r db.phantoms fresh v.phantoms;
  }

  pub insert_delta-IsValid :
      (src : ℕ) → src < r.rid → IsValid db → IsValid (insert_delta (insert_row db r) r.rid src)
  unfolding insert_delta insert_row
  insert_delta-IsValid src h v =
      let w = insert_row-IsValid v in
      record {
        rows = w.rows;
        sources = (
          find_source-above db.deltas (next_rid db.blobs) r.rid v.older (omega arith),
          v.sources,
        );
        older = ((h, omega (arith, next_rid-insert db.blobs r fresh)), w.older);
        phantoms = w.phantoms;
      }

mark_unclustered-IsValid : (db : Db) (rid : ℕ) → IsValid db → IsValid (mark_unclustered db rid)
unfolding mark_unclustered
mark_unclustered-IsValid db rid v = elim (Bool-cases (has_rid db.unclustered rid)) [
  | inl y ↦ rw y v
  | inr n ↦
      rw n (record { rows = v.rows; sources = v.sources; older = v.older; phantoms = v.phantoms })
]

pub verified-IsValid :
    (db : Db) (rid : ℕ) (uuid : Bytes) (o : Result (Unit {0}))
    → IsValid db
    → IsValid (verified db rid uuid o).0
unfolding verified
verified-IsValid db rid uuid (ok _) v = mark_unclustered-IsValid db rid v
verified-IsValid db rid uuid (err e) v = v
verified-IsValid db rid uuid panicked v = v
verified-IsValid db rid uuid stuck v = v
