-- ===== src/Blob/RoundTrip.antt =====
-- internal/blob: what is stored is what is loaded.
use libfossil.Base.{
  ap, ℕ, zero, suc, ◌^◌, ◌≤◌, ◌<◌, ◌≡◌, refl, ◌∙◌, arith, false, none, some, ◌∷◌, ◌==◌, Bytes,
  length, ok, err, panicked, stuck, ◌>>=◌, Bool-cases, inl, inr,
}
use libfossil.Base.Int.{pos}
use libfossil.Delta.{apply}
use libfossil.Delta.Commands.{InMemory}
use libfossil.Delta.Create.{create}
use libfossil.Delta.Create.RoundTrip.{apply-create}
use libfossil.Blob.{
  Row, Db, Tools, Result, has_rid, find_row, find_uuid, next_rid, insert_row, insert_delta,
  mark_unclustered, verified, store, store_new, store_delta, store_delta_from, known_or, exists,
  load, load_content, from_delta, check_hash, compress, has_size,
}
use libfossil.Blob.Valid.{find_row-head}
use libfossil.Blob.Loads.{
  load_content-compress, load_content-other_size, load-insert_row, load_blobs, verified-load,
  bind-same, check_hash-same,
}

-- An artifact that is not there yet.
abbrev pub IsNew : Tools → Db → Bytes → Type 0
IsNew t db content = (0 < length content) × (find_uuid db.blobs (t.sha1 content) ≡ none)

pub known_or_new :
    (t : Tools) (db : Db) (content : Bytes) (next : Db × Result (ℕ × Bytes))
    → find_uuid db.blobs (t.sha1 content) ≡ none
    → known_or db (t.sha1 content) (exists db (t.sha1 content)) next ≡ next
unfolding known_or exists
known_or_new t db content next h =
    let long : (length (t.sha1 content) == 0) ≡ false = ground (arith, t.length-sha1 content) in
    rw (long, h) refl

deltas-verified :
    (db : Db) (rid : ℕ) (uuid : Bytes) (o : Result (Unit {0}))
    → (verified db rid uuid o).0.deltas ≡ db.deltas
unfolding verified mark_unclustered
deltas-verified db rid uuid (ok _) = elim (Bool-cases (has_rid db.unclustered rid)) [
  | inl y ↦ rw y refl
  | inr n0 ↦ rw n0 refl
]
deltas-verified db rid uuid (err e) = refl
deltas-verified db rid uuid panicked = refl
deltas-verified db rid uuid stuck = refl

blobs-verified :
    (db : Db) (rid : ℕ) (uuid : Bytes) (o : Result (Unit {0}))
    → (verified db rid uuid o).0.blobs ≡ db.blobs
unfolding verified mark_unclustered
blobs-verified db rid uuid (ok _) = elim (Bool-cases (has_rid db.unclustered rid)) [
  | inl y ↦ rw y refl
  | inr n0 ↦ rw n0 refl
]
blobs-verified db rid uuid (err e) = refl
blobs-verified db rid uuid panicked = refl
blobs-verified db rid uuid stuck = refl

-- The row is there, under its hash.
abbrev pub IsFiled : Tools → Db → ℕ → Bytes → Type 0
IsFiled t db rid content =
    (row : Row) × (find_row db.blobs rid ≡ some row) × (row.uuid ≡ t.sha1 content)

-- The end of `Store`, where what is read back is the content.
store_new_lem :
    (t : Tools) (db : Db) (content : Bytes)
    → load_content t (compress t content) (pos (length content)) ≡ ok content
    → let rid = next_rid db.blobs in
      let (db', r) = store_new t db content (t.sha1 content) in
      (r ≡ ok (rid, t.sha1 content))
      × (db'.deltas ≡ db.deltas)
      × (load t db' rid ≡ ok content)
      × IsFiled t db' rid content
unfolding store_new insert_row
store_new_lem t db content h =
    let uuid = t.sha1 content in
    let rid = next_rid db.blobs in
    let db' : Db = insert_row db (record {
      rid = rid;
      size = pos (length content);
      uuid = uuid;
      content = some (compress t content);
    }) in
    let back = load-insert_row t db uuid content content (length content) h in
    let (r, l) =
      verified-load t db' rid uuid content _
        (bind-same _ content _ back (check_hash-same t content)) back in
    let o = load t db' rid >>= check_hash t uuid in
    let there =
      ap (λ bs. find_row bs rid) (blobs-verified db' rid uuid o) ∙ find_row-head db.blobs _ in
    (r, deltas-verified db' rid uuid o, l, (_, there, refl))

-- A new content of less than 4 GB is stored: `Store` gives its rid and its hash, and `Load` then reads
-- it back.
pub load-store :
    (t : Tools) (db : Db) (content : Bytes)
    → IsNew t db content
    → length content < 2 ^ 32
    → let rid = next_rid db.blobs in
      let (db', r) = store t db content in
      (r ≡ ok (rid, t.sha1 content))
      × (db'.deltas ≡ db.deltas)
      × (load t db' rid ≡ ok content)
      × IsFiled t db' rid content
unfolding store
load-store t db content (some_text, new) h =
    let full : (length content == 0) ≡ false = ground arith in
    rw (full, known_or_new t db content (store_new t db content (t.sha1 content)) new)
      (store_new_lem t db content (load_content-compress t content h))

pub load-insert_delta :
    (t : Tools) (db : Db) (rid src k : ℕ) → load t (insert_delta db rid src) k ≡ load t db k
unfolding insert_delta
load-insert_delta t db rid src k = load_blobs t db _ k refl

pub positive-source : (t : Tools) (db : Db) (src : ℕ) (s : Bytes) → load t db src ≡ ok s → 0 < src
unfolding load
positive-source t db zero s h = absurd (cc)
positive-source t db (suc n) s h = omega arith

rebuilt-same :
    (t : Tools) (content source d : Bytes) (o : Result Bytes)
    → o ≡ ok d
    → apply t.max_cap source d ≡ ok content
    → (o >>= λ stored. from_delta (apply t.max_cap source stored) >>= check_hash t (t.sha1 content))
      ≡ ok tt
unfolding from_delta
rebuilt-same t content source d o e a = rw (e, a) (check_hash-same t content)

-- The tables with the new row and its source.
abbrev pub with_delta : Tools → Db → Bytes → Bytes → ℕ → Db
unfolding insert_delta insert_row
with_delta t db content d src =
    insert_delta
      (insert_row db (record {
        rid = next_rid db.blobs;
        size = pos (length content);
        uuid = t.sha1 content;
        content = some (compress t d);
      }))
      (next_rid db.blobs) src

-- Where the delta's bytes are read back as they are.
store_delta_from_lem :
    (t : Tools) (db : Db) (content : Bytes) (src : ℕ) (source d : Bytes)
    → load_content t (compress t d) (pos (length content)) ≡ ok d
    → apply t.max_cap source d ≡ ok content
    → let rid = next_rid db.blobs in
      let (db', r) = store_delta_from t db content (t.sha1 content) src source d in
      (r ≡ ok (rid, t.sha1 content))
      × (db'.deltas ≡ (rid, src) ∷ db.deltas)
      × (d' : Bytes) × (load t db' rid ≡ ok d')
      × (apply t.max_cap source d' ≡ ok content)
unfolding store_delta_from from_delta insert_delta insert_row
store_delta_from_lem t db content src source d h a =
    let uuid = t.sha1 content in
    let rid = next_rid db.blobs in
    let back =
      load-insert_delta t _ rid src rid ∙ load-insert_row t db uuid d d (length content) h in
    let checked = rebuilt-same t content source d _ back a in
    let (r, l) = verified-load t _ rid uuid d _ checked back in
    (r, deltas-verified (with_delta t db content d src) rid uuid _, d, l, a)

-- What `StoreDelta` needs of the source's stored bytes and of the content: slices that fit in memory,
-- and a delta whose compressed form has not the length of the content.
pub record CanDelta (t : Tools) (db : Db) (content : Bytes) (src : ℕ) (source : Bytes)
    : Type 0 where
  pub loaded : load t db src ≡ ok source
  pub source_fits : InMemory source
  pub content_fits : InMemory content
  pub below_cap : length content ≤ t.max_cap
  pub delta_fits : (d : Bytes) → create source content ≡ ok d → InMemory d
  pub other_size :
      (d : Bytes)
      → create source content ≡ ok d
      → has_size (compress t d) (pos (length content)) ≡ false

-- A new content is stored as a delta: `StoreDelta` gives its rid and its hash, `Load` reads back a
-- delta that `Apply` turns into the content, and the table delta names the source.
pub load-store_delta :
    (t : Tools) (db : Db) (content : Bytes) (src : ℕ) (source : Bytes)
    → IsNew t db content
    → CanDelta t db content src source
    → let rid = next_rid db.blobs in
      let (db', r) = store_delta t db content src in
      (r ≡ ok (rid, t.sha1 content))
      × (db'.deltas ≡ (rid, src) ∷ db.deltas)
      × (d : Bytes) × (load t db' rid ≡ ok d)
      × (apply t.max_cap source d ≡ ok content)
unfolding store_delta
load-store_delta t db content src source (some_text, new) c =
    let full : (length content == 0) ≡ false = ground arith in
    let positive : (src == 0) ≡ false = ground (arith, positive-source t db src source c.loaded) in
    let (d, e, a) =
      apply-create t.max_cap source content c.source_fits c.content_fits c.below_cap c.delta_fits in
    rw (full, positive, known_or_new t db content _ new, c.loaded, e)
      (store_delta_from_lem t db content src source d
        (load_content-other_size t d _ (c.other_size d e)) a)
