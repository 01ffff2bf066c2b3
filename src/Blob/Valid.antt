-- ===== src/Blob/Valid.antt =====
-- internal/blob: every operation keeps the tables valid.
use libfossil.Base.{
  ℕ, zero, suc, ◌<◌, ◌≡◌, refl, arith, ◌||◌, none, some, List, ◌∷◌, ◌==◌, Bytes, length, ok, err,
  panicked, stuck, ◌>>=◌, >>=-ok, Bool-cases, Option-cases, inl, inr,
}
use libfossil.Base.Int.{negsuc}
use libfossil.Delta.Create.{create}
use libfossil.Blob.{
  Row, Db, Tools, Result, find_row, find_uuid, next_rid, insert_row, store, store_new, store_delta,
  store_delta_from, store_phantom, store_phantom_new, known_or, created, exists, load, from_delta,
}
use libfossil.Blob.Tables.{
  IsValid, insert_row-IsValid, insert_delta-IsValid, verified-IsValid, rid-lt-next_rid,
  next_rid-positive,
}

pub find_row-head : (rows : List Row) (r : Row) → find_row (r ∷ rows) r.rid ≡ some r
unfolding find_row
find_row-head rows r = ground arith

-- What is known of the new tables, where the uuid is not there yet.
known_or-IsValid :
    (db : Db) (uuid : Bytes) (new : Db × Result (ℕ × Bytes))
    → IsValid db
    → (find_uuid db.blobs uuid ≡ none → IsValid new.0)
    → IsValid (known_or db uuid (exists db uuid) new).0
unfolding known_or exists
known_or-IsValid db uuid new v w = elim (Bool-cases (length uuid == 0)) [
  | inl y ↦ rw y v
  | inr n ↦ elim (Option-cases (find_uuid db.blobs uuid)) [
    | inl e ↦ rw (n, e) (w e)
    | inr (rid, e) ↦ rw (n, e) v
  ]
]

store_new-IsValid :
    (t : Tools) (db : Db) (content uuid : Bytes)
    → IsValid db
    → find_uuid db.blobs uuid ≡ none
    → IsValid (store_new t db content uuid).0
unfolding store_new
store_new-IsValid t db content uuid v new =
    verified-IsValid _ _ uuid _ (insert_row-IsValid db _ refl new v)

-- A source that was loaded is an older row.
pub load-lt :
    (t : Tools) (db : Db) (rid : ℕ) (text : Bytes)
    → load t db rid ≡ ok text
    → rid < next_rid db.blobs
unfolding load
load-lt t db zero text h = next_rid-positive db.blobs
load-lt t db (suc rid) text h = elim (Option-cases (find_row db.blobs (suc rid))) [
  | inl e ↦ absurd (ground (arith, rw (e, load) at h))
  | inr (r, e) ↦ rid-lt-next_rid db.blobs (suc rid) r e
]

store_delta_from-IsValid :
    (t : Tools) (db : Db) (content uuid : Bytes) (src : ℕ) (source d : Bytes)
    → IsValid db
    → src < next_rid db.blobs
    → find_uuid db.blobs uuid ≡ none
    → IsValid (store_delta_from t db content uuid src source d).0
unfolding store_delta_from
store_delta_from-IsValid t db content uuid src source d v h new =
    verified-IsValid _ _ uuid _ (insert_delta-IsValid db _ refl new src h v)

created-IsValid :
    (db : Db) (o : Result (Bytes × Bytes)) (next : Bytes → Bytes → Db × Result (ℕ × Bytes))
    → IsValid db
    → ((source d : Bytes) → o ≡ ok (source, d) → IsValid (next source d).0)
    → IsValid (created o db next).0
unfolding created
created-IsValid db (ok (source, d)) next v w = w source d refl
created-IsValid db (err e) next v w = v
created-IsValid db panicked next v w = v
created-IsValid db stuck next v w = v

-- Storing a content keeps the tables valid on every branch, a failed verification included.
pub store-IsValid :
    (t : Tools) (db : Db) (content : Bytes) → IsValid db → IsValid (store t db content).0
unfolding store
store-IsValid t db content v = elim (Bool-cases (length content == 0)) [
  | inl y ↦ rw y v
  | inr n ↦
      rw n (
        known_or-IsValid db (t.sha1 content) _ v
          (store_new-IsValid t db content (t.sha1 content) v))
]

-- What a delta is made from was loaded.
created-lt :
    (t : Tools) (db : Db) (content : Bytes) (src : ℕ) (p : Bytes × Bytes)
    → (load t db src >>= λ source. from_delta (create source content) >>= λ d. ok (source, d))
      ≡ ok p
    → src < next_rid db.blobs
created-lt t db content src p h =
    let (text, e, _) = >>=-ok (load t db src) _ p h in load-lt t db src text e

-- The same for a delta.
pub store_delta-IsValid :
    (t : Tools) (db : Db) (content : Bytes) (src : ℕ)
    → IsValid db
    → IsValid (store_delta t db content src).0
unfolding store_delta
store_delta-IsValid t db content src v = elim (Bool-cases (length content == 0 || src == 0)) [
  | inl y ↦ rw y v
  | inr n ↦ rw n (
      known_or-IsValid db (t.sha1 content) _ v λ new.
        created-IsValid db _ (store_delta_from t db content (t.sha1 content) src) v λ source d e.
          store_delta_from-IsValid t db content (t.sha1 content) src source d v
            (created-lt t db content src _ e) new)
]

store_phantom_new-IsValid :
    (db : Db) (uuid : Bytes)
    → IsValid db
    → find_uuid db.blobs uuid ≡ none
    → IsValid (store_phantom_new db uuid).0
unfolding store_phantom_new insert_row
store_phantom_new-IsValid db uuid v new =
    let r : Row = record {
      rid = next_rid db.blobs;
      size = negsuc 0;
      uuid = uuid;
      content = none;
    } in
    let w = insert_row-IsValid db r refl new v in
    record {
      rows = w.rows;
      sources = v.sources;
      older = w.older;
      phantoms = ((uuid, find_row-head db.blobs r), w.phantoms);
    }

pub store_phantom-IsValid :
    (db : Db) (uuid : Bytes) → IsValid db → IsValid (store_phantom db uuid).0
unfolding store_phantom
store_phantom-IsValid db uuid v = known_or-IsValid db uuid _ v (store_phantom_new-IsValid db uuid v)
