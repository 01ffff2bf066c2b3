-- ===== src/Blob/Keeps.antt =====
-- internal/blob: no operation changes a row that is there, or the source of one.
use libfossil.Base.{
  ℕ, zero, suc, ◌<◌, ◌≡◌, refl, arith, false, ◌||◌, Option, none, some, ◌==◌, Bytes, length, ok,
  err, panicked, stuck, Bool-cases, Option-cases, inl, inr,
}
use libfossil.Base.Int.{negsuc}
use libfossil.Blob.{
  Row, Db, Tools, Result, has_rid, find_row, next_rid, insert_row, insert_delta, mark_unclustered,
  verified, store, store_new, store_delta, store_delta_from, store_phantom, store_phantom_new,
  known_or, created, exists, load,
}
use libfossil.Blob.Tables.{find_source, find_row-insert}

-- What `db` has, `db'` has too.
pub record Keeps (db db' : Db) : Type 0 where
  pub kept_rows : (n : ℕ) (r : Row) → find_row db.blobs n ≡ some r → find_row db'.blobs n ≡ some r
  pub kept_sources :
      (n : ℕ) → n < next_rid db.blobs → find_source db'.deltas n ≡ find_source db.deltas n

Keeps-refl : (db : Db) → Keeps db db
Keeps-refl db = record { kept_rows = λ n r h. h; kept_sources = λ n h. refl }

Keeps-same :
    (db db' db'' : Db)
    → Keeps db db'
    → db''.blobs ≡ db'.blobs
    → db''.deltas ≡ db'.deltas
    → Keeps db db''
Keeps-same db db' db'' k b d = record {
  kept_rows = λ n r h. rw b (k.kept_rows n r h);
  kept_sources = λ n h. rw d (k.kept_sources n h);
}

verified-Keeps :
    (db db' : Db) (rid : ℕ) (uuid : Bytes) (o : Result (Unit {0}))
    → Keeps db db'
    → Keeps db (verified db' rid uuid o).0
unfolding verified mark_unclustered
verified-Keeps db db' rid uuid (ok _) k = elim (Bool-cases (has_rid db'.unclustered rid)) [
  | inl y ↦ rw y k
  | inr n0 ↦ rw n0 (Keeps-same db db' _ k refl refl)
]
verified-Keeps db db' rid uuid (err e) k = k
verified-Keeps db db' rid uuid panicked k = k
verified-Keeps db db' rid uuid stuck k = k

insert_row-Keeps : (db : Db) (r : Row) → r.rid ≡ next_rid db.blobs → Keeps db (insert_row db r)
unfolding insert_row
insert_row-Keeps db r e = record {
  kept_rows = λ n x h. find_row-insert db.blobs r x n e h;
  kept_sources = λ n h. refl;
}

insert_delta-Keeps :
    (db : Db) (r : Row) (src : ℕ)
    → r.rid ≡ next_rid db.blobs
    → Keeps db (insert_delta (insert_row db r) r.rid src)
unfolding insert_row insert_delta find_source
insert_delta-Keeps db r src e = record {
  kept_rows = λ n x h. find_row-insert db.blobs r x n e h;
  kept_sources = λ n h. let other : (r.rid == n) ≡ false = ground arith in rw other refl;
}

known_or-Keeps :
    (db : Db) (uuid : Bytes) (o : Result (Option ℕ)) (next : Db × Result (ℕ × Bytes))
    → Keeps db next.0
    → Keeps db (known_or db uuid o next).0
unfolding known_or
known_or-Keeps db uuid (ok none) next k = k
known_or-Keeps db uuid (ok (some _)) next k = Keeps-refl db
known_or-Keeps db uuid (err _) next k = Keeps-refl db
known_or-Keeps db uuid panicked next k = Keeps-refl db
known_or-Keeps db uuid stuck next k = Keeps-refl db

created-Keeps :
    (db : Db) (o : Result (Bytes × Bytes)) (next : Bytes → Bytes → Db × Result (ℕ × Bytes))
    → ((source d : Bytes) → Keeps db (next source d).0)
    → Keeps db (created o db next).0
unfolding created
created-Keeps db (ok (source, d)) next k = k source d
created-Keeps db (err _) next k = Keeps-refl db
created-Keeps db panicked next k = Keeps-refl db
created-Keeps db stuck next k = Keeps-refl db

pub store-Keeps : (t : Tools) (db : Db) (content : Bytes) → Keeps db (store t db content).0
unfolding store store_new
store-Keeps t db content = elim (Bool-cases (length content == 0)) [
  | inl y ↦ rw y (Keeps-refl db)
  | inr n0 ↦ rw n0 (
      known_or-Keeps db (t.sha1 content) (exists db (t.sha1 content))
        (store_new t db content (t.sha1 content))
        (verified-Keeps db _ _ (t.sha1 content) _ (insert_row-Keeps db _ refl)))
]

pub store_delta-Keeps :
    (t : Tools) (db : Db) (content : Bytes) (src : ℕ) → Keeps db (store_delta t db content src).0
unfolding store_delta store_delta_from
store_delta-Keeps t db content src = elim (Bool-cases (length content == 0 || src == 0)) [
  | inl y ↦ rw y (Keeps-refl db)
  | inr n0 ↦ rw n0 (
      known_or-Keeps db (t.sha1 content) (exists db (t.sha1 content)) _ (
        created-Keeps db _ (store_delta_from t db content (t.sha1 content) src)
          λ source d. verified-Keeps db _ _ (t.sha1 content) _ (insert_delta-Keeps db _ src refl)))
]

pub store_phantom-Keeps : (db : Db) (uuid : Bytes) → Keeps db (store_phantom db uuid).0
unfolding store_phantom store_phantom_new
store_phantom-Keeps db uuid = known_or-Keeps db uuid (exists db uuid) (store_phantom_new db uuid) (
    Keeps-same db
      (insert_row db
        (record { rid = next_rid db.blobs; size = negsuc 0; uuid = uuid; content = none }))
      _ (insert_row-Keeps db _ refl) refl refl)

-- What was loaded is loaded again.
pub load-Keeps :
    (t : Tools) (db db' : Db) (rid : ℕ) (s : Bytes)
    → Keeps db db'
    → load t db rid ≡ ok s
    → load t db' rid ≡ ok s
unfolding load
load-Keeps t db db' zero s k h = h
load-Keeps t db db' (suc rid) s k h = elim (Option-cases (find_row db.blobs (suc rid))) [
  | inl e ↦ absurd (ground (arith, rw (e, load) at h))
  | inr (r, e) ↦ rw (k.kept_rows (suc rid) r e, load) (rw (e, load) at h)
]
