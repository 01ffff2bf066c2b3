-- ===== src/Content/Stored.antt =====
-- internal/content/content.go over internal/blob: what is stored expands to what it was, and stays.
use libfossil.Base.{
  zero, suc, equal_iff, ◌==◌, false, ℕ, ◌<◌, ◌^◌, ◌≡◌, refl, ◌∙◌, arith, none, some, List, [], ◌∷◌,
  length, Bytes, ok, Outcome,
}
use libfossil.Delta.{apply}
use libfossil.Blob.{Db, Tools, from_delta, next_rid, store, store_delta, store_phantom}
use libfossil.Blob.Tables.{find_source, IsValid, next_rid-positive, find_source-above}
use libfossil.Blob.Valid.{load-lt, store-IsValid, store_delta-IsValid, store_phantom-IsValid}
use libfossil.Blob.Keeps.{Keeps, load-Keeps, store-Keeps, store_delta-Keeps, store_phantom-Keeps}
use libfossil.Blob.RoundTrip.{IsFiled, IsNew, CanDelta, load-store, load-store_delta}
use libfossil.Content.{verify, verify_content, expand}
use libfossil.Content.Expansion.{Expands, full, delta, expand-Expands}

-- A call that writes to the tables.
pub data Call : Type 0 where
  put : Bytes → Call
  put_delta : Bytes → ℕ → Call
  put_phantom : Bytes → Call

pub call : Tools → Db → Call → Db
call t db (put content) = (store t db content).0
call t db (put_delta content src) = (store_delta t db content src).0
call t db (put_phantom uuid) = (store_phantom db uuid).0

unfoldable pub calls : Tools → Db → List Call → Db
calls t db [] = db
calls t db (c ∷ cs) = calls t (call t db c) cs

-- The tables of a new repository.
abbrev pub empty_db : Db
empty_db = record { blobs = []; deltas = []; phantoms = []; unclustered = [] }

call-IsValid : (t : Tools) (db : Db) (c : Call) → IsValid db → IsValid (call t db c)
unfolding call
call-IsValid t db (put content) v = store-IsValid t db content v
call-IsValid t db (put_delta content src) v = store_delta-IsValid t db content src v
call-IsValid t db (put_phantom uuid) v = store_phantom-IsValid db uuid v

-- Whatever is called on valid tables, and whether or not it succeeds, the tables stay valid: no
-- two rows have one rid or one uuid, every delta has one source, which is older than itself, and
-- every phantom is a row with no content.
pub calls-IsValid : (t : Tools) (db : Db) (cs : List Call) → IsValid db → IsValid (calls t db cs)
unfolding calls
calls-IsValid t db [] v = v
calls-IsValid t db (c ∷ cs) v = calls-IsValid t (call t db c) cs (call-IsValid t db c v)

call-Keeps : (t : Tools) (db : Db) (c : Call) → Keeps db (call t db c)
unfolding call
call-Keeps t db (put content) = store-Keeps t db content
call-Keeps t db (put_delta content src) = store_delta-Keeps t db content src
call-Keeps t db (put_phantom uuid) = store_phantom-Keeps db uuid

Expands-Keeps :
    (t : Tools) (db db' : Db) (rid : ℕ) (s : Bytes)
    → Keeps db db'
    → Expands t db rid s
    → Expands t db' rid s
Expands-Keeps t db db' rid s k (full e l) =
    full (k.kept_sources rid (load-lt t db rid s l) ∙ e) (load-Keeps t db db' rid s k l)
Expands-Keeps t db db' rid s k (delta {d = d} e x l a) =
    delta (k.kept_sources rid (load-lt t db rid d l) ∙ e) (Expands-Keeps t db db' _ _ k x)
      (load-Keeps t db db' rid d k l) a

Expands-calls :
    (t : Tools) (db : Db) (cs : List Call) (rid : ℕ) (s : Bytes)
    → Expands t db rid s
    → Expands t (calls t db cs) rid s
unfolding calls
Expands-calls t db [] rid s x = x
Expands-calls t db (c ∷ cs) rid s x =
    Expands-calls t (call t db c) cs rid s
      (Expands-Keeps t db (call t db c) rid s (call-Keeps t db c) x)

-- On valid tables, an artifact with a positive rid that expands to a content expands to the same
-- content after any calls that store other artifacts.
pub expand-calls :
    (t : Tools) (db : Db) (cs : List Call) (rid : ℕ) (s : Bytes)
    → IsValid db
    → 0 < rid
    → expand t db rid ≡ ok s
    → expand t (calls t db cs) rid ≡ ok s
expand-calls t db cs rid s v h e =
    (expand-Expands t (calls t db cs) rid s (calls-IsValid t db cs v) h).1
      (Expands-calls t db cs rid s ((expand-Expands t db rid s v h).0 e))

find_source-next_rid : (db : Db) → IsValid db → find_source db.deltas (next_rid db.blobs) ≡ none
find_source-next_rid db v = find_source-above db.deltas (next_rid db.blobs) _ v.older (omega arith)

-- A row whose content expands to a text with its hash passes.
verify-filed :
    (t : Tools) (db : Db) (rid : ℕ) (content : Bytes)
    → 0 < rid
    → IsFiled t db rid content
    → expand t db rid ≡ ok content
    → verify t db rid ≡ ok tt
unfolding verify verify_content
verify-filed t db zero content h f e = absurd (omega arith)
verify-filed t db (suc n) content h (row, there, uuid_is) e =
    let short : (length (t.sha1 content) == 64) ≡ false = ground (arith, t.length-sha1 content) in
    let same = (equal_iff (t.sha1 content) (t.sha1 content)).1 refl in
    rw (there, verify) (rw (e, uuid_is) (rw short (rw same refl)))

-- What `Store` stores on valid tables, a new content that is not empty and has less than 4 GB,
-- `Expand` gives back, and the row passes `Verify`.
pub expand-store :
    (t : Tools) (db : Db) (content : Bytes)
    → IsValid db
    → IsNew t db content
    → length content < 2 ^ 32
    → let db' = (store t db content).0 in
      let rid = next_rid db.blobs in (expand t db' rid ≡ ok content) × (verify t db' rid ≡ ok tt)
expand-store t db content v new h =
    let (_, e, l, filed) = load-store t db content new h in
    let positive = next_rid-positive db.blobs in
    let x =
      (expand-Expands t _ (next_rid db.blobs) content (store-IsValid t db content v) positive).1
        (full (rw e (find_source-next_rid db v)) l) in
    (x, verify-filed t _ (next_rid db.blobs) content positive filed x)

find_source-head : (rid src : ℕ) (es : List (ℕ × ℕ)) → find_source ((rid, src) ∷ es) rid ≡ some src
unfolding find_source
find_source-head rid src es = ground arith

from_delta_ok :
    {o : Outcome libfossil.Delta.Error Bytes} {s : Bytes} → o ≡ ok s → from_delta o ≡ ok s
unfolding from_delta
from_delta_ok e = rw e refl

-- What `StoreDelta` stores on valid tables, a new content that is not empty, as a delta against an
-- artifact that is no delta itself, `Expand` gives back, where the source, the content and the
-- delta fit in memory and the delta's compressed form is not as long as the content.
pub expand-store_delta :
    (t : Tools) (db : Db) (content : Bytes) (src : ℕ) (source : Bytes)
    → IsValid db
    → IsNew t db content
    → CanDelta t db content src source
    → find_source db.deltas src ≡ none
    → expand t (store_delta t db content src).0 (next_rid db.blobs) ≡ ok content
expand-store_delta t db content src source v new c root =
    let (_, e, d, l, a) = load-store_delta t db content src source new c in
    let kept = store_delta-Keeps t db content src in
    let source' = Expands-Keeps t db _ src source kept (full root c.loaded) in
    (expand-Expands t _ (next_rid db.blobs) content (store_delta-IsValid t db content src v)
        (next_rid-positive db.blobs)).1
      (delta (rw e (find_source-head (next_rid db.blobs) src db.deltas)) source' l
        (from_delta_ok a))
