-- ===== src/Blob.antt =====
-- internal/blob: the tables of artifacts. The SQL statements are operations on lists of rows; they do
-- not fail, and fault injection is off, as it is outside of a simulation.
pub mod Tables
pub mod Valid
pub mod Keeps
pub mod Loads
pub mod RoundTrip
pub mod Collision
use libfossil.Base.{
  ℕ, zero, suc, ◌+◌, ◌*◌, ◌%◌, ◌^◌, ◌≡◌, Bool, true, false, ◌&&◌, ◌||◌, Option, none, some, List,
  [], ◌∷◌, ◌++◌, ltb, leb, ◌==◌, if◌then◌else◌, Bytes, equal, length, get_elem?, drop, Outcome, ok,
  err, panicked, stuck, ◌>>=◌,
}
use libfossil.Base.Int.{ℤ, pos, negsuc}
use libfossil.Delta.{apply}
use libfossil.Delta.Create.{create}
use libfossil.Xfer.Message.{put_uint32}

pub data Error : Type 0 where
  no_row phantom no_content zlib bad_delta mismatch chain_cycle : Error

abbrev pub Result {ℓ} : Type ℓ → Type ℓ
Result A = Outcome Error A

-- The libraries: crypto/sha1 and x/crypto/sha3 in hex, and compress/zlib. Reading a stream gives back
-- what was written to it, and a stream that Go writes begins with the byte 0x78 and one more (RFC
-- 1950). `max_cap` is the largest capacity of a slice of bytes.
pub record Tools : Type 0 where
  pub sha1 : Bytes → Bytes
  pub sha3 : Bytes → Bytes
  pub deflate : Bytes → Bytes
  pub inflate : Bytes → Option Bytes
  pub max_cap : ℕ
  pub length-sha1 : (s : Bytes) → length (sha1 s) ≡ 40
  pub inflate-deflate : (s : Bytes) → inflate (deflate s) ≡ some s
  pub deflate_header : (s : Bytes) → (c : ℕ) × (rest : Bytes) × (deflate s ≡ 0x78 ∷ c ∷ rest)

-- A row of the table blob; `content` is `none` where it is NULL.
pub record Row : Type 0 where
  pub rid : ℕ
  pub size : ℤ
  pub uuid : Bytes
  pub content : Option Bytes

-- The tables blob, delta (rid and srcid), phantom and unclustered.
pub record Db : Type 0 where
  pub blobs : List Row
  pub deltas : List (ℕ × ℕ)
  pub phantoms : List ℕ
  pub unclustered : List ℕ

-- SELECT content, size FROM blob WHERE rid=?
unfoldable pub find_row : List Row → ℕ → Option Row
find_row [] rid = none
find_row (r ∷ rs) rid = if r.rid == rid then some r else find_row rs rid

-- SELECT rid FROM blob WHERE uuid=?
unfoldable pub find_uuid : List Row → Bytes → Option ℕ
find_uuid [] uuid = none
find_uuid (r ∷ rs) uuid = if equal r.uuid uuid then some r.rid else find_uuid rs uuid

-- The rid that SQLite gives to an inserted row: one more than the largest.
unfoldable pub next_rid : List Row → ℕ
next_rid [] = 1
next_rid (r ∷ rs) = if leb (next_rid rs) r.rid then suc r.rid else next_rid rs

unfoldable pub has_rid : List ℕ → ℕ → Bool
has_rid [] rid = false
has_rid (r ∷ rs) rid = if r == rid then true else has_rid rs rid

-- INSERT OR IGNORE INTO unclustered(rid)
unfoldable pub mark_unclustered : Db → ℕ → Db
unfolding has_rid
mark_unclustered db rid =
    if has_rid db.unclustered rid then db else record db { unclustered = rid ∷ db.unclustered }

unfoldable pub insert_row : Db → Row → Db
insert_row db r = record db { blobs = r ∷ db.blobs }

unfoldable pub compress : Tools → Bytes → Bytes
compress t text = put_uint32 (length text % 2 ^ 32) ++ t.deflate text

unfoldable pub decompress : Tools → Bytes → Result Bytes
decompress t text =
    if ltb (length text) 5
    then err zlib
    else elim (t.inflate (drop 4 text)) [ none ↦ err zlib | some out ↦ ok out ]

-- `len(content) >= 6`, the four bytes in front are the size, and zlib's header follows.
unfoldable pub has_prefix : Bytes → ℤ → Bool
has_prefix (a ∷ b ∷ c ∷ d ∷ e ∷ _ ∷ _) (pos size) =
    (a * 2 ^ 24 + b * 2 ^ 16 + c * 2 ^ 8 + d) == size && e == 0x78
has_prefix _ _ = false

unfoldable pub has_size : Bytes → ℤ → Bool
has_size text (pos size) = length text == size
has_size text (negsuc _) = false

unfoldable pub load_content : Tools → Bytes → ℤ → Result Bytes
load_content t content size =
    if has_prefix content size
    then decompress t content
    else if has_size content size
    then ok content
    else decompress t content

unfoldable pub is_phantom_size : ℤ → Bool
is_phantom_size (pos _) = false
is_phantom_size (negsuc n) = n == 0

unfoldable pub load_row : Tools → Row → Result Bytes
unfolding load_content
load_row t r = if is_phantom_size r.size then err phantom else elim r.content [
  | none ↦ err no_content
  | some content ↦ if length content == 0 then err no_content else load_content t content r.size
]

unfoldable pub load : Tools → Db → ℕ → Result Bytes
unfolding find_row
load t db zero = panicked
load t db (suc rid) = elim (find_row db.blobs (suc rid)) [
  | none ↦ err no_row
  | some r ↦ load_row t r
]

-- An empty uuid is a panic.
unfoldable pub exists : Db → Bytes → Result (Option ℕ)
unfolding find_uuid
exists db uuid = if length uuid == 0 then panicked else ok (find_uuid db.blobs uuid)

unfoldable pub from_delta {ℓ} : {A : Type ℓ} → Outcome libfossil.Delta.Error A → Result A
from_delta (ok a) = ok a
from_delta (err e) = err bad_delta
from_delta panicked = panicked
from_delta stuck = stuck

-- What is read back has the hash that is stored.
unfoldable pub check_hash : Tools → Bytes → Bytes → Result (Unit {0})
check_hash t uuid back = if equal (t.sha1 back) uuid then ok tt else err mismatch

-- The end of a store: the result of the verification, and the row's mark if it passed.
unfoldable pub verified : Db → ℕ → Bytes → Result (Unit {0}) → Db × Result (ℕ × Bytes)
unfolding mark_unclustered
verified db rid uuid (ok _) = (mark_unclustered db rid, ok (rid, uuid))
verified db rid uuid (err e) = (db, err e)
verified db rid uuid panicked = (db, panicked)
verified db rid uuid stuck = (db, stuck)

-- Behind the test that the content is new. A failed verification leaves the row, for the caller's
-- transaction to take back.
unfoldable pub store_new : Tools → Db → Bytes → Bytes → Db × Result (ℕ × Bytes)
unfolding insert_row verified check_hash compress
store_new t db content uuid =
    let rid = next_rid db.blobs in
    let db' = insert_row db (record {
      rid = rid;
      size = pos (length content);
      uuid = uuid;
      content = some (compress t content);
    }) in
    verified db' rid uuid (load t db' rid >>= check_hash t uuid)

unfoldable pub known_or :
    Db → Bytes → Result (Option ℕ) → Db × Result (ℕ × Bytes) → Db × Result (ℕ × Bytes)
known_or db uuid (ok (some rid)) new = (db, ok (rid, uuid))
known_or db uuid (ok none) new = new
known_or db uuid (err e) new = (db, err e)
known_or db uuid panicked new = (db, panicked)
known_or db uuid stuck new = (db, stuck)

unfoldable pub store : Tools → Db → Bytes → Db × Result (ℕ × Bytes)
unfolding exists known_or store_new
store t db content =
    let uuid = t.sha1 content in
    if length content == 0
    then (db, panicked)
    else known_or db uuid (exists db uuid) (store_new t db content uuid)

-- INSERT INTO delta(rid, srcid)
unfoldable pub insert_delta : Db → ℕ → ℕ → Db
insert_delta db rid src = record db { deltas = (rid, src) ∷ db.deltas }

-- Behind the loading of the source's stored bytes. The row's size is that of the content, and its
-- bytes are those of the delta.
unfoldable pub store_delta_from :
    Tools → Db → Bytes → Bytes → ℕ → Bytes → Bytes → Db × Result (ℕ × Bytes)
unfolding insert_row insert_delta verified check_hash from_delta compress
store_delta_from t db content uuid src source d =
    let rid = next_rid db.blobs in
    let db' =
      insert_delta
        (insert_row db (record {
          rid = rid;
          size = pos (length content);
          uuid = uuid;
          content = some (compress t d);
        }))
        rid src in
    verified db' rid uuid (do
      stored ← load t db' rid
      rebuilt ← from_delta (apply t.max_cap source stored)
      check_hash t uuid rebuilt)

unfoldable pub created :
    Result (Bytes × Bytes)
    → Db
    → (Bytes → Bytes → Db × Result (ℕ × Bytes))
    → Db × Result (ℕ × Bytes)
created (ok (source, d)) db next = next source d
created (err e) db next = (db, err e)
created panicked db next = (db, panicked)
created stuck db next = (db, stuck)

unfoldable pub store_delta : Tools → Db → Bytes → ℕ → Db × Result (ℕ × Bytes)
unfolding exists known_or store_delta_from created from_delta
store_delta t db content src =
    let uuid = t.sha1 content in
    if length content == 0 || src == 0
    then (db, panicked)
    else known_or db uuid (exists db uuid) (
        created (do source ← load t db src; d ← from_delta (create source content); ok (source, d))
          db (store_delta_from t db content uuid src))

-- The uuid that comes back with the rid is the caller's.
unfoldable pub store_phantom_new : Db → Bytes → Db × Result (ℕ × Bytes)
unfolding insert_row
store_phantom_new db uuid =
    let rid = next_rid db.blobs in
    let db' = insert_row db (record { rid = rid; size = negsuc 0; uuid = uuid; content = none }) in
    (record db' { phantoms = rid ∷ db'.phantoms }, ok (rid, uuid))

unfoldable pub store_phantom : Db → Bytes → Db × Result (ℕ × Bytes)
unfolding exists known_or store_phantom_new
store_phantom db uuid = known_or db uuid (exists db uuid) (store_phantom_new db uuid)
