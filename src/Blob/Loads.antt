-- ===== src/Blob/Loads.antt =====
-- internal/blob: what is compressed and put into a row is loaded from it.
use libfossil.Base.{
  ℕ, zero, suc, ◌+◌, ◌*◌, ◌/◌, ◌%◌, ◌^◌, ◌<◌, ◌≡◌, refl, ◌∙◌, arith, true, false, some, ◌∷◌, ◌==◌,
  Bytes, equal_iff, length, ltb, ok, ◌>>=◌, Bool-cases, inl, inr,
}
use libfossil.Base.Int.{ℤ, pos}
use libfossil.Xfer.Message.{put_uint32}
use libfossil.Blob.{
  Row, Db, Tools, Result, has_rid, find_row, next_rid, insert_row, mark_unclustered, verified, load,
  load_row, load_content, check_hash, compress, decompress, has_prefix, has_size, is_phantom_size,
}
use libfossil.Blob.Tables.{next_rid-positive}
use libfossil.Blob.Valid.{find_row-head}

pub four_bytes :
    (n : ℕ)
    → n < 2 ^ 32
    → n / 2 ^ 24 % 256 * 2 ^ 24 + n / 2 ^ 16 % 256 * 2 ^ 16 + n / 2 ^ 8 % 256 * 2 ^ 8 + n % 256 ≡ n
four_bytes n h = omega arith

decompress_behind :
    (t : Tools) (a b c d : ℕ) (s z : Bytes)
    → t.inflate z ≡ some s
    → 0 < length z
    → decompress t (a ∷ b ∷ c ∷ d ∷ z) ≡ ok s
unfolding decompress
decompress_behind t a b c d s z e h =
    let long : ltb (suc (suc (suc (suc (length z))))) 5 ≡ false = ground arith in
    rw (long, e, decompress) refl

-- `Decompress` reads back every text from what `Compress` gives.
pub decompress-compress : (t : Tools) (s : Bytes) → decompress t (compress t s) ≡ ok s
unfolding compress put_uint32
decompress-compress t s =
    let (c, rest, e) = t.deflate_header s in
    decompress_behind t _ _ _ _ s (t.deflate s) (t.inflate-deflate s) (rw e (omega arith))

has_prefix_behind :
    (a b c d e : ℕ) (rest : Bytes) (n : ℕ)
    → a * 2 ^ 24 + b * 2 ^ 16 + c * 2 ^ 8 + d ≡ n
    → has_prefix (a ∷ b ∷ c ∷ d ∷ 0x78 ∷ e ∷ rest) (pos n) ≡ true
unfolding has_prefix
has_prefix_behind a b c d e rest n h = ground arith

compress-has_prefix :
    (t : Tools) (s : Bytes) → length s < 2 ^ 32 → has_prefix (compress t s) (pos (length s)) ≡ true
unfolding compress put_uint32
compress-has_prefix t s h =
    let (c, rest, e) = t.deflate_header s in
    rw e (has_prefix_behind _ _ _ _ c rest (length s) (omega (arith, four_bytes (length s) h)))

compress_nonempty : (t : Tools) (s : Bytes) → (length (compress t s) == 0) ≡ false
unfolding compress put_uint32
compress_nonempty t s = ground arith

-- A compressed text is loaded where the size is the text's own.
pub load_content-compress :
    (t : Tools) (s : Bytes)
    → length s < 2 ^ 32
    → load_content t (compress t s) (pos (length s)) ≡ ok s
unfolding load_content
load_content-compress t s h = rw (compress-has_prefix t s h) (decompress-compress t s)

-- It is also where the size is another's, unless that is the number of the stored bytes.
pub load_content-other_size :
    (t : Tools) (s : Bytes) (n : ℤ)
    → has_size (compress t s) n ≡ false
    → load_content t (compress t s) n ≡ ok s
unfolding load_content
load_content-other_size t s n h = elim (Bool-cases (has_prefix (compress t s) n)) [
  | inl y ↦ rw y (decompress-compress t s)
  | inr n0 ↦ rw (n0, h) (decompress-compress t s)
]

-- Loading a row that was found.
load-found :
    (t : Tools) (db : Db) (rid : ℕ) (r : Row)
    → 0 < rid
    → find_row db.blobs rid ≡ some r
    → load t db rid ≡ load_row t r
unfolding load
load-found t db zero r h e = absurd (omega arith)
load-found t db (suc rid) r h e = rw (e, load) refl

-- A new row whose content is a compressed text.
pub load-insert_row :
    (t : Tools) (db : Db) (uuid s back : Bytes) (n : ℕ)
    → load_content t (compress t s) (pos n) ≡ ok back
    → load t
        (insert_row db (record {
          rid = next_rid db.blobs;
          size = pos n;
          uuid = uuid;
          content = some (compress t s);
        }))
        (next_rid db.blobs)
      ≡ ok back
unfolding insert_row load_row is_phantom_size
load-insert_row t db uuid s back n h =
    let r : Row = record {
      rid = next_rid db.blobs;
      size = pos n;
      uuid = uuid;
      content = some (compress t s);
    } in
    load-found t (insert_row db r) _ r (next_rid-positive db.blobs) (find_row-head db.blobs r)
    ∙ rw (compress_nonempty t s) h

-- Only the table blob is read.
pub load_blobs :
    (t : Tools) (db db' : Db) (rid : ℕ) → db'.blobs ≡ db.blobs → load t db' rid ≡ load t db rid
unfolding load
load_blobs t db db' zero e = refl
load_blobs t db db' (suc rid) e = rw (e, load) refl

load-mark_unclustered :
    (t : Tools) (db : Db) (n rid : ℕ) → load t (mark_unclustered db n) rid ≡ load t db rid
unfolding mark_unclustered
load-mark_unclustered t db n rid = elim (Bool-cases (has_rid db.unclustered n)) [
  | inl y ↦ rw y refl
  | inr n0 ↦ rw n0 (load_blobs t db _ rid refl)
]

pub verified-load :
    (t : Tools) (db : Db) (rid : ℕ) (uuid s : Bytes) (o : Result (Unit {0}))
    → o ≡ ok tt
    → load t db rid ≡ ok s
    → ((verified db rid uuid o).1 ≡ ok (rid, uuid)) × (load t (verified db rid uuid o).0 rid ≡ ok s)
unfolding verified
verified-load t db rid uuid s o e h = rw e (refl, load-mark_unclustered t db rid rid ∙ h)

pub bind-same :
    (o : Result Bytes) (s : Bytes) (f : Bytes → Result (Unit {0}))
    → o ≡ ok s
    → f s ≡ ok tt
    → o >>= f ≡ ok tt
bind-same o s f e h = rw e h

pub check_hash-same : (t : Tools) (s : Bytes) → check_hash t (t.sha1 s) s ≡ ok tt
unfolding check_hash
check_hash-same t s = rw ((equal_iff (t.sha1 s) (t.sha1 s)).1 refl) refl
