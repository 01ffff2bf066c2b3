-- ===== src/Blob/Collision.antt =====
-- internal/blob, `StoreDelta`: a delta whose compressed form is as long as the content.
use libfossil.Base.{
  ℕ, ◌+◌, ◌*◌, ◌/◌, ◌%◌, ◌^◌, ◌<◌, ◌≡◌, ◌≢◌, refl, ◌∙◌, arith, true, false, ◌∷◌, ◌==◌, Bytes,
  length, drop, ok, err, ◌>>=◌,
}
use libfossil.Base.Int.{pos}
use libfossil.Delta.{apply}
use libfossil.Delta.Safety.{apply_zero}
use libfossil.Delta.Create.{create}
use libfossil.Xfer.Message.{put_uint32}
use libfossil.Blob.{
  Db, Tools, Result, Error, bad_delta, next_rid, insert_row, insert_delta, verified, store_delta,
  store_delta_from, load, load_content, from_delta, check_hash, compress, has_prefix, has_size,
}
use libfossil.Blob.Loads.{four_bytes, load-insert_row}
use libfossil.Blob.RoundTrip.{with_delta, IsNew, known_or_new, positive-source, load-insert_delta}

prefix_differs :
    (a b c d e : ℕ) (rest : Bytes) (n : ℕ)
    → a * 2 ^ 24 + b * 2 ^ 16 + c * 2 ^ 8 + d ≢ n
    → has_prefix (a ∷ b ∷ c ∷ d ∷ 0x78 ∷ e ∷ rest) (pos n) ≡ false
unfolding has_prefix
prefix_differs a b c d e rest n h = ground arith

-- The four bytes in front of a short delta's stream are the delta's length, and the first is 0.
compress_short :
    (t : Tools) (d : Bytes) (n : ℕ)
    → length d < 2 ^ 24
    → length d ≢ n
    → (has_prefix (compress t d) (pos n) ≡ false) × (compress t d ≡ 0 ∷ drop 1 (compress t d))
unfolding compress put_uint32
compress_short t d n h k =
    let (c, rest, e) = t.deflate_header d in
    let e0 : length d % 2 ^ 32 / 2 ^ 24 % 256 ≡ 0 = omega arith in
    (
      rw e (prefix_differs _ _ _ _ c rest n (omega (arith, four_bytes (length d) (omega arith)))),
      rw e0 refl,
    )

load_content_as_is :
    (t : Tools) (d : Bytes) (n : ℕ)
    → has_prefix (compress t d) (pos n) ≡ false
    → length (compress t d) ≡ n
    → load_content t (compress t d) (pos n) ≡ ok (compress t d)
unfolding load_content has_size
load_content_as_is t d n p h =
    let same : (length (compress t d) == n) ≡ true = ground arith in rw (p, same) refl

verified_err :
    (db : Db) (rid : ℕ) (uuid : Bytes) (o : Result (Unit {0})) (e : Error)
    → o ≡ err e
    → (verified db rid uuid o).1 ≡ err e
unfolding verified
verified_err db rid uuid o e h = rw h refl

rebuilt_err :
    (t : Tools) (uuid source rest z : Bytes) (o : Result Bytes)
    → o ≡ ok z
    → z ≡ 0 ∷ rest
    → (o >>= λ stored. from_delta (apply t.max_cap source stored) >>= check_hash t uuid)
      ≡ err bad_delta
unfolding from_delta
rebuilt_err t uuid source rest z o h e = rw (h, e, apply_zero t.max_cap source rest) refl

store_delta_from_err :
    (t : Tools) (db : Db) (content : Bytes) (src : ℕ) (source d rest : Bytes)
    → load_content t (compress t d) (pos (length content)) ≡ ok (compress t d)
    → compress t d ≡ 0 ∷ rest
    → (store_delta_from t db content (t.sha1 content) src source d).1 ≡ err bad_delta
unfolding store_delta_from insert_delta insert_row
store_delta_from_err t db content src source d rest h e =
    let uuid = t.sha1 content in
    let rid = next_rid db.blobs in
    let back =
      load-insert_delta t _ rid src rid
      ∙ load-insert_row t db uuid d (compress t d) (length content) h in
    verified_err (with_delta t db content d src) rid uuid _ bad_delta
      (rebuilt_err t uuid source rest (compress t d) _ back e)

-- A delta of less than 16 MB, for a new content that is not empty and of another length, whose
-- compressed form happens to be as long as this content, is stored and is then loaded without
-- being decompressed, so that `StoreDelta` fails on its own verification.
pub store_delta_collision :
    (t : Tools) (db : Db) (content : Bytes) (src : ℕ) (source d : Bytes)
    → IsNew t db content
    → load t db src ≡ ok source
    → create source content ≡ ok d
    → length d < 2 ^ 24
    → length d ≢ length content
    → length (compress t d) ≡ length content
    → (store_delta t db content src).1 ≡ err bad_delta
unfolding store_delta
store_delta_collision t db content src source d (some_text, new) loaded e short other same =
    let full : (length content == 0) ≡ false = ground arith in
    let positive : (src == 0) ≡ false = ground (arith, positive-source t db src source loaded) in
    let (no_prefix, z) = compress_short t d (length content) short other in
    let as_is = load_content_as_is t d (length content) no_prefix same in
    rw (full, positive, known_or_new t db content _ new, loaded, e)
      (store_delta_from_err t db content src source d _ as_is z)
