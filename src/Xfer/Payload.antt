-- ===== src/Xfer/Payload.antt =====
-- internal/xfer/decode.go: the parsers of the cards with a payload behind the line. The reader is the
-- list of the bytes that are still to be read, and a function that reads gives back the rest.
pub mod Shrinks
use libfossil.Base.{
  ℕ, zero, suc, ◌+◌, ◌-◌, ◌*◌, ◌^◌, ◌≤◌, ◌<◌, Bool, true, false, ◌&&◌, ◌||◌, not, Option, none,
  some, List, [], ◌∷◌, ◌++◌, ltb, leb, ◌==◌, if◌then◌else◌, Bytes, codes, equal, length, take, drop,
  Outcome, ok, err, panicked, stuck, ◌>>=◌,
}
use libfossil.Base.Int.{ℤ, pos, negsuc}
use libfossil.Text.{parse_int, fields, trim_right}
use libfossil.Deck.Encode.{fossil_decode}
use libfossil.Xfer.Card.{
  Card, file, cfile, igot, gimme, login, push, pull, cookie, clone, clone_seq_no, config,
  req_config, private, uv_file, uv_gimme, uv_igot, pragma, error, message, unknown, schema, xigot,
  xgimme, xrow, xdelete, CardType, card_file, card_cfile, card_igot, card_gimme, card_login,
  card_push, card_pull, card_cookie, card_clone, card_clone_seq_no, card_config, card_req_config,
  card_private, card_uv_file, card_uv_gimme, card_uv_igot, card_pragma, card_error, card_message,
  card_unknown, card_schema, card_xigot, card_xgimme, card_xrow, card_xdelete,
}
use libfossil.Xfer.Wire.{Error, eof, malformed, Result, or_malformed, Machine}
use libfossil.Xfer.Encode.{uv_file_omits_content, is_empty}

-- A negative size panics; `make` panics on a size that it cannot allocate.
unfoldable pub read_payload : Machine → Bytes → ℤ → Result (Bytes × Bytes)
read_payload m r (negsuc _) = panicked
read_payload m r (pos size) =
    if size == 0
    then ok ([], r)
    else if ltb m.max_len size
    then panicked
    else if ltb (length r) size
    then err malformed
    else ok (take size r, drop size r)

unfoldable pub skip_newline : Bytes → Bytes
skip_newline [] = []
skip_newline (c ∷ r) = if c == b'\n' then r else c ∷ r

unfoldable pub read_payload_with_trailing_newline : Machine → Bytes → ℤ → Result (Bytes × Bytes)
read_payload_with_trailing_newline m r size = do
  (buf, r1) ← read_payload m r size
  ok (buf, skip_newline r1)

parse_file_of : Machine → Bytes → Bytes → Bytes → Bytes → Result (Card × Bytes)
parse_file_of m r uuid delta_src size = do
  n ← or_malformed (parse_int size)
  (content, r1) ← read_payload m r n
  ok (file uuid delta_src content, r1)

unfoldable pub parse_file : Machine → Bytes → List Bytes → Result (Card × Bytes)
unfolding parse_file_of
parse_file m r (uuid ∷ size ∷ []) = parse_file_of m r uuid [] size
parse_file m r (uuid ∷ delta_src ∷ size ∷ []) = parse_file_of m r uuid delta_src size
parse_file m r _ = err malformed

-- Plain zlib first, then without a prefix of four bytes.
unfoldable pub decompress_cfile : Machine → Bytes → Result Bytes
decompress_cfile m text = elim (m.decompress text) [
  | some out ↦ ok out
  | none ↦ if ltb 4 (length text) then or_malformed (m.decompress (drop 4 text)) else err malformed
]

unfoldable pub same_size : Bytes → ℤ → Bool
same_size s (pos n) = length s == n
same_size s (negsuc _) = false

parse_cfile_of : Machine → Bytes → Bytes → Bytes → Bytes → Bytes → Result (Card × Bytes)
unfolding same_size
parse_cfile_of m r uuid delta_src usize csize = do
  u ← or_malformed (parse_int usize)
  c ← or_malformed (parse_int csize)
  (compressed, r1) ← read_payload m r c
  out ← decompress_cfile m compressed
  if is_empty delta_src && not (same_size out u)
      then err malformed
      else ok (cfile uuid delta_src u out, r1)

unfoldable pub parse_cfile : Machine → Bytes → List Bytes → Result (Card × Bytes)
unfolding parse_cfile_of
parse_cfile m r (uuid ∷ usize ∷ csize ∷ []) = parse_cfile_of m r uuid [] usize csize
parse_cfile m r (uuid ∷ delta_src ∷ usize ∷ csize ∷ []) =
    parse_cfile_of m r uuid delta_src usize csize
parse_cfile m r _ = err malformed

unfoldable pub parse_config : Machine → Bytes → List Bytes → Result (Card × Bytes)
parse_config m r (name ∷ size ∷ []) = do
  n ← or_malformed (parse_int size)
  (content, r1) ← read_payload_with_trailing_newline m r n
  ok (config name content, r1)
parse_config m r _ = err malformed

unfoldable pub uv_file_content : Machine → Bytes → ℤ → ℤ → Result (Bytes × Bytes)
uv_file_content m r size flags =
    if uv_file_omits_content flags then ok ([], r) else read_payload m r size

unfoldable pub parse_uv_file : Machine → Bytes → List Bytes → Result (Card × Bytes)
unfolding uv_file_content
parse_uv_file m r (name ∷ mtime ∷ hash ∷ size ∷ flags ∷ []) = do
  t ← or_malformed (parse_int mtime)
  n ← or_malformed (parse_int size)
  f ← or_malformed (parse_int flags)
  (content, r1) ← uv_file_content m r n f
  ok (uv_file name t hash n f content, r1)
parse_uv_file m r _ = err malformed

-- 64 MiB, the bound of `maxSchemaSize`, `maxXRowSize` and `maxXDeleteSize`.
abbrev pub max_row_size : ℕ
max_row_size = 64 * 2 ^ 20

unfoldable pub in_row_bounds : ℤ → Bool
in_row_bounds (pos n) = leb n max_row_size
in_row_bounds (negsuc _) = false

unfoldable pub read_bounded : Machine → Bytes → ℤ → Result (Bytes × Bytes)
read_bounded m r size =
    if not (in_row_bounds size) then err malformed else read_payload_with_trailing_newline m r size

unfoldable pub parse_schema : Machine → Bytes → List Bytes → Result (Card × Bytes)
parse_schema m r (table ∷ version ∷ hash ∷ mtime ∷ size ∷ []) = do
  v ← or_malformed (parse_int version)
  t ← or_malformed (parse_int mtime)
  n ← or_malformed (parse_int size)
  (content, r1) ← read_bounded m r n
  ok (schema table v hash t content, r1)
parse_schema m r _ = err malformed

unfoldable pub parse_xdelete : Machine → Bytes → List Bytes → Result (Card × Bytes)
parse_xdelete m r (table ∷ pk_hash ∷ mtime ∷ size ∷ []) = do
  t ← or_malformed (parse_int mtime)
  n ← or_malformed (parse_int size)
  (pk_data, r1) ← read_bounded m r n
  ok (xdelete table pk_hash t pk_data, r1)
parse_xdelete m r _ = err malformed

unfoldable pub parse_xrow : Machine → Bytes → List Bytes → Result (Card × Bytes)
parse_xrow m r (table ∷ pk_hash ∷ mtime ∷ size ∷ []) = do
  t ← or_malformed (parse_int mtime)
  n ← or_malformed (parse_int size)
  (content, r1) ← read_bounded m r n
  ok (xrow table pk_hash t content, r1)
parse_xrow m r _ = err malformed
