-- ===== src/Xfer/Args.antt =====
-- internal/xfer/decode.go: the parsers of the cards that are one line.
pub mod Stops
use libfossil.Base.{
  ℕ, zero, suc, ◌+◌, ◌-◌, ◌*◌, ◌^◌, ◌≤◌, ◌<◌, Bool, true, false, ◌&&◌, ◌||◌, not, Option, none,
  some, List, [], ◌∷◌, ◌++◌, ltb, leb, ◌==◌, if◌then◌else◌, Bytes, codes, equal, length, take, drop,
  Outcome, ok, err, panicked, stuck, ◌>>=◌,
}
use libfossil.Base.Int.{ℤ, pos, negsuc}
use libfossil.Text.{parse_int, fields, trim_right}
use libfossil.Deck.Encode.{fossil_decode}
use libfossil.Xfer.Card.{
  Card, file, cfile, igot, gimme, login, push, pull, cookie, clone, clone_seq_no, config,
  req_config, private, uv_file, uv_gimme, uv_igot, pragma, error, message, unknown, schema, xigot,
  xgimme, xrow, xdelete, CardType, card_file, card_cfile, card_igot, card_gimme, card_login,
  card_push, card_pull, card_cookie, card_clone, card_clone_seq_no, card_config, card_req_config,
  card_private, card_uv_file, card_uv_gimme, card_uv_igot, card_pragma, card_error, card_message,
  card_unknown, card_schema, card_xigot, card_xgimme, card_xrow, card_xdelete,
}
use libfossil.Xfer.Wire.{Error, eof, malformed, Result, or_malformed, Machine}
use libfossil.Xfer.Encode.{uv_file_omits_content, is_empty}

unfoldable pub parse_igot : List Bytes → Result Card
parse_igot (uuid ∷ []) = ok (igot uuid false)
parse_igot (uuid ∷ flag ∷ []) = ok (igot uuid (equal flag (codes "1")))
parse_igot _ = err malformed

unfoldable pub parse_gimme : List Bytes → Result Card
parse_gimme (uuid ∷ []) = ok (gimme uuid)
parse_gimme _ = err malformed

unfoldable pub parse_push : List Bytes → Result Card
parse_push (project ∷ []) = ok (push [] project)
parse_push (project ∷ server ∷ []) = ok (push server project)
parse_push _ = err malformed

unfoldable pub parse_pull : List Bytes → Result Card
parse_pull (project ∷ server ∷ []) = ok (pull server project)
parse_pull _ = err malformed

unfoldable pub parse_cookie : List Bytes → Result Card
parse_cookie (value ∷ []) = ok (cookie value)
parse_cookie _ = err malformed

unfoldable pub parse_req_config : List Bytes → Result Card
parse_req_config (name ∷ []) = ok (req_config name)
parse_req_config _ = err malformed

unfoldable pub parse_private : List Bytes → Result Card
parse_private [] = ok private
parse_private _ = err malformed

unfoldable pub parse_clone : List Bytes → Result Card
parse_clone [] = ok (clone (pos 0) (pos 0))
parse_clone (version ∷ seq_no ∷ []) = do
  v ← or_malformed (parse_int version)
  s ← or_malformed (parse_int seq_no)
  ok (clone v s)
parse_clone _ = err malformed

unfoldable pub parse_clone_seq_no : List Bytes → Result Card
parse_clone_seq_no (seq_no ∷ []) = do s ← or_malformed (parse_int seq_no); ok (clone_seq_no s)
parse_clone_seq_no _ = err malformed

unfoldable pub parse_uv_gimme : List Bytes → Result Card
parse_uv_gimme (name ∷ []) = ok (uv_gimme name)
parse_uv_gimme _ = err malformed

unfoldable pub parse_pragma : List Bytes → Result Card
parse_pragma (name ∷ values) = ok (pragma name values)
parse_pragma [] = err malformed

unfoldable pub parse_login : List Bytes → Result Card
parse_login (user ∷ nonce ∷ signature ∷ []) = ok (login (fossil_decode user) nonce signature)
parse_login _ = err malformed

unfoldable pub parse_error : List Bytes → Result Card
parse_error (text ∷ []) = ok (error (fossil_decode text))
parse_error _ = err malformed

unfoldable pub parse_message : List Bytes → Result Card
parse_message (text ∷ []) = ok (message (fossil_decode text))
parse_message _ = err malformed

unfoldable pub parse_uv_igot : List Bytes → Result Card
parse_uv_igot (name ∷ mtime ∷ hash ∷ size ∷ []) = do
  t ← or_malformed (parse_int mtime)
  n ← or_malformed (parse_int size)
  ok (uv_igot name t hash n)
parse_uv_igot _ = err malformed

unfoldable pub parse_xigot : List Bytes → Result Card
parse_xigot (table ∷ pk_hash ∷ mtime ∷ []) = do
  t ← or_malformed (parse_int mtime)
  ok (xigot table pk_hash t)
parse_xigot _ = err malformed

unfoldable pub parse_xgimme : List Bytes → Result Card
parse_xgimme (table ∷ pk_hash ∷ []) = ok (xgimme table pk_hash)
parse_xgimme _ = err malformed
