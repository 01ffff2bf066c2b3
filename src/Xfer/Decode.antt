-- ===== src/Xfer/Decode.antt =====
-- internal/xfer/decode.go: `DecodeCard` and its dispatch on the command.

pub mod Lines
pub mod Refused
pub mod Safety
use libfossil.Base.{
  ℕ, zero, suc, ◌+◌, ◌-◌, ◌*◌, ◌^◌, ◌≤◌, ◌<◌, Bool, true, false, ◌&&◌, ◌||◌, not, Option, none,
  some, List, [], ◌∷◌, ◌++◌, ltb, leb, ◌==◌, if◌then◌else◌, Bytes, codes, equal, length, take, drop,
  Outcome, ok, err, panicked, stuck, ◌>>=◌,
}
use libfossil.Base.Int.{ℤ, pos, negsuc}
use libfossil.Text.{parse_int, fields, trim_right}
use libfossil.Deck.Encode.{fossil_decode}
use libfossil.Xfer.Card.{
  Card, file, cfile, igot, gimme, login, push, pull, cookie, clone, clone_seq_no, config,
  req_config, private, uv_file, uv_gimme, uv_igot, pragma, error, message, unknown, schema, xigot,
  xgimme, xrow, xdelete, CardType, card_file, card_cfile, card_igot, card_gimme, card_login,
  card_push, card_pull, card_cookie, card_clone, card_clone_seq_no, card_config, card_req_config,
  card_private, card_uv_file, card_uv_gimme, card_uv_igot, card_pragma, card_error, card_message,
  card_unknown, card_schema, card_xigot, card_xgimme, card_xrow, card_xdelete,
}
use libfossil.Xfer.Wire.{Error, eof, malformed, Result, or_malformed, Machine}
use libfossil.Xfer.Encode.{is_empty}
use libfossil.Xfer.Args.{
  parse_igot, parse_gimme, parse_push, parse_pull, parse_cookie, parse_req_config, parse_private,
  parse_clone, parse_clone_seq_no, parse_uv_gimme, parse_pragma, parse_login, parse_error,
  parse_message, parse_uv_igot, parse_xigot, parse_xgimme,
}
use libfossil.Xfer.Payload.{
  parse_file, parse_cfile, parse_config, parse_uv_file, parse_schema, parse_xrow, parse_xdelete,
}

-- The `switch` on the command word.
pub command_types : List (Bytes × CardType)
command_types =
    (codes "igot", card_igot)
    ∷ (codes "gimme", card_gimme)
    ∷ (codes "push", card_push)
    ∷ (codes "pull", card_pull)
    ∷ (codes "cookie", card_cookie)
    ∷ (codes "reqconfig", card_req_config)
    ∷ (codes "private", card_private)
    ∷ (codes "clone", card_clone)
    ∷ (codes "clone_seqno", card_clone_seq_no)
    ∷ (codes "uvgimme", card_uv_gimme)
    ∷ (codes "pragma", card_pragma)
    ∷ (codes "login", card_login)
    ∷ (codes "error", card_error)
    ∷ (codes "message", card_message)
    ∷ (codes "uvigot", card_uv_igot)
    ∷ (codes "file", card_file)
    ∷ (codes "cfile", card_cfile)
    ∷ (codes "config", card_config)
    ∷ (codes "uvfile", card_uv_file)
    ∷ (codes "schema", card_schema)
    ∷ (codes "xigot", card_xigot)
    ∷ (codes "xgimme", card_xgimme)
    ∷ (codes "xrow", card_xrow)
    ∷ (codes "xdelete", card_xdelete)
    ∷ []

pub find_type : List (Bytes × CardType) → Bytes → CardType
find_type [] cmd = card_unknown
find_type ((name, t) ∷ rest) cmd = if equal cmd name then t else find_type rest cmd

unfoldable pub command_type : Bytes → CardType
unfolding command_types find_type
command_type cmd = find_type command_types cmd

-- A card that is one line leaves the reader where it is.
pub on_line : Bytes → Result Card → Result (Card × Bytes)
on_line r parsed = do c ← parsed; ok (c, r)

-- The call that the `switch` makes.
unfoldable pub parse_typed : Machine → Bytes → Bytes → List Bytes → CardType → Result (Card × Bytes)
unfolding on_line
parse_typed m r cmd args card_igot = on_line r (parse_igot args)
parse_typed m r cmd args card_gimme = on_line r (parse_gimme args)
parse_typed m r cmd args card_push = on_line r (parse_push args)
parse_typed m r cmd args card_pull = on_line r (parse_pull args)
parse_typed m r cmd args card_cookie = on_line r (parse_cookie args)
parse_typed m r cmd args card_req_config = on_line r (parse_req_config args)
parse_typed m r cmd args card_private = on_line r (parse_private args)
parse_typed m r cmd args card_clone = on_line r (parse_clone args)
parse_typed m r cmd args card_clone_seq_no = on_line r (parse_clone_seq_no args)
parse_typed m r cmd args card_uv_gimme = on_line r (parse_uv_gimme args)
parse_typed m r cmd args card_pragma = on_line r (parse_pragma args)
parse_typed m r cmd args card_login = on_line r (parse_login args)
parse_typed m r cmd args card_error = on_line r (parse_error args)
parse_typed m r cmd args card_message = on_line r (parse_message args)
parse_typed m r cmd args card_uv_igot = on_line r (parse_uv_igot args)
parse_typed m r cmd args card_file = parse_file m r args
parse_typed m r cmd args card_cfile = parse_cfile m r args
parse_typed m r cmd args card_config = parse_config m r args
parse_typed m r cmd args card_uv_file = parse_uv_file m r args
parse_typed m r cmd args card_schema = parse_schema m r args
parse_typed m r cmd args card_xigot = on_line r (parse_xigot args)
parse_typed m r cmd args card_xgimme = on_line r (parse_xgimme args)
parse_typed m r cmd args card_xrow = parse_xrow m r args
parse_typed m r cmd args card_xdelete = parse_xdelete m r args
parse_typed m r cmd args card_unknown = ok (unknown cmd args, r)

pub parse_fields : Machine → Bytes → List Bytes → Result (Card × Bytes)
parse_fields m r [] = err malformed
parse_fields m r (cmd ∷ args) = parse_typed m r cmd args (command_type cmd)

pub parse_line : Machine → Bytes → Bytes → Result (Card × Bytes)
parse_line m r line = parse_fields m r (fields line)

-- What `ReadString` gives: the bytes up to the line break, with it, or all that is left at the end.
pub record Line : Type 0 where
  pub text : Bytes
  pub at_end : Bool
  pub rest : Bytes

abbrev prepend : ℕ → Line → Line
prepend c l = record { text = c ∷ l.text; at_end = l.at_end; rest = l.rest }

pub read_string : Bytes → Line
read_string [] = record { text = []; at_end = true; rest = [] }
read_string (c ∷ r) =
    let more = read_string r in
    if c == b'\n' then record { text = c ∷ []; at_end = false; rest = r } else prepend c more

unfoldable pub is_comment : Bytes → Bool
is_comment [] = false
is_comment (c ∷ _) = c == b'#'

-- The loop over empty lines and comments; each round reads a byte, or it is the last.
pub decode_loop : Machine → ℕ → Bytes → Result (Card × Bytes)
decode_loop m zero r = stuck
decode_loop m (suc fuel) r =
    let again = decode_loop m fuel in
    let read = read_string r in
    let line = trim_right read.text in
    if is_empty line || is_comment line
    then (if read.at_end then err eof else again read.rest)
    else parse_line m read.rest line

pub decode_card : Machine → Bytes → Result (Card × Bytes)
decode_card m r = decode_loop m (suc (length r)) r
