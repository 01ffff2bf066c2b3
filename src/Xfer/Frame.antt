-- ===== src/Xfer/Frame.antt =====
-- The wire format of internal/xfer as data: each card is a command word, argument words, and a
-- payload behind the line. Which cards the format can carry, and that `EncodeCard` writes this form.
pub mod Written
pub mod Words
pub mod Parsed
use libfossil.Base.{
  ℕ, zero, suc, ◌+◌, ◌^◌, ◌≤◌, ◌<◌, ◌≡◌, ◌≢◌, ◌⊎◌, inl, inr, refl, sym, ◌∙◌, ap, arith, Bool, true,
  false, ◌&&◌, ◌||◌, List, [], ◌∷◌, ◌++◌, append-nil, append_assoc, ◌==◌, if◌then◌else◌, Bytes,
  codes, length, All, All-append, ok, panicked, Bool-cases,
}
use libfossil.Base.Int.{ℤ, pos, negsuc}
use libfossil.Text.{format_int}
use libfossil.Text.Decimal.{InInt64}
use libfossil.Text.Words.{IsWord, spaced}
use libfossil.Deck.Encode.{fossil_encode}
use libfossil.Xfer.Card.{
  Card, file, cfile, igot, gimme, login, push, pull, cookie, clone, clone_seq_no, config,
  req_config, private, uv_file, uv_gimme, uv_igot, pragma, error, message, unknown, schema, xigot,
  xgimme, xrow, xdelete, card_unknown,
}
use libfossil.Xfer.Wire.{Result, Machine}
use libfossil.Xfer.Encode.{
  format_len, uv_file_omits_content, is_empty, is_zero, write_words, write_optional, encode_card,
}
use libfossil.Xfer.Payload.{max_row_size}
use libfossil.Xfer.Decode.{command_type, is_comment}

abbrev pub command_of : Card → Bytes
command_of (file _ _ _) = codes "file"
command_of (cfile _ _ _ _) = codes "cfile"
command_of (igot _ _) = codes "igot"
command_of (gimme _) = codes "gimme"
command_of (login _ _ _) = codes "login"
command_of (push _ _) = codes "push"
command_of (pull _ _) = codes "pull"
command_of (cookie _) = codes "cookie"
command_of (clone _ _) = codes "clone"
command_of (clone_seq_no _) = codes "clone_seqno"
command_of (config _ _) = codes "config"
command_of (req_config _) = codes "reqconfig"
command_of private = codes "private"
command_of (uv_file _ _ _ _ _ _) = codes "uvfile"
command_of (uv_gimme _) = codes "uvgimme"
command_of (uv_igot _ _ _ _) = codes "uvigot"
command_of (pragma _ _) = codes "pragma"
command_of (error _) = codes "error"
command_of (message _) = codes "message"
command_of (unknown cmd _) = cmd
command_of (schema _ _ _ _ _) = codes "schema"
command_of (xigot _ _ _) = codes "xigot"
command_of (xgimme _ _) = codes "xgimme"
command_of (xrow _ _ _ _) = codes "xrow"
command_of (xdelete _ _ _ _) = codes "xdelete"

abbrev pub optional : Bytes → List Bytes → List Bytes
optional [] ws = ws
optional (c ∷ cs) ws = (c ∷ cs) ∷ ws

abbrev pub args_of : Machine → Card → List Bytes
args_of m (file uuid src content) = uuid ∷ optional src (format_len content ∷ [])
args_of m (cfile uuid src _ content) =
    uuid ∷ optional src (format_len content ∷ format_len (m.compress content) ∷ [])
args_of m (igot uuid is_private) = uuid ∷ (if is_private then codes "1" ∷ [] else [])
args_of m (gimme uuid) = uuid ∷ []
args_of m (login user nonce signature) = fossil_encode user ∷ nonce ∷ signature ∷ []
args_of m (push server project) = project ∷ optional server []
args_of m (pull server project) = project ∷ server ∷ []
args_of m (cookie value) = value ∷ []
args_of m (clone version seq_no) =
    if is_zero version && is_zero seq_no then [] else format_int version ∷ format_int seq_no ∷ []
args_of m (clone_seq_no seq_no) = format_int seq_no ∷ []
args_of m (config name content) = name ∷ format_len content ∷ []
args_of m (req_config name) = name ∷ []
args_of m private = []
args_of m (uv_file name mtime hash size flags _) =
    name ∷ format_int mtime ∷ hash ∷ format_int size ∷ format_int flags ∷ []
args_of m (uv_gimme name) = name ∷ []
args_of m (uv_igot name mtime hash size) = name ∷ format_int mtime ∷ hash ∷ format_int size ∷ []
args_of m (pragma name values) = name ∷ values
args_of m (error text) = fossil_encode text ∷ []
args_of m (message text) = fossil_encode text ∷ []
args_of m (unknown _ args) = args
args_of m (schema table version hash mtime content) =
    table ∷ format_int version ∷ hash ∷ format_int mtime ∷ format_len content ∷ []
args_of m (xigot table pk_hash mtime) = table ∷ pk_hash ∷ format_int mtime ∷ []
args_of m (xgimme table pk_hash) = table ∷ pk_hash ∷ []
args_of m (xrow table pk_hash mtime content) =
    table ∷ pk_hash ∷ format_int mtime ∷ format_len content ∷ []
args_of m (xdelete table pk_hash mtime pk_data) =
    table ∷ pk_hash ∷ format_int mtime ∷ format_len pk_data ∷ []

abbrev pub payload_of : Machine → Card → Bytes
payload_of m (file _ _ content) = content
payload_of m (cfile _ _ _ content) = m.compress content
payload_of m (config _ content) = content ++ b'\n' ∷ []
payload_of m (uv_file _ _ _ _ flags content) = if uv_file_omits_content flags then [] else content
payload_of m (schema _ _ _ _ content) = content ++ b'\n' ∷ []
payload_of m (xrow _ _ _ content) = content ++ b'\n' ∷ []
payload_of m (xdelete _ _ _ pk_data) = pk_data ++ b'\n' ∷ []
payload_of m _ = []

-- An empty string, or a word.
abbrev pub IsOptional : Bytes → Type 0
IsOptional [] = Unit {0}
IsOptional (c ∷ cs) = IsWord (c ∷ cs)

-- A payload that can be allocated when it is read.
abbrev pub IsPayload : Machine → Bytes → Type 0
IsPayload m s = (length s < 2 ^ 63) × (length s ≤ m.max_len)

abbrev pub IsRow : Machine → Bytes → Type 0
IsRow m s = (length s ≤ max_row_size) × IsPayload m s

-- The cards that the wire format can carry.
abbrev pub IsCarried : Machine → Card → Type 0
IsCarried m (file uuid src content) = IsWord uuid × IsOptional src × IsPayload m content
IsCarried m (cfile uuid src usize content) =
    IsWord uuid
    × IsOptional src
    × (usize ≡ pos (length content))
    × (length content < 2 ^ 63)
    × IsPayload m (m.compress content)
IsCarried m (igot uuid _) = IsWord uuid
IsCarried m (gimme uuid) = IsWord uuid
IsCarried m (login user nonce signature) =
    IsWord (fossil_encode user) × IsWord nonce × IsWord signature
IsCarried m (push server project) = IsOptional server × IsWord project
IsCarried m (pull server project) = IsWord server × IsWord project
IsCarried m (cookie value) = IsWord value
IsCarried m (clone version seq_no) = InInt64 version × InInt64 seq_no
IsCarried m (clone_seq_no seq_no) = InInt64 seq_no
IsCarried m (config name content) = IsWord name × IsPayload m content
IsCarried m (req_config name) = IsWord name
IsCarried m private = Unit
IsCarried m (uv_file name mtime hash size flags content) =
    IsWord name
    × InInt64 mtime
    × IsWord hash
    × InInt64 size
    × InInt64 flags
    × (if uv_file_omits_content flags
        then (content ≡ [])
        else ((size ≡ pos (length content)) × IsPayload m content))
IsCarried m (uv_gimme name) = IsWord name
IsCarried m (uv_igot name mtime hash size) =
    IsWord name × InInt64 mtime × IsWord hash × InInt64 size
IsCarried m (pragma name values) = IsWord name × All IsWord values
IsCarried m (error text) = IsWord (fossil_encode text)
IsCarried m (message text) = IsWord (fossil_encode text)
IsCarried m (unknown cmd args) =
    IsWord cmd × All IsWord args × (command_type cmd ≡ card_unknown) × (is_comment cmd ≡ false)
IsCarried m (schema table version hash mtime content) =
    IsWord table × InInt64 version × IsWord hash × InInt64 mtime × IsRow m content
IsCarried m (xigot table pk_hash mtime) = IsWord table × IsWord pk_hash × InInt64 mtime
IsCarried m (xgimme table pk_hash) = IsWord table × IsWord pk_hash
IsCarried m (xrow table pk_hash mtime content) =
    IsWord table × IsWord pk_hash × InInt64 mtime × IsRow m content
IsCarried m (xdelete table pk_hash mtime pk_data) =
    IsWord table × IsWord pk_hash × InInt64 mtime × IsRow m pk_data

-- The whole of a card on the wire.
abbrev pub framed : Machine → Card → Bytes
framed m c = (command_of c ++ spaced (args_of m c)) ++ b'\n' ∷ payload_of m c
