-- ===== src/Xfer/Encode.antt =====
-- internal/xfer/encode.go: `EncodeCard`. It gives the bytes that the source appends to the buffer;
-- writing to a buffer in memory, and compressing into one, does not fail.
pub mod Fields
use libfossil.Base.{
  ℕ, ◌/◌, ◌%◌, ◌^◌, Bool, false, ◌&&◌, ◌||◌, List, [], ◌∷◌, ◌++◌, ◌==◌, if◌then◌else◌, Bytes, codes,
  length, ok, panicked,
}
use libfossil.Base.Int.{ℤ, pos, negsuc}
use libfossil.Text.{format_int}
use libfossil.Deck.Encode.{fossil_encode}
use libfossil.Xfer.Card.{
  Card, file, cfile, igot, gimme, login, push, pull, cookie, clone, clone_seq_no, config,
  req_config, private, uv_file, uv_gimme, uv_igot, pragma, error, message, unknown, schema, xigot,
  xgimme, xrow, xdelete,
}
use libfossil.Xfer.Wire.{Result, Machine}

abbrev pub format_len : Bytes → Bytes
format_len s = format_int (pos (length s))

-- `flags & 2^k != 0` for an int in two's complement.
pub flag_set : ℤ → ℕ → Bool
flag_set (pos n) k = n / 2 ^ k % 2 == 1
flag_set (negsuc n) k = n / 2 ^ k % 2 == 0

pub uv_file_omits_content : ℤ → Bool
unfolding flag_set
uv_file_omits_content flags = flag_set flags 0 || flag_set flags 2

abbrev pub is_empty : Bytes → Bool
is_empty s = length s == 0

abbrev pub is_zero : ℤ → Bool
is_zero (pos n) = n == 0
is_zero (negsuc n) = false

-- ` ` and each of the words, in front of what follows.
unfoldable pub write_words : List Bytes → Bytes → Bytes
write_words [] rest = rest
write_words (w ∷ ws) rest = b' ' ∷ (w ++ write_words ws rest)

-- ` ` and the word, unless it is empty.
unfoldable pub write_optional : Bytes → Bytes → Bytes
write_optional [] rest = rest
write_optional (c ∷ cs) rest = b' ' ∷ (c ∷ cs) ++ rest

-- One function for each card; the cards that can panic give a `Result`.
encode_igot : Bytes → Bool → Bytes
encode_igot uuid is_private =
    codes "igot " ++ (uuid ++ ((if is_private then codes " 1" else []) ++ b'\n' ∷ []))

encode_gimme : Bytes → Bytes
encode_gimme uuid = codes "gimme " ++ (uuid ++ b'\n' ∷ [])

encode_push : Bytes → Bytes → Result Bytes
encode_push server project =
    if is_empty project
    then panicked
    else ok (codes "push " ++ (project ++ write_optional server (b'\n' ∷ [])))

encode_pull : Bytes → Bytes → Result Bytes
encode_pull server project =
    if is_empty project
    then panicked
    else if is_empty server
    then panicked
    else ok (codes "pull " ++ (project ++ b' ' ∷ (server ++ b'\n' ∷ [])))

encode_cookie : Bytes → Bytes
encode_cookie value = codes "cookie " ++ (value ++ b'\n' ∷ [])

encode_req_config : Bytes → Bytes
encode_req_config name = codes "reqconfig " ++ (name ++ b'\n' ∷ [])

encode_private : Bytes
encode_private = codes "private\n"

encode_clone : ℤ → ℤ → Bytes
encode_clone version seq_no =
    if is_zero version && is_zero seq_no
    then codes "clone\n"
    else codes "clone " ++ (format_int version ++ b' ' ∷ (format_int seq_no ++ b'\n' ∷ []))

encode_clone_seq_no : ℤ → Bytes
encode_clone_seq_no seq_no = codes "clone_seqno " ++ (format_int seq_no ++ b'\n' ∷ [])

encode_uv_gimme : Bytes → Bytes
encode_uv_gimme name = codes "uvgimme " ++ (name ++ b'\n' ∷ [])

encode_pragma : Bytes → List Bytes → Bytes
encode_pragma name values = codes "pragma " ++ (name ++ write_words values (b'\n' ∷ []))

encode_login : Bytes → Bytes → Bytes → Bytes
encode_login user nonce signature =
    codes "login " ++ (fossil_encode user ++ b' ' ∷ (nonce ++ b' ' ∷ (signature ++ b'\n' ∷ [])))

unfoldable pub encode_error : Bytes → Bytes
encode_error text = codes "error " ++ (fossil_encode text ++ b'\n' ∷ [])

encode_message : Bytes → Bytes
encode_message text = codes "message " ++ (fossil_encode text ++ b'\n' ∷ [])

encode_uv_igot : Bytes → ℤ → Bytes → ℤ → Bytes
encode_uv_igot name mtime hash size =
    codes "uvigot "
    ++ (name
        ++ b' ' ∷ (format_int mtime ++ b' ' ∷ (hash ++ b' ' ∷ (format_int size ++ b'\n' ∷ []))))

encode_unknown : Bytes → List Bytes → Bytes
encode_unknown command args = command ++ write_words args (b'\n' ∷ [])

encode_file : Bytes → Bytes → Bytes → Bytes
encode_file uuid delta_src content =
    codes "file "
    ++ (uuid ++ write_optional delta_src (b' ' ∷ (format_len content ++ b'\n' ∷ content)))

-- The size that is written is that of the content, whatever `USize` is.
encode_cfile : Machine → Bytes → Bytes → Bytes → Bytes
encode_cfile m uuid delta_src content =
    let zbuf = m.compress content in
    codes "cfile "
    ++ (uuid
        ++ write_optional delta_src
            (b' ' ∷ (format_len content ++ b' ' ∷ (format_len zbuf ++ b'\n' ∷ zbuf))))

encode_config : Bytes → Bytes → Bytes
encode_config name content =
    codes "config " ++ (name ++ b' ' ∷ (format_len content ++ b'\n' ∷ (content ++ b'\n' ∷ [])))

encode_uv_file : Bytes → ℤ → Bytes → ℤ → ℤ → Bytes → Bytes
encode_uv_file name mtime hash size flags content =
    codes "uvfile "
    ++ (name
        ++ b' '
          ∷ (format_int mtime
              ++ b' '
                ∷ (hash
                    ++ b' '
                      ∷ (format_int size
                          ++ b' '
                            ∷ (format_int flags
                                ++ b'\n'
                                  ∷ (if uv_file_omits_content flags then [] else content))))))

encode_schema : Bytes → ℤ → Bytes → ℤ → Bytes → Bytes
encode_schema table version hash mtime content =
    codes "schema "
    ++ (table
        ++ b' '
          ∷ (format_int version
              ++ b' '
                ∷ (hash
                    ++ b' '
                      ∷ (format_int mtime
                          ++ b' ' ∷ (format_len content ++ b'\n' ∷ (content ++ b'\n' ∷ []))))))

-- The two checks that the encoders of the row cards begin with.
with_row_key : Bytes → Bytes → Bytes → Result Bytes
with_row_key table pk_hash text =
    if is_empty table then panicked else if is_empty pk_hash then panicked else ok text

encode_xigot : Bytes → Bytes → ℤ → Result Bytes
encode_xigot table pk_hash mtime =
    with_row_key table pk_hash
      (codes "xigot " ++ (table ++ b' ' ∷ (pk_hash ++ b' ' ∷ (format_int mtime ++ b'\n' ∷ []))))

encode_xgimme : Bytes → Bytes → Result Bytes
encode_xgimme table pk_hash =
    with_row_key table pk_hash (codes "xgimme " ++ (table ++ b' ' ∷ (pk_hash ++ b'\n' ∷ [])))

encode_xrow : Bytes → Bytes → ℤ → Bytes → Result Bytes
encode_xrow table pk_hash mtime content = with_row_key table pk_hash (
    codes "xrow "
    ++ (table
        ++ b' '
          ∷ (pk_hash
              ++ b' '
                ∷ (format_int mtime
                    ++ b' ' ∷ (format_len content ++ b'\n' ∷ (content ++ b'\n' ∷ []))))))

encode_xdelete : Bytes → Bytes → ℤ → Bytes → Result Bytes
encode_xdelete table pk_hash mtime pk_data = with_row_key table pk_hash (
    codes "xdelete "
    ++ (table
        ++ b' '
          ∷ (pk_hash
              ++ b' '
                ∷ (format_int mtime
                    ++ b' ' ∷ (format_len pk_data ++ b'\n' ∷ (pk_data ++ b'\n' ∷ []))))))

unfoldable pub encode_card : Machine → Card → Result Bytes
unfolding encode_igot encode_gimme encode_push encode_pull encode_cookie encode_req_config
    encode_private encode_clone encode_clone_seq_no encode_uv_gimme encode_pragma encode_login
    encode_error encode_message encode_uv_igot encode_unknown encode_file encode_cfile encode_config
    encode_uv_file encode_schema with_row_key encode_xigot encode_xgimme encode_xrow encode_xdelete
encode_card m (igot uuid is_private) = ok (encode_igot uuid is_private)
encode_card m (gimme uuid) = ok (encode_gimme uuid)
encode_card m (push server project) = encode_push server project
encode_card m (pull server project) = encode_pull server project
encode_card m (cookie value) = ok (encode_cookie value)
encode_card m (req_config name) = ok (encode_req_config name)
encode_card m private = ok encode_private
encode_card m (clone version seq_no) = ok (encode_clone version seq_no)
encode_card m (clone_seq_no seq_no) = ok (encode_clone_seq_no seq_no)
encode_card m (uv_gimme name) = ok (encode_uv_gimme name)
encode_card m (pragma name values) = ok (encode_pragma name values)
encode_card m (login user nonce signature) = ok (encode_login user nonce signature)
encode_card m (error text) = ok (encode_error text)
encode_card m (message text) = ok (encode_message text)
encode_card m (uv_igot name mtime hash size) = ok (encode_uv_igot name mtime hash size)
encode_card m (file uuid delta_src content) = ok (encode_file uuid delta_src content)
encode_card m (cfile uuid delta_src usize content) = ok (encode_cfile m uuid delta_src content)
encode_card m (config name content) = ok (encode_config name content)
encode_card m (uv_file name mtime hash size flags content) =
    ok (encode_uv_file name mtime hash size flags content)
encode_card m (schema table version hash mtime content) =
    ok (encode_schema table version hash mtime content)
encode_card m (xigot table pk_hash mtime) = encode_xigot table pk_hash mtime
encode_card m (xgimme table pk_hash) = encode_xgimme table pk_hash
encode_card m (xrow table pk_hash mtime content) = encode_xrow table pk_hash mtime content
encode_card m (xdelete table pk_hash mtime pk_data) = encode_xdelete table pk_hash mtime pk_data
encode_card m (unknown command args) = ok (encode_unknown command args)
