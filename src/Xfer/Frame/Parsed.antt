-- ===== src/Xfer/Frame/Parsed.antt =====
-- internal/xfer/decode.go: the parser of a command takes the card back from its words and payload.
use libfossil.Base.{
  ℕ, ◌^◌, ◌≡◌, refl, arith, true, false, ◌&&◌, List, [], ◌∷◌, ◌++◌, append_assoc, ◌==◌, leb, le→ltb,
  if◌then◌else◌, Bytes, length, length-append, take_append_length, drop_append_length, ok,
  suc-==-zero, Bool-cases, inl, inr, ◌<◌, ◌≤◌,
}
use libfossil.Base.Int.{ℤ, pos, negsuc}
use libfossil.Text.{format_int, parse_int}
use libfossil.Text.Decimal.{InInt64, parse_int-format_int}
use libfossil.Deck.Encode.RoundTrip.{fossil_decode-fossil_encode}
use libfossil.Xfer.Card.{
  Card, file, cfile, igot, gimme, login, push, pull, cookie, clone, clone_seq_no, config,
  req_config, private, uv_file, uv_gimme, uv_igot, pragma, error, message, unknown, schema, xigot,
  xgimme, xrow, xdelete, card_unknown,
}
use libfossil.Xfer.Wire.{Machine, or_malformed}
use libfossil.Xfer.Encode.{is_zero, uv_file_omits_content, format_len}
use libfossil.Xfer.Args.{
  parse_igot, parse_gimme, parse_push, parse_pull, parse_cookie, parse_req_config, parse_private,
  parse_clone, parse_clone_seq_no, parse_uv_gimme, parse_pragma, parse_login, parse_error,
  parse_message, parse_uv_igot, parse_xigot, parse_xgimme,
}
use libfossil.Xfer.Payload.{
  read_payload, skip_newline, read_payload_with_trailing_newline, decompress_cfile, in_row_bounds,
  read_bounded, same_size, uv_file_content, parse_file, parse_cfile, parse_config, parse_uv_file,
  parse_schema, parse_xrow, parse_xdelete,
}
use libfossil.Xfer.Decode.{command_type, parse_typed}
use libfossil.Xfer.Frame.{IsCarried, IsPayload, IsRow, command_of, args_of, payload_of}

int_ok : (z : ℤ) → InInt64 z → or_malformed (parse_int (format_int z)) ≡ ok z
unfolding or_malformed
int_ok z h = rw (parse_int-format_int z h)

length-eq-zero : (s : Bytes) → (length s == 0) ≡ true → s ≡ []
length-eq-zero [] h = refl
length-eq-zero (c ∷ cs) h = ground arith

leb-true : {a b : ℕ} → a ≤ b → leb a b ≡ true
leb-true h = ground arith

module _ (m : Machine) (s rest : Bytes) where
  -- A payload is read whole, and nothing behind it.
  read_payload-append : IsPayload m s → read_payload m (s ++ rest) (pos (length s)) ≡ ok (s, rest)
  unfolding read_payload
  read_payload-append (h, k) = elim (Bool-cases (length s == 0)) [
    | inl z ↦ rw z (let e : s ≡ [] = length-eq-zero s z in rw e)
    | inr nz ↦ rw (
      nz,
      le→ltb m.max_len (length s) k,
      le→ltb (length (s ++ rest)) (length s) (omega (arith, length-append s rest)),
      take_append_length s rest,
      drop_append_length s rest,
    )
  ]

module _ (m : Machine) (s rest : Bytes) where
  payload_line :
      IsPayload m s
      → read_payload_with_trailing_newline m ((s ++ b'\n' ∷ []) ++ rest) (pos (length s))
        ≡ ok (s, rest)
  unfolding read_payload_with_trailing_newline skip_newline
  payload_line h =
      rw (append_assoc s (b'\n' ∷ []) rest) (rw (read_payload-append m s (b'\n' ∷ rest) h))

  row_payload :
      IsRow m s → read_bounded m ((s ++ b'\n' ∷ []) ++ rest) (pos (length s)) ≡ ok (s, rest)
  unfolding read_bounded in_row_bounds
  row_payload (h, k) = rw (leb-true h) (payload_line k)

decompress_cfile-compress : (m : Machine) (s : Bytes) → decompress_cfile m (m.compress s) ≡ ok s
unfolding decompress_cfile
decompress_cfile-compress m s = rw (m.decompress-compress s, decompress_cfile)

zero_pair : (v n : ℤ) → (is_zero v && is_zero n) ≡ true → (v ≡ pos 0) × (n ≡ pos 0)
zero_pair (pos v) (pos n) h = ground arith
zero_pair (pos v) (negsuc n) h = ground arith
zero_pair (negsuc v) n h = cc

same_size-length : (s : Bytes) → same_size s (pos (length s)) ≡ true
unfolding same_size
same_size-length s = ground arith

-- The content of an unversioned file, there or left out as its flags say.
uv_content :
    (m : Machine) (size flags : ℤ) (content rest : Bytes)
    → (if uv_file_omits_content flags
        then (content ≡ [])
        else ((size ≡ pos (length content)) × IsPayload m content))
    → uv_file_content m ((if uv_file_omits_content flags then [] else content) ++ rest) size flags
      ≡ ok (content, rest)
unfolding uv_file_content
uv_content m size flags content rest c = elim (Bool-cases (uv_file_omits_content flags)) [
  | inl o ↦ rw o (let e : content ≡ [] = rw o at c in rw e)
  | inr k ↦
      let kept : (size ≡ pos (length content)) × IsPayload m content = rw k at c in
      rw (k, kept.0) (read_payload-append m content rest kept.1)
]

-- The parser gives the card and what stands behind it.
abbrev Parses : Machine → Card → Bytes → Type 0
Parses m c rest =
    parse_typed m (payload_of m c ++ rest) (command_of c) (args_of m c)
      (command_type (command_of c))
    ≡ ok (c, rest)

unknown-Parses :
    (m : Machine) (cmd : Bytes) (args : List Bytes) (rest : Bytes)
    → command_type cmd ≡ card_unknown
    → Parses m (unknown cmd args) rest
unfolding parse_typed
unknown-Parses m cmd args rest h = rw h

len_ok :
    (s : Bytes) → length s < 2 ^ 63 → or_malformed (parse_int (format_len s)) ≡ ok (pos (length s))
len_ok s h = int_ok (pos (length s)) h

clone-Parses :
    (m : Machine) (v n : ℤ) (rest : Bytes) → IsCarried m (clone v n) → Parses m (clone v n) rest
unfolding parse_typed command_type parse_clone
clone-Parses m v n rest h = elim (Bool-cases (is_zero v && is_zero n)) [
  | inl z ↦ (let (e, f) = zero_pair v n z in rw (e, f))
  | inr nz ↦ rw nz (rw (int_ok v h.0, int_ok n h.1))
]

file-Parses :
    (m : Machine) (uuid src content rest : Bytes)
    → IsCarried m (file uuid src content)
    → Parses m (file uuid src content) rest
unfolding parse_typed command_type parse_file
file-Parses m uuid [] content rest h =
    rw (len_ok content h.2.0, read_payload-append m content rest h.2)
file-Parses m uuid (c ∷ cs) content rest h =
    rw (len_ok content h.2.0, read_payload-append m content rest h.2)

cfile-Parses :
    (m : Machine) (uuid src : Bytes) (usize : ℤ) (content rest : Bytes)
    → IsCarried m (cfile uuid src usize content)
    → Parses m (cfile uuid src usize content) rest
unfolding parse_typed command_type parse_cfile
cfile-Parses m uuid [] usize content rest h = rw (
  len_ok content h.3,
  len_ok (m.compress content) h.4.0,
  read_payload-append m (m.compress content) rest h.4,
  decompress_cfile-compress m content,
  same_size-length content,
  h.2,
)
cfile-Parses m uuid (c ∷ cs) usize content rest h =
    rw
      (
        len_ok content h.3,
        len_ok (m.compress content) h.4.0,
        read_payload-append m (m.compress content) rest h.4,
        decompress_cfile-compress m content,
        h.2,
      )
      (rw (suc-==-zero (length cs)))

uv_file-Parses :
    (m : Machine) (name : Bytes) (mtime : ℤ) (hash : Bytes) (size flags : ℤ) (content rest : Bytes)
    → IsCarried m (uv_file name mtime hash size flags content)
    → Parses m (uv_file name mtime hash size flags content) rest
unfolding parse_typed command_type parse_uv_file
uv_file-Parses m name mtime hash size flags content rest (n, t, k, s, f, c) =
    rw (int_ok mtime t, int_ok size s, int_ok flags f, uv_content m size flags content rest c)

-- Each card that can be carried is parsed from its words and its payload.
pub parse_typed-args_of : (m : Machine) (c : Card) (rest : Bytes) → IsCarried m c → Parses m c rest
unfolding parse_typed command_type
parse_typed-args_of m (igot uuid true) rest h = unfold parse_igot in refl
parse_typed-args_of m (igot uuid false) rest h = unfold parse_igot in refl
parse_typed-args_of m (gimme uuid) rest h = unfold parse_gimme in refl
parse_typed-args_of m (push [] project) rest h = unfold parse_push in refl
parse_typed-args_of m (push (c ∷ cs) project) rest h = unfold parse_push in refl
parse_typed-args_of m (pull server project) rest h = unfold parse_pull in refl
parse_typed-args_of m (cookie value) rest h = unfold parse_cookie in refl
parse_typed-args_of m (req_config name) rest h = unfold parse_req_config in refl
parse_typed-args_of m private rest h = unfold parse_private in refl
parse_typed-args_of m (clone v n) rest h = clone-Parses m v n rest h
parse_typed-args_of m (clone_seq_no n) rest h = unfold parse_clone_seq_no in rw (int_ok n h)
parse_typed-args_of m (uv_gimme name) rest h = unfold parse_uv_gimme in refl
parse_typed-args_of m (pragma name values) rest h = unfold parse_pragma in refl
parse_typed-args_of m (login user nonce signature) rest h =
    unfold parse_login in rw (fossil_decode-fossil_encode user)
parse_typed-args_of m (error text) rest h =
    unfold parse_error in rw (fossil_decode-fossil_encode text)
parse_typed-args_of m (message text) rest h =
    unfold parse_message in rw (fossil_decode-fossil_encode text)
parse_typed-args_of m (uv_igot name mtime hash size) rest h =
    unfold parse_uv_igot in rw (int_ok mtime h.1, int_ok size h.3)
parse_typed-args_of m (xigot table pk_hash mtime) rest h =
    unfold parse_xigot in rw (int_ok mtime h.2)
parse_typed-args_of m (xgimme table pk_hash) rest h = unfold parse_xgimme in refl
parse_typed-args_of m (unknown cmd args) rest h = unknown-Parses m cmd args rest h.2
parse_typed-args_of m (file uuid src content) rest h = file-Parses m uuid src content rest h
parse_typed-args_of m (cfile uuid src usize content) rest h =
    cfile-Parses m uuid src usize content rest h
parse_typed-args_of m (config name content) rest (n, p) =
    unfold parse_config in rw (len_ok content p.0, payload_line m content rest p)
parse_typed-args_of m (uv_file name mtime hash size flags content) rest h =
    uv_file-Parses m name mtime hash size flags content rest h
parse_typed-args_of m (schema table version hash mtime content) rest (t, v, k, n, p) =
    unfold parse_schema in
    rw (int_ok version v, int_ok mtime n, len_ok content p.1.0, row_payload m content rest p)
parse_typed-args_of m (xrow table pk_hash mtime content) rest (t, k, n, p) =
    unfold parse_xrow in rw (int_ok mtime n, len_ok content p.1.0, row_payload m content rest p)
parse_typed-args_of m (xdelete table pk_hash mtime pk_data) rest (t, k, n, p) =
    unfold parse_xdelete in rw (int_ok mtime n, len_ok pk_data p.1.0, row_payload m pk_data rest p)
