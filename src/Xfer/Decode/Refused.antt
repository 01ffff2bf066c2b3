-- ===== src/Xfer/Decode/Refused.antt =====
-- internal/xfer/decode.go and internal/deck/encode.go: cards that cannot be read.
use libfossil.Base.{
  ℕ, ◌^◌, ◌<◌, ◌≤◌, ◌≡◌, refl, ◌∙◌, arith, List, [], ◌∷◌, ◌++◌, append_assoc, suc-==-zero, Bytes,
  codes, All, All-append, ok, err, panicked, Returns,
}
use libfossil.Base.Int.{ℤ, pos, negsuc}
use libfossil.Deck.Encode.{fossil_encode, encode_byte}
use libfossil.Deck.Encode.RoundTrip.{fossil_encode-++}
use libfossil.Text.{format_int, is_space, starts_wide_space}
use libfossil.Text.Decimal.{parse_int-format_int}
use libfossil.Text.Words.{IsWord, NotBreak, word-NotBreak, spaced, fields-tab}
use libfossil.Xfer.Card.{error}
use libfossil.Xfer.Wire.{Machine, or_malformed, malformed}
use libfossil.Xfer.Args.{parse_error}
use libfossil.Xfer.Encode.{encode_card, encode_error}
use libfossil.Xfer.Payload.{
  read_payload, read_bounded, in_row_bounds, max_row_size, read_payload_with_trailing_newline,
  parse_file, parse_schema, parse_xrow, parse_xdelete,
}
use libfossil.Text.Printed.{format_int-IsWord}
use libfossil.Xfer.Decode.{
  parse_typed, parse_line, parse_fields, is_comment, command_type, decode_card,
}
use libfossil.Xfer.Decode.Lines.{decode_card-spaced, decode_card_line}

file-IsWord : IsWord (codes "file")
unfolding is_space starts_wide_space
file-IsWord = ground arith

error-IsWord : IsWord (codes "error")
unfolding is_space starts_wide_space
error-IsWord = ground arith

-- Reading a `file` card whose size is a negative int64 panics, whatever its UUID and whatever follows
-- the line.
pub decode_card-negative_size :
    (m : Machine) (uuid r : Bytes) (n : ℕ)
    → IsWord uuid
    → n < 2 ^ 63
    → decode_card m ((codes "file" ++ spaced (uuid ∷ format_int (negsuc n) ∷ [])) ++ b'\n' ∷ r)
      ≡ panicked
unfolding parse_typed parse_file or_malformed read_payload command_type is_comment
decode_card-negative_size m uuid r n w h =
    decode_card-spaced m (codes "file") (uuid ∷ format_int (negsuc n) ∷ []) r file-IsWord refl
      (w, (format_int-IsWord (negsuc n), tt))
    ∙ rw (parse_int-format_int (negsuc n) h) refl

read_bounded-Returns :
    (m : Machine) (r : Bytes) (n : ℤ)
    → max_row_size ≤ m.max_len
    → Returns (λ _. Unit {0}) (read_bounded m r n)
unfolding read_bounded in_row_bounds read_payload_with_trailing_newline read_payload
read_bounded-Returns m r (negsuc n) h = tt
read_bounded-Returns m r (pos n) h = ground arith

-- The cards of the table sync check their size: where a slice of the largest size can be allocated,
-- the parsers of `schema`, `xrow` and `xdelete` return, with no panic, on any words and any input.
pub rows-Returns :
    (m : Machine) (r : Bytes) (args : List Bytes)
    → max_row_size ≤ m.max_len
    → Returns (λ _. Unit {0}) (parse_schema m r args)
      × Returns (λ _. Unit {0}) (parse_xrow m r args)
      × Returns (λ _. Unit {0}) (parse_xdelete m r args)
unfolding parse_schema parse_xrow parse_xdelete or_malformed
rows-Returns m r args h = (
  grind (arith, read_bounded-Returns),
  grind (arith, read_bounded-Returns),
  grind (arith, read_bounded-Returns),
)

abbrev tabbed : Bytes → Bytes → Bytes
tabbed a b = codes "error " ++ (fossil_encode a ++ b'\t' ∷ fossil_encode b)

tabbed-NotBreak :
    (a b : Bytes) → IsWord (fossil_encode a) → IsWord (fossil_encode b) → All NotBreak (tabbed a b)
tabbed-NotBreak a b ha hb =
    All-append NotBreak (codes "error ") (fossil_encode a ++ b'\t' ∷ fossil_encode b) (ground arith)
      (All-append NotBreak (fossil_encode a) (b'\t' ∷ fossil_encode b) (word-NotBreak _ ha.1)
        (ground arith, word-NotBreak _ hb.1))

-- An error card whose message has a tab between two texts that are words once encoded is written, and
-- it is malformed when it is read.
pub encode_card-tab :
    (m : Machine) (a b r : Bytes)
    → IsWord (fossil_encode a)
    → IsWord (fossil_encode b)
    → (text : Bytes) × (encode_card m (error (a ++ b'\t' ∷ b)) ≡ ok text)
      × (decode_card m (text ++ r) ≡ err malformed)
unfolding encode_card encode_error fossil_encode encode_byte parse_line parse_fields parse_typed
    parse_error command_type is_comment
encode_card-tab m a b r ha hb = (
  tabbed a b ++ b'\n' ∷ [],
  rw (fossil_encode-++ a (b'\t' ∷ b), append_assoc, append_assoc) refl,
  rw append_assoc (
      decode_card_line m (tabbed a b) r (tabbed-NotBreak a b ha hb) (suc-==-zero _) refl
      ∙ rw (fields-tab (codes "error") (fossil_encode a) (fossil_encode b) error-IsWord ha hb)),
)
