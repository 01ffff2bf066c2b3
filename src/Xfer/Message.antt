-- ===== src/Xfer/Message.antt =====
-- internal/xfer/message.go: a message is a list of cards.
pub mod RoundTrip
pub mod Ends
use libfossil.Base.{
  ℕ, zero, suc, ◌+◌, ◌*◌, ◌/◌, ◌%◌, ◌^◌, Bool, true, false, Option, none, some, List, [], ◌∷◌, ◌++◌,
  ltb, ◌==◌, if◌then◌else◌, Bytes, length, drop, ok, err, panicked, stuck, ◌>>=◌,
}
use libfossil.Xfer.Card.{Card}
use libfossil.Xfer.Wire.{Error, eof, malformed, Result, Machine}
use libfossil.Xfer.Encode.{encode_card}
use libfossil.Xfer.Decode.{decode_card}

-- `maxDecompressedBytes`.
abbrev pub max_decompressed_bytes : ℕ
max_decompressed_bytes = 50 * 1024 * 1024

-- The loop appends each card's bytes to the buffer.
unfoldable pub encode_uncompressed : Machine → List Card → Result Bytes
encode_uncompressed m [] = ok []
encode_uncompressed m (c ∷ cs) = do
  text ← encode_card m c
  rest ← encode_uncompressed m cs
  ok (text ++ rest)

-- `binary.BigEndian.PutUint32` of a uint32.
unfoldable pub put_uint32 : ℕ → Bytes
put_uint32 n = n / 2 ^ 24 % 256 ∷ n / 2 ^ 16 % 256 ∷ n / 2 ^ 8 % 256 ∷ n % 256 ∷ []

pub encode : Machine → List Card → Result Bytes
encode m cards = do
  raw ← encode_uncompressed m cards
  ok (put_uint32 (length raw % 2 ^ 32) ++ m.compress raw)

-- `io.EOF` of `DecodeCard` ends the message, any other error ends the call.
pub decode_cards : Machine → ℕ → Bytes → List Card → Result (List Card)
decode_cards m zero r cards = stuck
decode_cards m (suc fuel) r cards =
    let again = decode_cards m fuel in
    elim (decode_card m r) [
      | ok (card, r1) ↦ again r1 (cards ++ card ∷ [])
      | err eof ↦ ok cards
      | err malformed ↦ err malformed
      | panicked ↦ panicked
      | stuck ↦ stuck
    ]

-- A card takes a byte at least.
pub decode_uncompressed : Machine → Bytes → Result (List Card)
decode_uncompressed m text = decode_cards m (suc (length text)) text []

-- A stream that is longer, or that cannot be read, is an error.
pub decompress_bounded : Machine → Bytes → Option Bytes
decompress_bounded m text = elim (m.decompress text) [
  | none ↦ none
  | some raw ↦ if ltb max_decompressed_bytes (length raw) then none else some raw
]

-- Behind the first attempt: with the prefix of four bytes dropped, and as it stands.
pub decode_prefixed : Machine → Bytes → Result (List Card)
decode_prefixed m text =
    if ltb (length text) 4
    then decode_uncompressed m text
    else elim (decompress_bounded m (drop 4 text)) [
      | some raw ↦ decode_uncompressed m raw
      | none ↦ decode_uncompressed m text
    ]

pub decode : Machine → Bytes → Result (List Card)
decode m text = if length text == 0 then ok [] else elim (decompress_bounded m text) [
  | some raw ↦ decode_uncompressed m raw
  | none ↦ decode_prefixed m text
]
