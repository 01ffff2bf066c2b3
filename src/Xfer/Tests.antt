-- ===== src/Xfer/Tests.antt =====
-- The theorems on internal/xfer at concrete cards and messages.
use libfossil.Base.{
  ℕ, ◌^◌, ◌≤◌, ◌%◌, ◌≡◌, ◌==◌, refl, arith, true, Option, none, some, List, [], ◌∷◌, ◌++◌, Bytes,
  codes, length, All, ok, panicked, Ends, if◌then◌else◌,
}
use libfossil.Base.Int.{negsuc}
use libfossil.Deck.Encode.{fossil_encode, encode_byte}
use libfossil.Text.{format_int, format_nat, decimal_digits, is_space, starts_wide_space}
use libfossil.Text.Words.{IsWord, spaced}
use libfossil.Xfer.Card.{Card, file, igot}
use libfossil.Xfer.Wire.{Machine}
use libfossil.Xfer.Encode.{encode_card}
use libfossil.Xfer.Decode.{decode_card}
use libfossil.Xfer.Decode.Refused.{decode_card-negative_size}
use libfossil.Xfer.Frame.{IsCarried, framed}
use libfossil.Xfer.Frame.Written.{encode_card-framed}
use libfossil.Xfer.Message.{encode_uncompressed, encode, decode, max_decompressed_bytes}
use libfossil.Xfer.Message.Ends.{decode-Ends}
use libfossil.Xfer.Message.RoundTrip.{decode_card-encode_card, decode-encode}

-- A stream is the header byte of zlib and then the text as it is.
unfoldable stored : Bytes → Bytes
stored s = 0x78 ∷ s

unfoldable unstored : Bytes → Option Bytes
unstored [] = none
unstored (c ∷ s) = if c == 0x78 then some s else none

unstored-stored : (s : Bytes) → unstored (stored s) ≡ some s
unfolding stored unstored
unstored-stored s = refl

unstored_method : (c : ℕ) (s t : Bytes) → unstored (c ∷ s) ≡ some t → c % 16 ≡ 8
unfolding unstored
unstored_method c s t h = ground arith

abbrev machine : Machine
machine = record {
  compress = stored;
  decompress = unstored;
  max_len = 2 ^ 47;
  decompress-compress = unstored-stored;
  method_8 = unstored_method;
}

abbrev a_file : Card
a_file = file (codes "a1b2") (codes "c3") (codes "hello\n")

words-IsWord : (IsWord (codes "a1b2") × IsWord (codes "c3")) × IsWord (codes "two")
unfolding is_space starts_wide_space
words-IsWord = ground arith

a_file-IsCarried : IsCarried machine a_file
a_file-IsCarried = (words-IsWord.0.0, words-IsWord.0.1, (omega arith, omega arith))

abbrev two_cards : List Card
two_cards = a_file ∷ igot (codes "c3") true ∷ []

two_cards-IsCarried : All (IsCarried machine) two_cards
two_cards-IsCarried = (a_file-IsCarried, (words-IsWord.0.1, tt))

decode_card-encode_card_example :
    (text : Bytes) × (encode_card machine a_file ≡ ok text)
    × (decode_card machine (text ++ codes "igot c3\n") ≡ ok (a_file, codes "igot c3\n"))
decode_card-encode_card_example =
    decode_card-encode_card machine a_file (codes "igot c3\n") a_file-IsCarried

abbrev two_cards_text : Bytes
two_cards_text = framed machine a_file ++ (framed machine (igot (codes "c3") true) ++ [])

encode_two_cards : encode_uncompressed machine two_cards ≡ ok two_cards_text
unfolding encode_uncompressed
encode_two_cards = rw (
  encode_card-framed machine a_file a_file-IsCarried,
  encode_card-framed machine (igot (codes "c3") true) words-IsWord.0.1,
)

length_two_cards : length two_cards_text ≤ max_decompressed_bytes
unfolding format_int format_nat decimal_digits
length_two_cards = omega arith

two_cards_fit :
    (raw : Bytes)
    → encode_uncompressed machine two_cards ≡ ok raw
    → length raw ≤ max_decompressed_bytes
two_cards_fit raw h =
    let same : two_cards_text ≡ raw = grind (arith, encode_two_cards) in
    rw (← same) length_two_cards

decode-encode_example :
    (text : Bytes) × (encode machine two_cards ≡ ok text) × (decode machine text ≡ ok two_cards)
decode-encode_example = decode-encode machine two_cards two_cards-IsCarried two_cards_fit

decode-Ends_example : Ends (λ _. Unit {0}) (decode machine (codes "file u -1\n"))
decode-Ends_example = decode-Ends machine (codes "file u -1\n")

decode_card-negative_size_example :
    decode_card machine
      ((codes "file" ++ spaced (codes "a1b2" ∷ format_int (negsuc 0) ∷ [])) ++ b'\n' ∷ codes "x")
    ≡ panicked
decode_card-negative_size_example =
    decode_card-negative_size machine (codes "a1b2") (codes "x") 0 words-IsWord.0.0 (omega arith)

abbrev row_words : List Bytes
row_words = codes "t" ∷ codes "h" ∷ codes "1" ∷ codes "-1" ∷ []

plain_words : IsWord (fossil_encode (codes "a1b2")) × IsWord (fossil_encode (codes "c3"))
unfolding fossil_encode encode_byte
plain_words = words-IsWord.0
