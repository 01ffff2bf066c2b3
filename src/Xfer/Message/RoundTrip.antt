-- ===== src/Xfer/Message/RoundTrip.antt =====
-- internal/xfer: a card, a list of cards and a message are read back from what is written for them.
use libfossil.Base.{
  ℕ, zero, suc, ◌/◌, ◌%◌, ◌^◌, ◌<◌, ◌≤◌, ◌≡◌, refl, ap, ◌∙◌, arith, false, none, some, List, [],
  ◌∷◌, ◌++◌, append_assoc, append-nil, ltb, le→ltb, ◌==◌, Bytes, length, length-append, All, drop,
  ok, inl, inr, Option-cases,
}
use libfossil.Xfer.Card.{Card}
use libfossil.Xfer.Wire.{Machine}
use libfossil.Xfer.Encode.{encode_card}
use libfossil.Xfer.Decode.{decode_card}
use libfossil.Xfer.Decode.Lines.{decode_card-spaced, decode_card-nil}
use libfossil.Xfer.Frame.{IsCarried, framed, command_of, args_of, payload_of}
use libfossil.Xfer.Frame.Written.{encode_card-framed}
use libfossil.Xfer.Frame.Words.{args_of-IsWord, command_of-IsWord}
use libfossil.Xfer.Frame.Parsed.{parse_typed-args_of}
use libfossil.Xfer.Message.{
  max_decompressed_bytes, encode_uncompressed, put_uint32, encode, decode_cards,
  decode_uncompressed, decompress_bounded, decode_prefixed, decode,
}

decode_card-framed :
    (m : Machine) (c : Card) (rest : Bytes)
    → IsCarried m c
    → decode_card m (framed m c ++ rest) ≡ ok (c, rest)
decode_card-framed m c rest h =
    let (w, k) = command_of-IsWord m c h in
    rw append_assoc (
      decode_card-spaced m (command_of c) (args_of m c) (payload_of m c ++ rest) w k
        (args_of-IsWord m c h)
      ∙ parse_typed-args_of m c rest h)

-- `DecodeCard` reads back every card that the wire format can carry from what `EncodeCard` writes for
-- it, and leaves whatever follows.
pub decode_card-encode_card :
    (m : Machine) (c : Card) (rest : Bytes)
    → IsCarried m c
    → (text : Bytes) × (encode_card m c ≡ ok text) × (decode_card m (text ++ rest) ≡ ok (c, rest))
decode_card-encode_card m c rest h =
    (framed m c, encode_card-framed m c h, decode_card-framed m c rest h)

abbrev framed_all : Machine → List Card → Bytes
framed_all m [] = []
framed_all m (c ∷ cs) = framed m c ++ framed_all m cs

encode_uncompressed-framed_all :
    (m : Machine) (cs : List Card)
    → All (IsCarried m) cs
    → encode_uncompressed m cs ≡ ok (framed_all m cs)
unfolding encode_uncompressed
encode_uncompressed-framed_all m [] h = refl
encode_uncompressed-framed_all m (c ∷ cs) (hc, h) =
    rw (encode_card-framed m c hc, encode_uncompressed-framed_all m cs h)

length-framed : (m : Machine) (c : Card) → 0 < length (framed m c)
length-framed m c = rw length-append (omega arith)

decode_cards-framed_all :
    (m : Machine) (cs : List Card) (fuel : ℕ) (cards : List Card)
    → All (IsCarried m) cs
    → length (framed_all m cs) < fuel
    → decode_cards m fuel (framed_all m cs) cards ≡ ok (cards ++ cs)
unfolding decode_cards
decode_cards-framed_all m cs zero cards h f = absurd (omega arith)
decode_cards-framed_all m [] (suc fuel) cards h f = rw (decode_card-nil m, decode_cards, append-nil)
decode_cards-framed_all m (c ∷ cs) (suc fuel) cards (hc, h) f =
    rw (decode_card-framed m c (framed_all m cs) hc, decode_cards)
      (decode_cards-framed_all m cs fuel (cards ++ c ∷ []) h
          (omega (arith, length-framed m c, length-append (framed m c) (framed_all m cs)))
        ∙ ap ok (append_assoc cards (c ∷ []) cs))

-- `DecodeUncompressed` reads back every list of cards that can be carried.
pub decode_uncompressed-encode_uncompressed :
    (m : Machine) (cs : List Card)
    → All (IsCarried m) cs
    → (raw : Bytes) × (encode_uncompressed m cs ≡ ok raw) × (decode_uncompressed m raw ≡ ok cs)
unfolding decode_uncompressed
decode_uncompressed-encode_uncompressed m cs h = (
  framed_all m cs,
  encode_uncompressed-framed_all m cs h,
  decode_cards-framed_all m cs (suc (length (framed_all m cs))) [] h (omega arith),
)

-- The size prefix of a text within the bound does not begin a zlib stream.
decompress_prefixed :
    (m : Machine) (n : ℕ) (s : Bytes)
    → n ≤ max_decompressed_bytes
    → decompress_bounded m (put_uint32 (n % 2 ^ 32) ++ s) ≡ none
unfolding decompress_bounded put_uint32
decompress_prefixed m n s h = elim (Option-cases (m.decompress (put_uint32 (n % 2 ^ 32) ++ s))) [
  | inl e ↦ rw (e, decompress_bounded)
  | inr (t, e) ↦ absurd (omega (arith, m.method_8 (n % 2 ^ 32 / 2 ^ 24 % 256) _ t e))
]

decompress_bounded-compress :
    (m : Machine) (s : Bytes)
    → length s ≤ max_decompressed_bytes
    → decompress_bounded m (m.compress s) ≡ some s
unfolding decompress_bounded
decompress_bounded-compress m s h =
    rw (m.decompress-compress s, decompress_bounded)
      (rw (le→ltb max_decompressed_bytes (length s) h))

no_bytes :
    (n : ℕ) (s : Bytes)
    → ((length (put_uint32 n ++ s) == 0) ≡ false)
      × (ltb (length (put_uint32 n ++ s)) 4 ≡ false)
      × (drop 4 (put_uint32 n ++ s) ≡ s)
unfolding put_uint32
no_bytes n s = (ground arith, ground arith, refl)

decode-put_uint32 :
    (m : Machine) (raw : Bytes) (cs : List Card)
    → length raw ≤ max_decompressed_bytes
    → decode_uncompressed m raw ≡ ok cs
    → decode m (put_uint32 (length raw % 2 ^ 32) ++ m.compress raw) ≡ ok cs
unfolding decode decode_prefixed
decode-put_uint32 m raw cs l e =
    let (a, b, c) = no_bytes (length raw % 2 ^ 32) (m.compress raw) in
    rw (a, decompress_prefixed m (length raw) (m.compress raw) l, decode)
      (rw (b, c, decompress_bounded-compress m raw l, decode_prefixed) e)

-- `Decode` reads back every message whose cards can be carried, and whose text is within the bound on
-- what is decompressed, from what `Encode` gives.
pub decode-encode :
    (m : Machine) (cs : List Card)
    → All (IsCarried m) cs
    → ((raw : Bytes) → encode_uncompressed m cs ≡ ok raw → length raw ≤ max_decompressed_bytes)
    → (text : Bytes) × (encode m cs ≡ ok text) × (decode m text ≡ ok cs)
unfolding encode
decode-encode m cs h fits =
    let (raw, e, d) = decode_uncompressed-encode_uncompressed m cs h in
    (
      put_uint32 (length raw % 2 ^ 32) ++ m.compress raw,
      rw e,
      decode-put_uint32 m raw cs (fits raw e) d,
    )
