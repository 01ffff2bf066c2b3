-- ===== src/Deck/Encode/RoundTrip.antt =====
-- internal/deck/encode.go: decoding takes back the encoding, and an encoded text fits a line.
use libfossil.Base.{ℕ, ◌≡◌, ◌≢◌, refl, arith, [], ◌∷◌, ◌++◌, append_assoc, Bytes, All, All-append}
use libfossil.Deck.Encode.{encode_byte, fossil_encode, unescape, fossil_decode}

fossil_decode_plain :
    (c : ℕ) (cs : Bytes) → c ≢ b'\\' → fossil_decode (c ∷ cs) ≡ c ∷ fossil_decode cs
unfolding fossil_decode unescape
fossil_decode_plain c [] h = refl
fossil_decode_plain c (d ∷ cs) h = ground arith

fossil_decode-encode_byte :
    (c : ℕ) (cs : Bytes) → fossil_decode (encode_byte c ++ cs) ≡ c ∷ fossil_decode cs
unfolding fossil_decode unescape encode_byte
fossil_decode-encode_byte c cs = ground (arith, fossil_decode_plain c cs)

pub fossil_encode-++ : (s t : Bytes) → fossil_encode (s ++ t) ≡ fossil_encode s ++ fossil_encode t
unfolding fossil_encode
fossil_encode-++ [] t = refl
fossil_encode-++ (c ∷ s) t = rw (fossil_encode-++ s t, append_assoc)

-- Every text is read back from its encoding.
pub fossil_decode-fossil_encode : (s : Bytes) → fossil_decode (fossil_encode s) ≡ s
unfolding fossil_encode
fossil_decode-fossil_encode [] = unfold fossil_decode in refl
fossil_decode-fossil_encode (c ∷ cs) =
    rw (fossil_decode-encode_byte c (fossil_encode cs), fossil_decode-fossil_encode cs)

-- No space and no line break is left in an encoding.
pub fossil_encode_one_line : (s : Bytes) → All (λ c. (c ≢ b' ') × (c ≢ b'\n')) (fossil_encode s)
unfolding fossil_encode encode_byte
fossil_encode_one_line [] = tt
fossil_encode_one_line (c ∷ cs) =
    All-append _ (encode_byte c) (fossil_encode cs) (ground arith) (fossil_encode_one_line cs)
