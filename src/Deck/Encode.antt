-- ===== src/Deck/Encode.antt =====
-- internal/deck/encode.go: `FossilEncode` and `FossilDecode`.
pub mod RoundTrip
use libfossil.Base.{
  ℕ, Bool, true, false, Option, none, some, [], ◌∷◌, ◌++◌, ◌==◌, if◌then◌else◌, Bytes,
}

-- What `FossilEncode` writes for one byte.
unfoldable pub encode_byte : ℕ → Bytes
encode_byte c =
    if c == b' '
    then b'\\' ∷ b's' ∷ []
    else if c == b'\n'
    then b'\\' ∷ b'n' ∷ []
    else if c == b'\\'
    then b'\\' ∷ b'\\' ∷ []
    else c ∷ []

unfoldable pub fossil_encode : Bytes → Bytes
fossil_encode [] = []
fossil_encode (c ∷ cs) = encode_byte c ++ fossil_encode cs

-- The byte that an escape of two bytes stands for; `none` if the two are no escape.
pub unescape : ℕ → ℕ → Option ℕ
unescape c d =
    if c == b'\\'
    then (if d == b's'
        then some b' '
        else if d == b'n'
        then some b'\n'
        else if d == b'\\'
        then some b'\\'
        else none)
    else none

pub fossil_decode : Bytes → Bytes
fossil_decode [] = []
fossil_decode (c ∷ []) = c ∷ []
fossil_decode (c ∷ d ∷ cs) = elim (unescape c d) [
  | none ↦ c ∷ fossil_decode (d ∷ cs)
  | some e ↦ e ∷ fossil_decode cs
]
