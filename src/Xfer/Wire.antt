-- ===== src/Xfer/Wire.antt =====
-- internal/xfer: the results of its functions, and what they take from Go's library.
use libfossil.Base.{ℕ, ◌%◌, ◌≡◌, Option, none, some, ◌∷◌, Bytes, Outcome, ok, err}

-- The errors of the package, without their texts; `eof` is `io.EOF`.
pub data Error : Type 0 where
  eof malformed : Error

abbrev pub Result {ℓ} : Type ℓ → Type ℓ
Result A = Outcome Error A

unfoldable pub or_malformed {ℓ} : {A : Type ℓ} → Option A → Result A
or_malformed none = err malformed
or_malformed (some a) = ok a

-- compress/zlib, as the package uses it: what a writer leaves behind once it is closed, and what a
-- reader gives up to the end of the stream, if it does so with no error. Reading takes back what was
-- written, and a stream that can be read begins with a byte whose low four bits name the method 8,
-- deflate (RFC 1950). `max_len` is the longest byte slice that `make` allocates; beyond it, it panics.
pub record Machine : Type 0 where
  pub compress : Bytes → Bytes
  pub decompress : Bytes → Option Bytes
  pub max_len : ℕ
  pub decompress-compress : (s : Bytes) → decompress (compress s) ≡ some s
  pub method_8 : (c : ℕ) (s t : Bytes) → decompress (c ∷ s) ≡ some t → c % 16 ≡ 8
