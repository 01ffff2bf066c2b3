-- ===== src/Xfer/Payload/Shrinks.antt =====
-- internal/xfer/decode.go: the parsers of the cards with a payload come to an end, and do not put back
-- what they read.
use libfossil.Base.{
  ℕ, ◌≤◌, arith, Option, none, some, List, [], ◌∷◌, Bytes, length, length-drop, Ends, Ends->>=,
}
use libfossil.Base.Int.{ℤ, pos, negsuc}
use libfossil.Xfer.Wire.{Machine, or_malformed}
use libfossil.Xfer.Payload.{
  read_payload, skip_newline, read_payload_with_trailing_newline, read_bounded, decompress_cfile,
  parse_file, parse_cfile, parse_config, parse_uv_file, parse_schema, parse_xrow, parse_xdelete,
  uv_file_content,
}

-- The rest is no longer than what there was to read.
abbrev pub Shrinks {ℓ} : {A : Type ℓ} → ℕ → A × Bytes → Type 0
Shrinks n p = length p.1 ≤ n

or_malformed-Ends : (o : Option ℤ) → Ends (λ _. Unit {0}) (or_malformed o)
unfolding or_malformed
or_malformed-Ends none = tt
or_malformed-Ends (some z) = tt

read_payload-Ends :
    (m : Machine) (r : Bytes) (n : ℤ) → Ends (Shrinks (length r)) (read_payload m r n)
unfolding read_payload
read_payload-Ends m r (negsuc _) = tt
read_payload-Ends m r (pos n) = ground (arith, length-drop n r)

skip_newline-le : (r : Bytes) → length (skip_newline r) ≤ length r
unfolding skip_newline
skip_newline-le [] = omega arith
skip_newline-le (c ∷ r) = ground arith

with_newline-Ends :
    (m : Machine) (r : Bytes) (n : ℤ)
    → Ends (Shrinks (length r)) (read_payload_with_trailing_newline m r n)
unfolding read_payload_with_trailing_newline
with_newline-Ends m r n =
    Ends->>= _ _ (read_payload m r n) _ (read_payload-Ends m r n)
      λ p h. omega (arith, skip_newline-le p.1)

read_bounded-Ends :
    (m : Machine) (r : Bytes) (n : ℤ) → Ends (Shrinks (length r)) (read_bounded m r n)
unfolding read_bounded
read_bounded-Ends m r n = ground (arith, with_newline-Ends m r n)

decompress_cfile-Ends : (m : Machine) (s : Bytes) → Ends (λ _. Unit {0}) (decompress_cfile m s)
unfolding decompress_cfile or_malformed
decompress_cfile-Ends m s = ground arith

pub file-Ends :
    (m : Machine) (r : Bytes) (args : List Bytes) → Ends (Shrinks (length r)) (parse_file m r args)
unfolding parse_file or_malformed
file-Ends m r args = grind (arith, read_payload-Ends)

pub cfile-Ends :
    (m : Machine) (r : Bytes) (args : List Bytes) → Ends (Shrinks (length r)) (parse_cfile m r args)
unfolding parse_cfile or_malformed
cfile-Ends m r args = grind (arith, read_payload-Ends, decompress_cfile-Ends)

pub config-Ends :
    (m : Machine) (r : Bytes) (args : List Bytes)
    → Ends (Shrinks (length r)) (parse_config m r args)
unfolding parse_config or_malformed
config-Ends m r args = grind (arith, with_newline-Ends)

pub uv_file-Ends :
    (m : Machine) (r : Bytes) (args : List Bytes)
    → Ends (Shrinks (length r)) (parse_uv_file m r args)
unfolding parse_uv_file or_malformed uv_file_content
uv_file-Ends m r args = grind (arith, read_payload-Ends)

pub schema-Ends :
    (m : Machine) (r : Bytes) (args : List Bytes)
    → Ends (Shrinks (length r)) (parse_schema m r args)
unfolding parse_schema or_malformed
schema-Ends m r args = grind (arith, read_bounded-Ends)

pub xrow-Ends :
    (m : Machine) (r : Bytes) (args : List Bytes) → Ends (Shrinks (length r)) (parse_xrow m r args)
unfolding parse_xrow or_malformed
xrow-Ends m r args = grind (arith, read_bounded-Ends)

pub xdelete-Ends :
    (m : Machine) (r : Bytes) (args : List Bytes)
    → Ends (Shrinks (length r)) (parse_xdelete m r args)
unfolding parse_xdelete or_malformed
xdelete-Ends m r args = grind (arith, read_bounded-Ends)
