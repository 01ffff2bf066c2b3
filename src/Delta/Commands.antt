-- ===== src/Delta/Commands.antt =====
-- The commands that a delta of internal/delta/delta.go spells, what they build, and one round of
-- `Apply` on each.
use libfossil.Base.{
  ℕ, ◌+◌, ◌-◌, ◌%◌, ◌^◌, ◌≤◌, ◌<◌, ◌≡◌, refl, arith, false, List, [], ◌∷◌, ◌++◌, append_assoc,
  le→ltb, Bytes, length, take, drop, length-append, take_append_length, drop_append_length, ok,
}
use libfossil.Delta.{
  Reader, digits, get_char, checksum, checksum_loop, word, int_exceeds, slice, done, more, command,
  copy_command, copy_slice, insert_command, end_command, apply_round,
}
use libfossil.Delta.Ints.{int_text, EndsInt, get_int-int_text}

-- `cnt@off,` takes a piece of the source, `len:text` brings a piece of its own.
pub data Command : Type 0 where
  copy : ℕ → ℕ → Command
  insert : Bytes → Command

abbrev pub render_command : Command → Bytes
render_command (copy cnt off) = int_text cnt ++ b'@' ∷ (int_text off ++ b',' ∷ [])
render_command (insert text) = int_text (length text) ++ b':' ∷ text

abbrev pub render : List Command → Bytes
render [] = []
render (c ∷ cs) = render_command c ++ render cs

abbrev pub piece : Bytes → Command → Bytes
piece source (copy cnt off) = take cnt (drop off source)
piece source (insert text) = text

abbrev pub expand : Bytes → List Command → Bytes
expand source [] = []
expand source (c ∷ cs) = piece source c ++ expand source cs

-- A slice that fits the machine; Go allows no longer one.
abbrev pub InMemory : Bytes → Type 0
InMemory s = length s < 2 ^ 62

-- The piece lies within the source, and an inserted text is not empty.
abbrev pub Fits : Bytes → Command → Type 0
Fits source (copy cnt off) = off + cnt ≤ length source
Fits source (insert text) = 0 < length text

abbrev pub reader : ℕ → Bytes → Reader
reader size rest = record { size = size; rest = rest }

pub not_digit :
    (EndsInt (b'@' ∷ []))
    × (EndsInt (b',' ∷ []))
    × (EndsInt (b':' ∷ []))
    × (EndsInt (b';' ∷ []))
    × (EndsInt (b'\n' ∷ []))
unfolding digits
not_digit = (refl, refl, refl, refl, refl)

add_sub_self : (a b : ℕ) → a + b - a ≡ b
add_sub_self a b = omega arith

-- A range that lies within a slice passes the tests, and the slice does not panic.
pub int_exceeds-fits :
    (size n : ℕ) → size < 2 ^ 62 → n ≤ size → int_exceeds (n % 2 ^ 64) size ≡ false
unfolding int_exceeds
int_exceeds-fits size n m h = ground arith

pub slice-fits :
    (s : Bytes) (off cnt : ℕ)
    → InMemory s
    → off + cnt ≤ length s
    → slice s off ((off + cnt) % 2 ^ 64) ≡ ok (take cnt (drop off s))
unfolding slice
slice-fits s off cnt m h =
    let e : (off + cnt) % 2 ^ 64 ≡ off + cnt = omega arith in
    rw (e, add_sub_self off cnt) (ground arith)

slice_front : (s t : Bytes) → slice (s ++ t) 0 (length s) ≡ ok s
unfolding slice
slice_front s t = ground (arith, length-append s t, take_append_length s t)

checksum_loop-lt : (sum : ℕ) (s : Bytes) → sum < 2 ^ 32 → checksum_loop sum s < 2 ^ 32
unfolding checksum_loop
checksum_loop-lt sum (a ∷ b ∷ c ∷ d ∷ s) h =
    checksum_loop-lt ((sum + word a b c d) % 2 ^ 32) s (omega arith)
checksum_loop-lt sum (a ∷ b ∷ c ∷ []) h = omega arith
checksum_loop-lt sum (a ∷ b ∷ []) h = omega arith
checksum_loop-lt sum (a ∷ []) h = omega arith
checksum_loop-lt sum [] h = h

-- A checksum is a uint32.
pub checksum-lt : (s : Bytes) → checksum s < 2 ^ 32
unfolding checksum
checksum-lt s = checksum_loop-lt 0 s (omega arith)

module _ (source : Bytes) (n : ℕ) (out : Bytes) (size : ℕ) (rest : Bytes) where
  copy_round :
      (cnt off : ℕ)
      → InMemory source
      → off + cnt ≤ length source
      → apply_round source n out (reader size (render_command (copy cnt off) ++ rest))
        ≡ ok (more (out ++ take cnt (drop off source)) (reader size rest))
  unfolding apply_round command copy_command copy_slice get_char
  copy_round cnt off m h =
      rw (append_assoc, get_int-int_text size cnt _ (omega arith) not_digit.0)
        (rw (append_assoc, get_int-int_text size off _ (omega arith) not_digit.1)
          (rw (
            le→ltb (length source) off (omega arith),
            le→ltb (length source) cnt (omega arith),
            int_exceeds-fits (length source) (off + cnt) m h,
            slice-fits source off cnt m h,
          )))

  insert_fits :
      (text : Bytes)
      → size < 2 ^ 62
      → length (text ++ rest) ≤ size
      → insert_command out (length text) (reader size (text ++ rest))
        ≡ ok (more (out ++ text) (reader size rest))
  unfolding insert_command
  insert_fits text m h =
      let l = length-append text rest in
      rw (
        le→ltb size (length text) (omega arith),
        int_exceeds-fits size (size - length (text ++ rest) + length text) m (omega arith),
        slice_front text rest,
        drop_append_length text rest,
      )

  insert_round :
      (text : Bytes)
      → size < 2 ^ 62
      → length (text ++ rest) ≤ size
      → apply_round source n out (reader size (render_command (insert text) ++ rest))
        ≡ ok (more (out ++ text) (reader size rest))
  unfolding apply_round command get_char
  insert_round text m h =
      rw
        (
          append_assoc,
          get_int-int_text size (length text) _ (omega (arith, length-append text rest))
              not_digit.2,
        )
        (insert_fits text m h)

  text_shorter :
      (text : Bytes) → length (text ++ rest) ≤ length (render_command (insert text) ++ rest)
  text_shorter text = rw (length-append, length-append, length-append) (omega arith)

  -- One round of the loop of `Apply` on a command that fits.
  pub apply_round-render_command :
      (c : Command)
      → InMemory source
      → Fits source c
      → size < 2 ^ 62
      → length (render_command c ++ rest) ≤ size
      → apply_round source n out (reader size (render_command c ++ rest))
        ≡ ok (more (out ++ piece source c) (reader size rest))
  apply_round-render_command (copy cnt off) m f s h = copy_round cnt off m f
  apply_round-render_command (insert text) m f s h =
      insert_round text s (omega (arith, text_shorter text))

  -- The round at the end of a delta.
  pub apply_round-end :
      n ≡ length out
      → apply_round source n out (reader size (int_text (checksum out) ++ b';' ∷ rest))
        ≡ ok (done out)
  unfolding apply_round command end_command get_char
  apply_round-end e =
      rw (get_int-int_text size (checksum out) _ (omega (arith, checksum-lt out)) not_digit.3)
        (ground arith)
