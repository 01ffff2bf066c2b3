-- ===== src/Delta.antt =====
-- internal/delta/delta.go: the reader, `Apply`, `Checksum` and the integer encoding. `Create` is in
-- the child of that name, the proofs are in the other children.
pub mod Ints
pub mod Create
pub mod Commands
pub mod Apply
pub mod Builds
pub mod Safety
mod Tests
use libfossil.Base.{
  ℕ, zero, suc, ◌+◌, ◌-◌, ◌*◌, ◌/◌, ◌%◌, ◌^◌, ◌≤◌, ◌<◌, bit_or, Bool, true, false, ◌&&◌, ◌||◌, not,
  Option, none, some, List, [], ◌∷◌, ◌++◌, ltb, leb, ◌==◌, if◌then◌else◌, Bytes, codes, length,
  take, drop, get_elem?, Outcome, ok, err, panicked, stuck, ◌>>=◌,
}

-- `ErrInvalidDelta` and `ErrChecksum`; the text that is wrapped around them is left out.
pub data Error : Type 0 where
  invalid checksum_mismatch : Error

abbrev pub Result {ℓ} : Type ℓ → Type ℓ
Result A = Outcome Error A

-- The entry -1 of the table `digits` is `none`; beyond the table's 128 entries the source tests
-- `c >= 128` first.
pub digits : ℕ → Option ℕ
digits c =
    if leb b'0' c && leb c b'9'
    then some (c - b'0')
    else if leb b'A' c && leb c b'Z'
    then some (c - b'A' + 10)
    else if c == b'_'
    then some 36
    else if leb b'a' c && leb c b'z'
    then some (c - b'a' + 37)
    else if c == b'~'
    then some 63
    else none

-- `rest` is data[pos:] and `size` is len(data), so that `pos < len(data)` says that `rest` holds a
-- byte.
pub record Reader : Type 0 where
  pub size : ℕ
  pub rest : Bytes

abbrev pub pos : Reader → ℕ
pos r = r.size - length r.rest

-- The loop of `getInt`; at its end comes the test of `started`.
pub get_int_loop : ℕ → Bytes → ℕ → Bool → Result (ℕ × Reader)
get_int_loop size [] v started =
    if started then ok (v, record { size = size; rest = [] }) else err invalid
get_int_loop size (c ∷ cs) v started = elim (digits c) [
  | none ↦ if started then ok (v, record { size = size; rest = c ∷ cs }) else err invalid
  | some d ↦ get_int_loop size cs ((v * 64 + d) % 2 ^ 64) true
]

pub get_int : Reader → Result (ℕ × Reader)
get_int r = get_int_loop r.size r.rest 0 false

pub get_char_of : ℕ → Bytes → Result (ℕ × Reader)
get_char_of size [] = err invalid
get_char_of size (c ∷ cs) = ok (c, record { size = size; rest = cs })

pub get_char : Reader → Result (ℕ × Reader)
unfolding get_char_of
get_char r = get_char_of r.size r.rest

-- One 32-bit big-endian word: the shifted bytes joined by `|`.
pub word : ℕ → ℕ → ℕ → ℕ → ℕ
word a b c d =
    bit_or (bit_or (bit_or (a * 2 ^ 24 % 2 ^ 32) (b * 2 ^ 16 % 2 ^ 32)) (c * 2 ^ 8 % 2 ^ 32)) d

-- The loop over whole words, and the switch on the bytes that are left.
pub checksum_loop : ℕ → Bytes → ℕ
checksum_loop sum (a ∷ b ∷ c ∷ d ∷ rest) = checksum_loop ((sum + word a b c d) % 2 ^ 32) rest
checksum_loop sum (a ∷ b ∷ c ∷ []) =
    ((((sum + c * 2 ^ 8 % 2 ^ 32) % 2 ^ 32 + b * 2 ^ 16 % 2 ^ 32) % 2 ^ 32) + a * 2 ^ 24 % 2 ^ 32)
    % 2 ^ 32
checksum_loop sum (a ∷ b ∷ []) =
    ((sum + b * 2 ^ 16 % 2 ^ 32) % 2 ^ 32 + a * 2 ^ 24 % 2 ^ 32) % 2 ^ 32
checksum_loop sum (a ∷ []) = (sum + a * 2 ^ 24 % 2 ^ 32) % 2 ^ 32
checksum_loop sum [] = sum

pub checksum : Bytes → ℕ
unfolding checksum_loop word
checksum text = checksum_loop 0 text

-- `int(u) > n` for a uint64 `u`: from 2^63 on `int(u)` is negative.
pub int_exceeds : ℕ → ℕ → Bool
int_exceeds u n = ltb u (2 ^ 63) && ltb n u

-- s[lo:hi]; out of order, or behind the end, it panics.
pub slice : Bytes → ℕ → ℕ → Result Bytes
slice s lo hi = if leb lo hi && leb hi (length s) then ok (take (hi - lo) (drop lo s)) else panicked

-- What one round of the loop of `Apply` does: it returns, or goes on with the output so far.
pub data Round : Type 0 where
  done : Bytes → Round
  more : Bytes → Reader → Round

-- The bounds checks of `case '@'`, and the piece that they let through.
pub copy_slice : Bytes → Bytes → ℕ → ℕ → Reader → Result Round
copy_slice source output offset cnt r =
    if ltb (length source) offset || ltb (length source) cnt
    then err invalid
    else if int_exceeds ((offset + cnt) % 2 ^ 64) (length source)
    then err invalid
    else do piece ← slice source offset ((offset + cnt) % 2 ^ 64); ok (more (output ++ piece) r)

-- `case '@'`
pub copy_command : Bytes → Bytes → ℕ → Reader → Result Round
copy_command source output cnt r = do
  (offset, r1) ← get_int r
  (term, r2) ← get_char r1
  if not (term == b',') then err invalid else copy_slice source output offset cnt r2

-- `case ':'`; the slice of the delta from `pos` is a slice of `rest` from 0.
pub insert_command : Bytes → ℕ → Reader → Result Round
insert_command output cnt r =
    if ltb r.size cnt
    then err invalid
    else if int_exceeds ((pos r + cnt) % 2 ^ 64) r.size
    then err invalid
    else do
      piece ← slice r.rest 0 cnt
      ok (more (output ++ piece) (record { size = r.size; rest = drop cnt r.rest }))

-- `case ';'`
pub end_command : ℕ → Bytes → ℕ → Result Round
end_command target_len output cnt =
    if not (length output == target_len)
    then err invalid
    else if not (cnt == checksum output)
    then err checksum_mismatch
    else ok (done output)

-- The switch on the command byte.
pub command : Bytes → ℕ → Bytes → ℕ → ℕ → Reader → Result Round
command source target_len output cnt cmd r =
    if cmd == b'@'
    then copy_command source output cnt r
    else if cmd == b':'
    then insert_command output cnt r
    else if cmd == b';'
    then end_command target_len output cnt
    else err invalid

-- The body of the loop.
pub apply_round : Bytes → ℕ → Bytes → Reader → Result Round
apply_round source target_len output r = do
  (cnt, r1) ← get_int r
  (cmd, r2) ← get_char r1
  command source target_len output cnt cmd r2

pub has_more : Bytes → Bool
has_more [] = false
has_more (_ ∷ _) = true

pub apply_loop : Bytes → ℕ → ℕ → Bytes → Reader → Result Bytes
unfolding has_more
apply_loop source target_len zero output r = stuck
apply_loop source target_len (suc fuel) output r =
    let again = apply_loop source target_len fuel in
    if not (has_more r.rest) then err invalid else do
      round ← apply_round source target_len output r
      elim round [ done text ↦ ok text | more text r' ↦ again text r' ]

-- Behind the header. `max_cap` is the largest capacity that the run-time's `make` gives a byte
-- slice: beyond it, `make` panics. Each round reads a byte or returns, so that the number of bytes,
-- and one, is fuel enough.
pub apply : ℕ → Bytes → Bytes → Result Bytes
apply max_cap source delta = if length delta == 0 then err invalid else do
  (target_len, r1) ← get_int (record { size = length delta; rest = delta })
  (term, r2) ← get_char r1
  if not (term == b'\n')
      then err invalid
      else if ltb max_cap target_len
      then panicked
      else apply_loop source target_len (suc (length delta)) [] r2

abbrev pub z_digits_enc : Bytes
z_digits_enc = codes "0123456789ABCDEFGHIJKLMNOPQRSTUVWXYZ_abcdefghijklmnopqrstuvwxyz~"

pub digit_of : ℕ → ℕ
digit_of d = elim (get_elem? z_digits_enc d) [ none ↦ 0 | some c ↦ c ]

-- The loop of `appendInt`: the bytes written last stand in front. The fuel counts the free places
-- of `tmp`.
pub int_digits : ℕ → ℕ → Bytes → Bytes
int_digits zero v out = out
int_digits (suc k) v out = elim (v == 0) [
  | true ↦ out
  | false ↦ int_digits k (v / 64) (digit_of (v % 64) ∷ out)
]

pub append_int : Bytes → ℕ → Bytes
append_int buf v = if v == 0 then buf ++ b'0' ∷ [] else buf ++ int_digits 13 v []
