-- ===== src/Uv.antt =====
-- internal/uv/status.go: which side of a sync has the newer version of an unversioned file.
pub mod Order
mod Tests
use libfossil.Base.{
  ℕ, zero, suc, ◌+◌, Bool, true, false, ◌&&◌, ◌||◌, [], ◌∷◌, ltb, ◌==◌, if◌then◌else◌, Bytes, codes,
  equal,
}
use libfossil.Base.Int.{ℤ, pos, negsuc}

-- `a < b` on strings.
unfoldable pub less : Bytes → Bytes → Bool
less a [] = false
less [] (_ ∷ _) = true
less (c ∷ cs) (d ∷ ds) =
    let later = less cs ds in if ltb c d then true else if ltb d c then false else later

-- `a < b` on integers.
unfoldable pub less_int : ℤ → ℤ → Bool
less_int (pos a) (pos b) = ltb a b
less_int (pos a) (negsuc b) = false
less_int (negsuc a) (pos b) = true
less_int (negsuc a) (negsuc b) = ltb b a

-- The results -1, 0 and 1 of a comparison.
pub data Sign : Type 0 where
  minus none plus : Sign

unfoldable pub cmp_str : Bytes → Bytes → Sign
cmp_str a b = if less a b then minus else if less b a then plus else none

unfoldable pub mtime_cmp : ℤ → ℤ → Sign
mtime_cmp a b = if less_int a b then minus else if less_int b a then plus else none

abbrev pub deletion : Bytes
deletion = codes "-"

-- `3 + mtimeCmp`
unfoldable pub same_hash_status : Sign → ℕ
same_hash_status minus = 2
same_hash_status none = 3
same_hash_status plus = 4

-- Behind the test of the hashes, where they differ; `less_hash` says that the local one is less.
unfoldable pub other_hash_status : Sign → Bool → Bytes → Bytes → ℕ
other_hash_status minus less_hash local_hash remote_hash = 1
other_hash_status plus less_hash local_hash remote_hash = 5
other_hash_status none less_hash local_hash remote_hash =
    if equal local_hash deletion
    then 5
    else if equal remote_hash deletion
    then 1
    else if less_hash
    then 1
    else 5

unfoldable pub is_zero_time : ℤ → Bool
is_zero_time (pos n) = n == 0
is_zero_time (negsuc n) = false

-- Behind the first test: `hashCmp`, `mtimeCmp` and the hashes.
unfoldable pub status_of : Sign → Sign → Bytes → Bytes → ℕ
unfolding same_hash_status other_hash_status
status_of none mtimes local_hash remote_hash = same_hash_status mtimes
status_of minus mtimes local_hash remote_hash = other_hash_status mtimes true local_hash remote_hash
status_of plus mtimes local_hash remote_hash = other_hash_status mtimes false local_hash remote_hash

unfoldable pub status : ℤ → Bytes → ℤ → Bytes → ℕ
unfolding status_of
status local_mtime local_hash remote_mtime remote_hash =
    if is_zero_time local_mtime
    then 0
    else status_of (cmp_str local_hash remote_hash) (mtime_cmp local_mtime remote_mtime) local_hash
        remote_hash
