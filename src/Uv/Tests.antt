-- ===== src/Uv/Tests.antt =====
-- Runs of internal/uv/status.go, and the theorems about it at concrete files.
use libfossil.Base.{◌≡◌, refl, codes}
use libfossil.Base.Int.{pos}
use libfossil.Uv.{
  deletion, is_zero_time, status, status_of, cmp_str, mtime_cmp, less, less_int, same_hash_status,
  other_hash_status,
}

-- The same hash, and a newer time on the remote side.
status_newer_time : status (pos 5) (codes "ab") (pos 6) (codes "ab") ≡ 2
unfolding status status_of cmp_str mtime_cmp less less_int same_hash_status is_zero_time
status_newer_time = refl

-- At the same time a deletion wins.
deletion_wins : status (pos 5) deletion (pos 5) (codes "ab") ≡ 5
unfolding status status_of cmp_str mtime_cmp less less_int other_hash_status is_zero_time
deletion_wins = refl
