-- ===== src/Sync/CkinLock/Tests.antt =====
-- Runs of internal/sync/ckin_lock.go, and the theorem about it at a concrete lock.
use libfossil.Base.{
  ℕ, ◌≡◌, refl, arith, true, Option, none, some, List, [], ◌∷◌, ◌++◌, Bytes, codes, length, take,
  drop, take_append_length, drop_append_length,
}
use libfossil.Base.Int.{pos}
use libfossil.Blob.{find_uuid, has_rid}
use libfossil.Sync.CkinLock.{
  LockEntry, Json, LockDb, CkinLockFail, Request, config_key, is_leaf, expire_stale_locks,
  delete_older, delete_names, to_delete, is_lock_name, lower, find_value, held_by_other, answer_of,
  process_ckin_lock,
}
use libfossil.Sync.CkinLock.Exclusion.{Timed, process_all, lock_excludes}

abbrev lock_entry : Bytes → Bytes → ℕ → LockEntry
lock_entry c l m = record { client_id = c; login = l; mtime = m }

-- A stand-in for the format: the lengths in front of the two strings.
abbrev write_entry : LockEntry → Bytes
write_entry e = e.mtime ∷ length e.client_id ∷ (e.client_id ++ e.login)

abbrev read_entry : Bytes → Option LockEntry
read_entry (m ∷ n ∷ s) = some (record { client_id = take n s; login = drop n s; mtime = m })
read_entry _ = none

read_entry-write_entry : (e : LockEntry) → read_entry (write_entry e) ≡ some e
read_entry-write_entry e =
    let c = take_append_length e.client_id e.login in
    let l = drop_append_length e.client_id e.login in cong_entry _ _ e.client_id e.login e.mtime c l
  where
    cong_entry :
        (a b c l : Bytes) (m : ℕ)
        → a ≡ c
        → b ≡ l
        → some (lock_entry a b m) ≡ some (lock_entry c l m)
    cong_entry a b c l m x y = cc

abbrev json : Json
json = record {
  marshal = write_entry;
  unmarshal = read_entry;
  valid_utf8 = λ s. true;
  unmarshal-marshal = λ e _ _. read_entry-write_entry e;
}

-- One check-in, a leaf.
abbrev one_leaf : LockDb
one_leaf = record {
  config = [];
  blobs = record { rid = 1; size = pos 3; uuid = codes "p1"; content = none } ∷ [];
  leaves = 1 ∷ [];
}

abbrev asks : Bytes → Request
asks client = record { parent = codes "p1"; client = client; user = codes "u" }

granted : (process_ckin_lock json one_leaf 100 101 60 (asks (codes "a"))).1 ≡ none
unfolding process_ckin_lock expire_stale_locks delete_older to_delete delete_names find_value
    held_by_other answer_of
granted = refl

leaf_known : is_leaf one_leaf (codes "p1") ≡ true
unfolding is_leaf find_uuid has_rid
leaf_known = refl

-- The holder renews its lock, and another client asks in between.
abbrev between : List Timed
between =
    record { now = 120; later = 120; request = asks (codes "b") }
    ∷ record { now = 150; later = 151; request = asks (codes "a") }
    ∷ []

abbrev last_one : Timed
last_one = record { now = 161; later = 161; request = asks (codes "b") }

lock_excludes_example :
    (f : CkinLockFail) × ((process_ckin_lock json
        (process_all json 60
          (process_ckin_lock json one_leaf 100 101 60 (asks (codes "a"))).0
          between)
        161
        161
        60
        (asks (codes "b"))).1
      ≡ some f)
lock_excludes_example =
    lock_excludes json 60 one_leaf 100 101 (asks (codes "a")) between last_one granted refl refl
      leaf_known
      ((omega arith, omega arith, refl, refl), ((omega arith, omega arith, refl, refl), tt))
      (omega arith) refl refl

-- After its time the lock goes to the next client.
abbrev held_by_a : LockDb
held_by_a = record one_leaf {
  config =
      record {
        name = codes "libfossil-ci-lock-p1";
        value = write_entry (record { client_id = codes "a"; login = codes "u"; mtime = 101 });
        mtime = 101;
      }
      ∷ [];
}

expired_lock : (process_ckin_lock json held_by_a 162 162 60 (asks (codes "b"))).1 ≡ none
unfolding process_ckin_lock expire_stale_locks delete_older is_lock_name lower to_delete
    delete_names find_value held_by_other answer_of config_key
expired_lock = refl
