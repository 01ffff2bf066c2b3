-- ===== src/Sync/CkinLock.antt =====
-- internal/sync/ckin_lock.go: the locks that clients take on a check-in before they add to it. The
-- statements do not fail.
pub mod Config
pub mod Exclusion
mod Tests
use libfossil.Base.{
  ℕ, zero, suc, ◌+◌, ◌≡◌, Bool, true, false, not, ◌&&◌, Option, none, some, List, [], ◌∷◌, ◌++◌,
  ltb, leb, ◌==◌, if◌then◌else◌, Bytes, codes, equal, length, take, drop,
}
use libfossil.Blob.{Row, find_uuid, has_rid}

pub record LockEntry : Type 0 where
  pub client_id : Bytes
  pub login : Bytes
  pub mtime : ℕ

-- encoding/json on lock entries. What is written is read back where the strings are UTF-8.
pub record Json : Type 0 where
  pub marshal : LockEntry → Bytes
  pub unmarshal : Bytes → Option LockEntry
  pub valid_utf8 : Bytes → Bool
  pub unmarshal-marshal :
      (e : LockEntry)
      → valid_utf8 e.client_id ≡ true
      → valid_utf8 e.login ≡ true
      → unmarshal (marshal e) ≡ some e

-- A row of the table config, whose key is the name.
pub record ConfigRow : Type 0 where
  pub name : Bytes
  pub value : Bytes
  pub mtime : ℕ

-- The tables config, blob and leaf.
pub record LockDb : Type 0 where
  pub config : List ConfigRow
  pub blobs : List Row
  pub leaves : List ℕ

pub record CkinLockFail : Type 0 where
  pub held_by : Bytes
  pub since : ℕ

abbrev pub prefix : Bytes
prefix = codes "libfossil-ci-lock-"

unfoldable pub config_key : Bytes → Bytes
config_key parent = prefix ++ parent

unfoldable pub lower : Bytes → Bytes
lower [] = []
lower (c ∷ cs) = (if leb b'A' c && leb c b'Z' then c + 32 else c) ∷ lower cs

-- `name LIKE 'libfossil-ci-lock-%'`, which takes no account of case.
unfoldable pub is_lock_name : Bytes → Bool
unfolding lower
is_lock_name name = equal (lower (take 18 name)) prefix

-- `strings.TrimPrefix(name, "libfossil-ci-lock-")`
unfoldable pub trim_prefix : Bytes → Bytes
trim_prefix name = if equal (take 18 name) prefix then drop 18 name else name

-- SELECT value FROM config WHERE name=?
unfoldable pub find_value : List ConfigRow → Bytes → Option Bytes
find_value [] name = none
find_value (r ∷ rs) name = if equal r.name name then some r.value else find_value rs name

-- DELETE FROM config WHERE name=?
unfoldable pub delete_name : List ConfigRow → Bytes → List ConfigRow
delete_name [] name = []
delete_name (r ∷ rs) name =
    let rest = delete_name rs name in if equal r.name name then rest else r ∷ rest

unfoldable pub delete_names : List ConfigRow → List Bytes → List ConfigRow
unfolding delete_name
delete_names rs [] = rs
delete_names rs (n ∷ ns) = delete_names (delete_name rs n) ns

-- DELETE FROM config WHERE name LIKE 'libfossil-ci-lock-%' AND mtime < now - timeout
unfoldable pub delete_older : List ConfigRow → ℕ → ℕ → List ConfigRow
unfolding is_lock_name
delete_older [] now timeout = []
delete_older (r ∷ rs) now timeout =
    let rest = delete_older rs now timeout in
    if is_lock_name r.name && ltb (r.mtime + timeout) now then rest else r ∷ rest

-- The parent is known, and it is a leaf.
unfoldable pub is_leaf : LockDb → Bytes → Bool
unfolding find_uuid has_rid
is_leaf d uuid = elim (find_uuid d.blobs uuid) [ none ↦ false | some rid ↦ has_rid d.leaves rid ]

-- The names of the locks whose parent is no leaf.
unfoldable pub to_delete : LockDb → List ConfigRow → List Bytes
unfolding is_lock_name trim_prefix is_leaf
to_delete d [] = []
to_delete d (r ∷ rs) =
    let rest = to_delete d rs in
    if is_lock_name r.name && not (is_leaf d (trim_prefix r.name)) then r.name ∷ rest else rest

unfoldable pub expire_stale_locks : LockDb → ℕ → ℕ → LockDb
unfolding delete_older to_delete delete_names
expire_stale_locks d now timeout =
    let kept = delete_older d.config now timeout in
    record d { config = delete_names kept (to_delete d kept) }

-- REPLACE INTO config(name, value, mtime)
unfoldable pub replace_row : List ConfigRow → ConfigRow → List ConfigRow
unfolding delete_name
replace_row rs r = r ∷ delete_name rs r.name

-- The entry of another client, if the stored value is one.
unfoldable pub held_by_other : Json → Bytes → Option Bytes → Option LockEntry
held_by_other j client none = none
held_by_other j client (some raw) = elim (j.unmarshal raw) [
  | none ↦ none
  | some e ↦ if equal e.client_id client then none else some e
]

unfoldable pub upsert : Json → LockDb → Bytes → LockEntry → LockDb
unfolding replace_row config_key
upsert j d parent e = record d {
  config =
      replace_row d.config
        (record { name = config_key parent; value = j.marshal e; mtime = e.mtime });
}

-- One request: the parent, the client and its user.
pub record Request : Type 0 where
  pub parent : Bytes
  pub client : Bytes
  pub user : Bytes

unfoldable pub answer_of :
    Json → LockDb → ℕ → Request → Option LockEntry → LockDb × Option CkinLockFail
unfolding upsert
answer_of j d now q (some e) = (d, some (record { held_by = e.login; since = e.mtime }))
answer_of j d now q none =
    (upsert j d q.parent (record { client_id = q.client; login = q.user; mtime = now }), none)

-- `now` is the clock at the start, and `later` when the entry is written.
unfoldable pub process_ckin_lock :
    Json → LockDb → ℕ → ℕ → ℕ → Request → LockDb × Option CkinLockFail
unfolding expire_stale_locks find_value held_by_other answer_of config_key
process_ckin_lock j d now later timeout q =
    let d' = expire_stale_locks d now timeout in
    answer_of j d' later q (held_by_other j q.client (find_value d'.config (config_key q.parent)))
