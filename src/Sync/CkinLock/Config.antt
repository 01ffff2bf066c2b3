-- ===== src/Sync/CkinLock/Config.antt =====
-- internal/sync/ckin_lock.go: a lock that is fresh, on a leaf, is not expired.
use libfossil.Base.{
  ℕ, ◌+◌, ◌≤◌, ◌≡◌, refl, ap, ◌∙◌, arith, Bool, true, false, not, ◌&&◌, Option, none, some, List,
  [], ◌∷◌, ltb, if◌then◌else◌, Bytes, equal, equal_iff, All, Bool-cases, inl, inr,
}
use libfossil.Sync.CkinLock.{
  ConfigRow, LockDb, config_key, is_lock_name, trim_prefix, find_value, delete_name, delete_names,
  delete_older, is_leaf, to_delete, expire_stale_locks, replace_row,
}

-- The row with this name.
unfoldable pub locate : List ConfigRow → Bytes → Option ConfigRow
locate [] name = none
locate (r ∷ rs) name = if equal r.name name then some r else locate rs name

pub find_value-locate :
    (rs : List ConfigRow) (name : Bytes) (r : ConfigRow)
    → locate rs name ≡ some r
    → find_value rs name ≡ some r.value
unfolding locate find_value
find_value-locate [] name r h = absurd (cc)
find_value-locate (x ∷ rs) name r h = elim (Bool-cases (equal x.name name)) [
  | inl y ↦
      let h' = rw y at h in
      rw y (let same : x ≡ r = cc in ap (λ (z : ConfigRow). some z.value) same)
  | inr n0 ↦ rw n0 (find_value-locate rs name r (rw n0 at h))
]

equal_refl : (s : Bytes) → equal s s ≡ true
equal_refl s = (equal_iff s s).1 refl

locate-delete_older :
    (rs : List ConfigRow) (name : Bytes) (r : ConfigRow) (now timeout : ℕ)
    → locate rs name ≡ some r
    → now ≤ r.mtime + timeout
    → locate (delete_older rs now timeout) name ≡ some r
unfolding locate delete_older
locate-delete_older [] name r now timeout h l = absurd (cc)
locate-delete_older (x ∷ rs) name r now timeout h l =
    elim (Bool-cases (is_lock_name x.name && ltb (x.mtime + timeout) now)) [
      | inl old ↦ elim (Bool-cases (equal x.name name)) [
        | inl y ↦
            let h' = rw y at h in
            let same : x ≡ r = cc in
            let m = ap (λ (z : ConfigRow). z.mtime) same in absurd (ground arith)
        | inr n0 ↦ rw old (locate-delete_older rs name r now timeout (rw n0 at h) l)
      ]
      | inr new ↦ elim (Bool-cases (equal x.name name)) [
        | inl y ↦ rw (new, y) (rw y at h)
        | inr n0 ↦ rw (new, n0) (locate-delete_older rs name r now timeout (rw n0 at h) l)
      ]
    ]

-- Rows with another name.
locate-delete_name :
    (rs : List ConfigRow) (other name : Bytes)
    → equal other name ≡ false
    → locate (delete_name rs other) name ≡ locate rs name
unfolding locate delete_name
locate-delete_name [] other name h = refl
locate-delete_name (x ∷ rs) other name h = elim (Bool-cases (equal x.name other)) [
  | inl y ↦
      let same = (equal_iff x.name other).0 y in
      rw (y, ap (λ z. equal z name) same ∙ h) (locate-delete_name rs other name h)
  | inr n0 ↦
      rw n0 (ap (λ o. if equal x.name name then some x else o) (locate-delete_name rs other name h))
]

locate-delete_names :
    (rs : List ConfigRow) (ns : List Bytes) (name : Bytes)
    → All (λ n. equal n name ≡ false) ns
    → locate (delete_names rs ns) name ≡ locate rs name
unfolding delete_names
locate-delete_names rs [] name a = refl
locate-delete_names rs (n ∷ ns) name (h, a) =
    locate-delete_names (delete_name rs n) ns name a ∙ locate-delete_name rs n name h

trim_prefix-config_key : (parent : Bytes) → trim_prefix (config_key parent) ≡ parent
unfolding trim_prefix config_key
trim_prefix-config_key parent = refl

not_both_true : (a b : Bool) → b ≡ true → (a && not b) ≡ true → ⊥
not_both_true true true h k = cc
not_both_true true false h k = cc
not_both_true false b h k = cc

-- No lock on a leaf is among those to delete.
to_delete-leaf :
    (d : LockDb) (parent : Bytes) (rs : List ConfigRow)
    → is_leaf d parent ≡ true
    → All (λ n. equal n (config_key parent) ≡ false) (to_delete d rs)
unfolding to_delete
to_delete-leaf d parent [] h = tt
to_delete-leaf d parent (r ∷ rs) h =
    elim (Bool-cases (is_lock_name r.name && not (is_leaf d (trim_prefix r.name)))) [
      | inr n0 ↦ rw n0 (to_delete-leaf d parent rs h)
      | inl y ↦ elim (Bool-cases (equal r.name (config_key parent))) [
        | inr n1 ↦ rw y (n1, to_delete-leaf d parent rs h)
        | inl same ↦
            let e = (equal_iff r.name (config_key parent)).0 same in
            let k =
              ap (λ n. is_leaf d (trim_prefix n)) e
              ∙ ap (is_leaf d) (trim_prefix-config_key parent)
              ∙ h in
            absurd (not_both_true (is_lock_name r.name) _ k y)
      ]
    ]

-- Expiration keeps a fresh lock on a leaf.
pub locate-expire :
    (d : LockDb) (parent : Bytes) (r : ConfigRow) (now timeout : ℕ)
    → is_leaf d parent ≡ true
    → locate d.config (config_key parent) ≡ some r
    → now ≤ r.mtime + timeout
    → locate (expire_stale_locks d now timeout).config (config_key parent) ≡ some r
unfolding expire_stale_locks
locate-expire d parent r now timeout leaf h l =
    locate-delete_names (delete_older d.config now timeout) _ (config_key parent)
      (to_delete-leaf d parent (delete_older d.config now timeout) leaf)
    ∙ locate-delete_older d.config (config_key parent) r now timeout h l

-- A row that is written is found, and others stay.
pub locate-replaced :
    (rs : List ConfigRow) (r : ConfigRow) → locate (replace_row rs r) r.name ≡ some r
unfolding replace_row locate
locate-replaced rs r = rw (equal_refl r.name) refl

pub locate-replace_other :
    (rs : List ConfigRow) (r : ConfigRow) (name : Bytes)
    → equal r.name name ≡ false
    → locate (replace_row rs r) name ≡ locate rs name
unfolding replace_row locate
locate-replace_other rs r name h = rw h (locate-delete_name rs r.name name h)
