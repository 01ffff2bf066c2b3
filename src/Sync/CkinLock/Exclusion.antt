-- ===== src/Sync/CkinLock/Exclusion.antt =====
-- internal/sync/ckin_lock.go: one client at a time holds the lock on a leaf.
use libfossil.Base.{
  ℕ, ◌+◌, ◌≤◌, ◌≡◌, refl, sym, ◌∙◌, subst, arith, true, false, Option, none, some, List, [], ◌∷◌,
  Bytes, equal, equal_iff, All, Bool-cases, inl, inr,
}
use libfossil.Sync.CkinLock.{
  LockEntry, Json, ConfigRow, LockDb, CkinLockFail, Request, config_key, is_leaf,
  expire_stale_locks, find_value, held_by_other, upsert, answer_of, process_ckin_lock, replace_row,
}
use libfossil.Sync.CkinLock.Config.{
  locate, find_value-locate, locate-expire, locate-replaced, locate-replace_other,
}

-- A request, with the readings of the clock.
pub record Timed : Type 0 where
  pub now : ℕ
  pub later : ℕ
  pub request : Request

unfoldable pub process_all : Json → ℕ → LockDb → List Timed → LockDb
process_all j timeout d [] = d
process_all j timeout d (q ∷ qs) =
    process_all j timeout (process_ckin_lock j d q.now q.later timeout q.request).0 qs

held_by_other-some :
    (j : Json) (client raw : Bytes) (o : Option Bytes) (e : LockEntry)
    → o ≡ some raw
    → j.unmarshal raw ≡ some e
    → equal e.client_id client ≡ false
    → held_by_other j client o ≡ some e
unfolding held_by_other
held_by_other-some j client raw o e h k l =
    rw (h, held_by_other) (rw (k, held_by_other) (rw l refl))

answer_of-some :
    (j : Json) (d : LockDb) (later : ℕ) (q : Request) (o : Option LockEntry) (e : LockEntry)
    → o ≡ some e
    → (answer_of j d later q o).1 ≡ some (record { held_by = e.login; since = e.mtime })
unfolding answer_of
answer_of-some j d later q o e h = rw h refl

module _ (j : Json) (timeout : ℕ) (parent client : Bytes) (since : ℕ) where
  -- The client has the lock on the parent, since `since` or longer.
  pub record IsHeld (d : LockDb) : Type 0 where
    pub entry : LockEntry
    pub row : ConfigRow
    pub located : locate d.config (config_key parent) ≡ some row
    pub reads : j.unmarshal row.value ≡ some entry
    pub timed : since ≤ row.mtime
    pub by : entry.client_id ≡ client
    pub leaf : is_leaf d parent ≡ true

  -- A request while the lock cannot expire, by a client and a user whose names are UTF-8.
  abbrev pub IsTimely : Timed → Type 0
  IsTimely q =
      (q.now ≤ since + timeout)
      × (since ≤ q.later)
      × (j.valid_utf8 q.request.client ≡ true)
      × (j.valid_utf8 q.request.user ≡ true)

  expired-IsHeld :
      (d : LockDb) (now : ℕ)
      → now ≤ since + timeout
      → IsHeld d
      → IsHeld (expire_stale_locks d now timeout)
  unfolding expire_stale_locks is_leaf
  expired-IsHeld d now h k = record {
    entry = k.entry;
    row = k.row;
    located =
        locate-expire d parent k.row now timeout k.leaf k.located (let t = k.timed in omega arith);
    reads = k.reads;
    timed = k.timed;
    by = k.by;
    leaf = k.leaf;
  }

  -- A request for the same parent by another client is refused.
  other_refused :
      (d : LockDb) (now later : ℕ) (q : Request)
      → now ≤ since + timeout
      → IsHeld d
      → q.parent ≡ parent
      → equal client q.client ≡ false
      → (f : CkinLockFail) × ((process_ckin_lock j d now later timeout q).1 ≡ some f)
  unfolding process_ckin_lock
  other_refused d now later q h k same other =
      let k' = expired-IsHeld d now h k in
      let found = find_value-locate _ (config_key parent) k'.row k'.located in
      let found' =
        subst
          (λ p.
            find_value (expire_stale_locks d now timeout).config (config_key p) ≡ some k'.row.value)
          (sym same) found in
      let different = subst (λ c. equal c q.client ≡ false) (sym k'.by) other in
      (
        _,
        answer_of-some j (expire_stale_locks d now timeout) later q _ k'.entry
            (held_by_other-some j q.client k'.row.value _ k'.entry found' k'.reads different),
      )

  upsert-IsHeld :
      (d : LockDb) (q : Request) (later : ℕ)
      → IsHeld d
      → since ≤ later
      → j.valid_utf8 q.client ≡ true
      → j.valid_utf8 q.user ≡ true
      → (q.parent ≡ parent → q.client ≡ client)
      → IsHeld
          (upsert j d q.parent (record { client_id = q.client; login = q.user; mtime = later }))
  unfolding upsert config_key is_leaf
  upsert-IsHeld d q later k l vc vu own = elim (Bool-cases (equal q.parent parent)) [
    | inl y ↦
        let same = (equal_iff q.parent parent).0 y in
        let e : LockEntry = record { client_id = q.client; login = q.user; mtime = later } in
        let r : ConfigRow = record {
          name = config_key q.parent;
          value = j.marshal e;
          mtime = later;
        } in
        record {
          entry = e;
          row = r;
          located =
              subst (λ p. locate (replace_row d.config r) (config_key p) ≡ some r) same
                (locate-replaced d.config r);
          reads = j.unmarshal-marshal e vc vu;
          timed = l;
          by = own same;
          leaf = k.leaf;
        }
    | inr n0 ↦
        let e : LockEntry = record { client_id = q.client; login = q.user; mtime = later } in
        let r : ConfigRow = record {
          name = config_key q.parent;
          value = j.marshal e;
          mtime = later;
        } in
        record {
          entry = k.entry;
          row = k.row;
          located = locate-replace_other d.config r (config_key parent) n0 ∙ k.located;
          reads = k.reads;
          timed = k.timed;
          by = k.by;
          leaf = k.leaf;
        }
  ]

  answer_of-IsHeld :
      (d : LockDb) (q : Request) (later : ℕ) (o : Option LockEntry)
      → IsHeld d
      → since ≤ later
      → j.valid_utf8 q.client ≡ true
      → j.valid_utf8 q.user ≡ true
      → (o ≡ none → q.parent ≡ parent → q.client ≡ client)
      → IsHeld (answer_of j d later q o).0
  unfolding answer_of
  answer_of-IsHeld d q later (some e) k l vc vu own = k
  answer_of-IsHeld d q later none k l vc vu own = upsert-IsHeld d q later k l vc vu (own refl)

  process-IsHeld :
      (d : LockDb) (q : Timed)
      → IsTimely q
      → IsHeld d
      → IsHeld (process_ckin_lock j d q.now q.later timeout q.request).0
  unfolding process_ckin_lock
  process-IsHeld d q (h, l, vc, vu) k =
      let k' = expired-IsHeld d q.now h k in
      answer_of-IsHeld (expire_stale_locks d q.now timeout) q.request q.later _ k' l vc vu
        λ none_held same. elim (Bool-cases (equal client q.request.client)) [
          | inl y ↦ sym ((equal_iff client q.request.client).0 y)
          | inr n0 ↦
              let found = find_value-locate _ (config_key parent) k'.row k'.located in
              let found' =
                subst
                  (λ p.
                    find_value (expire_stale_locks d q.now timeout).config (config_key p)
                    ≡ some k'.row.value)
                  (sym same) found in
              let different = subst (λ c. equal c q.request.client ≡ false) (sym k'.by) n0 in
              let held =
                held_by_other-some j q.request.client k'.row.value _ k'.entry found' k'.reads
                  different in
              absurd (clash _ k'.entry none_held held)
        ]
    where
      clash : (o : Option LockEntry) (e : LockEntry) → o ≡ none → o ≡ some e → ⊥
      clash o e x y = cc

  process_all-IsHeld :
      (d : LockDb) (qs : List Timed)
      → All IsTimely qs
      → IsHeld d
      → IsHeld (process_all j timeout d qs)
  unfolding process_all
  process_all-IsHeld d [] a k = k
  process_all-IsHeld d (q ∷ qs) (t, a) k =
      process_all-IsHeld (process_ckin_lock j d q.now q.later timeout q.request).0 qs a
        (process-IsHeld d q t k)

granted-IsHeld :
    (j : Json) (timeout : ℕ) (d : LockDb) (q : Request) (later : ℕ) (o : Option LockEntry)
    → (answer_of j d later q o).1 ≡ none
    → j.valid_utf8 q.client ≡ true
    → j.valid_utf8 q.user ≡ true
    → is_leaf d q.parent ≡ true
    → IsHeld j timeout q.parent q.client later (answer_of j d later q o).0
unfolding answer_of upsert is_leaf
granted-IsHeld j timeout d q later (some e) h vc vu leaf = absurd (cc)
granted-IsHeld j timeout d q later none h vc vu leaf =
    let e : LockEntry = record { client_id = q.client; login = q.user; mtime = later } in
    let r : ConfigRow = record { name = config_key q.parent; value = j.marshal e; mtime = later } in
    record {
      entry = e;
      row = r;
      located = locate-replaced d.config r;
      reads = j.unmarshal-marshal e vc vu;
      timed = omega arith;
      by = refl;
      leaf = leaf;
    }

-- The lock excludes: once a request for a leaf is granted, and whatever requests follow before the
-- lock's time is over, those of its holder included, a request of another client for the same leaf
-- is refused within this time. The clock does not run back behind the grant, and the names of
-- clients and users are UTF-8.
pub lock_excludes :
    (j : Json) (timeout : ℕ) (d : LockDb) (now since : ℕ) (q : Request) (qs : List Timed)
    (o : Timed)
    → (process_ckin_lock j d now since timeout q).1 ≡ none
    → j.valid_utf8 q.client ≡ true
    → j.valid_utf8 q.user ≡ true
    → is_leaf d q.parent ≡ true
    → All (IsTimely j timeout q.parent q.client since) qs
    → o.now ≤ since + timeout
    → o.request.parent ≡ q.parent
    → equal q.client o.request.client ≡ false
    → let d' = process_all j timeout (process_ckin_lock j d now since timeout q).0 qs in
      (f : CkinLockFail) × ((process_ckin_lock j d' o.now o.later timeout o.request).1 ≡ some f)
unfolding process_ckin_lock expire_stale_locks is_leaf
lock_excludes j timeout d now since q qs o granted vc vu leaf timely h same other =
    let held =
      granted-IsHeld j timeout (expire_stale_locks d now timeout) q since _ granted vc vu leaf in
    let k = process_all-IsHeld j timeout q.parent q.client since _ qs timely held in
    other_refused j timeout q.parent q.client since _ o.now o.later o.request h k same other
