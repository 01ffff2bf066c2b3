-- ===== src/Bisect/Report.antt =====
-- internal/bisect/bisect.go: `Status` and `List`, with the tables blob and event that a list reads. The
-- queries do not fail.
pub mod Placed
pub mod Listed
pub mod Labels
pub mod Agreed
pub mod Blocked
pub mod Steps
mod Tests
use libfossil.Base.{
  ℕ, ◌/◌, Bool, true, false, ◌||◌, Option, none, some, List, [], ◌∷◌, ltb, ◌==◌, if◌then◌else◌,
  Bytes, codes, length, get_elem?, ok, err, panicked, stuck, ◌>>=◌,
}
use libfossil.Base.Int.{ℤ, pos, negsuc}
use libfossil.Path.{Edge, PathStep, shortest}
use libfossil.Bisect.{
  Session, Result, load_endpoints, parse_skip_set, is_id, is_skipped, found_path, path_between,
}

pub record StatusInfo : Type 0 where
  pub good : ℤ
  pub bad : ℤ
  pub log : Bytes
  pub steps : ℕ

pub record ListEntry : Type 0 where
  pub rid : ℕ
  pub uuid : Bytes
  pub date : Bytes
  pub label : Bytes

abbrev pub good_label : Bytes
good_label = codes "GOOD"

abbrev pub bad_label : Bytes
bad_label = codes "BAD"

abbrev pub current_label : Bytes
current_label = codes "CURRENT"

abbrev pub next_label : Bytes
next_label = codes "NEXT"

abbrev pub skip_label : Bytes
skip_label = codes "SKIP"

-- The rids among the keys of the map; no node has a rid below 0.
pub skipped_rids : List ℤ → List ℕ
skipped_rids [] = []
skipped_rids (pos n ∷ ids) = n ∷ skipped_rids ids
skipped_rids (negsuc _ ∷ ids) = skipped_rids ids

-- `path.Shortest(s.db, good, bad, true, skip)`
pub path_avoiding : List Edge → List ℤ → ℤ → ℤ → Result (List PathStep)
unfolding found_path
path_avoiding es skips (pos g) (pos b) = found_path (shortest es g b true (skipped_rids skips))
path_avoiding es skips _ _ = panicked

pub is_unset : ℤ → Bool
is_unset (pos n) = n == 0
is_unset (negsuc _) = false

-- An error of the ends is passed over.
pub ends_or_zero : Result (ℤ × ℤ) → Result (ℤ × ℤ)
ends_or_zero (err _) = ok (pos 0, pos 0)
ends_or_zero r = r

-- `math.Log2` and its truncation are an argument.
module _ (log2 : ℕ → ℕ) where
  pub steps_of : Result (List PathStep) → Result ℕ
  steps_of (ok p) = ok (if ltb 2 (length p) then log2 (length p) else 0)
  steps_of (err _) = ok 0
  steps_of panicked = panicked
  steps_of stuck = stuck

  pub status : List Edge → Session → Result StatusInfo
  unfolding steps_of
  status es s = do
    (good, bad) ← ends_or_zero (load_endpoints s)
    steps ←
        if is_unset good || is_unset bad
        then ok 0
        else steps_of (path_avoiding es (parse_skip_set s) good bad)
    ok (record { good = good; bad = bad; log = s.log; steps = steps })

pub rid_at : List PathStep → ℕ → Result ℕ
rid_at p i = elim (get_elem? p i) [ none ↦ panicked | some step ↦ ok step.rid ]

-- `nextRID`, which stays 0 without a path.
pub next_rid : Result (List PathStep) → Result ℕ
unfolding rid_at
next_rid (ok p) = if ltb 2 (length p) then rid_at p (length p / 2) else ok 0
next_rid (err _) = ok 0
next_rid panicked = panicked
next_rid stuck = stuck

pub label_of : ℤ → ℤ → ℤ → ℕ → List ℤ → ℕ → Bytes
label_of good bad current next skips rid =
    if is_id good rid
    then good_label
    else if is_id bad rid
    then bad_label
    else if is_id current rid
    then current_label
    else if rid == next
    then next_label
    else if is_skipped skips rid
    then skip_label
    else []

-- SELECT ... FROM blob b LEFT JOIN event e ON e.objid=b.rid WHERE b.rid=?
pub record Tables (Time : Type 0) : Type 0 where
  pub blob : List (ℕ × Bytes)
  pub event : List (ℕ × Time)

pub row_for {ℓ} : {A : Type ℓ} → ℕ → List (ℕ × A) → Option A
row_for rid [] = none
row_for rid ((r, a) ∷ rows) = let later = row_for rid rows in if r == rid then some a else later

-- The text of a time, `fmt.Sprintf` of a floating-point number or empty, is an argument.
module _ {Time : Type 0} (date_of : Time → Bytes) where
  pub date_for : Option Time → Bytes
  date_for none = []
  date_for (some t) = date_of t

  pub describe : Tables Time → ℕ → Bytes × Bytes
  describe t rid = elim (row_for rid t.blob) [
    | none ↦ (codes "?", [])
    | some uuid ↦ (uuid, date_for (row_for rid t.event))
  ]

  pub entry_of : Tables Time → (ℕ → Bytes) → PathStep → ListEntry
  entry_of t label step = record {
    rid = step.rid;
    uuid = (describe t step.rid).0;
    date = (describe t step.rid).1;
    label = label step.rid;
  }

  pub entries_of : Tables Time → (ℕ → Bytes) → List PathStep → List ListEntry
  entries_of t label [] = []
  entries_of t label (step ∷ p) = entry_of t label step ∷ entries_of t label p

  pub list : Tables Time → List Edge → Session → ℤ → Result (List ListEntry)
  list t es s current = do
    (good, bad) ← load_endpoints s
    p ← path_between es good bad
    let skips = parse_skip_set s
    next ← next_rid (path_avoiding es skips good bad)
    ok (entries_of t (label_of good bad current next skips) p)
