-- ===== src/Merge/Hunks.antt =====
-- internal/merge/threeway.go: `merge3` on two lists of hunks.
pub mod Apart
pub mod Clean
pub mod Meeting
use libfossil.Base.{
  ℕ, zero, suc, ◌+◌, ◌-◌, ◌≤◌, ◌<◌, ◌≡◌, refl, ap, ◌∙◌, sym, arith, Bool, true, false, not, ◌&&◌,
  ◌||◌, Option, none, some, List, [], ◌∷◌, ◌++◌, leb, ltb, ◌==◌, if◌then◌else◌, Bytes, codes,
  length, take, drop, equal,
}
use libfossil.Merge.Lines.{join}
use libfossil.Merge.Diff.{Hunk}

pub record Conflict : Type 0 where
  pub start_line : ℕ
  pub end_line : ℕ
  pub local : Bytes
  pub remote : Bytes
  pub base : Bytes

-- The lines of the output so far, and the conflicts.
pub record Merged : Type 0 where
  pub lines : List Bytes
  pub conflicts : List Conflict

abbrev pub min : ℕ → ℕ → ℕ
min a b = if ltb a b then a else b

abbrev pub max : ℕ → ℕ → ℕ
max a b = if ltb b a then a else b

unfoldable pub hunks_overlap : Hunk → Hunk → Bool
hunks_overlap a b = ltb a.base_start b.base_end && ltb b.base_start a.base_end

-- The loop of `sameHunkContent`, with its test of the lengths.
unfoldable pub same_lines : List Bytes → List Bytes → Bool
same_lines [] [] = true
same_lines (a ∷ rest) (b ∷ bs) = let same = same_lines rest bs in equal a b && same
same_lines _ _ = false

unfoldable pub same_hunk_content : Hunk → Hunk → Bool
unfolding same_lines
same_hunk_content a b = same_lines a.lines b.lines

-- `strings.HasSuffix(line, "\n")`
unfoldable pub ends_line : Bytes → Bool
ends_line [] = false
ends_line (c ∷ []) = c == b'\n'
ends_line (c ∷ cs) = ends_line cs

-- A line break, where the last line has none.
unfoldable pub closing : List Bytes → List Bytes
unfolding ends_line
closing [] = []
closing (line ∷ []) = if ends_line line then [] else (b'\n' ∷ []) ∷ []
closing (line ∷ lines) = closing lines

-- The two versions between their markers.
unfoldable pub conflict_lines : Hunk → Hunk → List Bytes
unfolding closing
conflict_lines lh rh =
    codes "<<<<<<< LOCAL\n"
    ∷ (lh.lines
        ++ closing lh.lines
        ++ codes "=======\n" ∷ rh.lines
        ++ closing rh.lines
        ++ codes ">>>>>>> REMOTE\n" ∷ [])

unfoldable pub conflict_of : List Bytes → Hunk → Hunk → ℕ → Conflict
conflict_of base lh rh bi =
    let start = min lh.base_start rh.base_start in
    let end = max lh.base_end rh.base_end in
    record {
      start_line = bi + 1;
      end_line = end;
      local = join lh.lines;
      remote = join rh.lines;
      base = if ltb start end then join (take (end - start) (drop start base)) else [];
    }

-- What the loop has appended in one round, in front of what the later rounds append.
abbrev pub after : List Bytes → Merged → Merged
after lines m = record { lines = lines ++ m.lines; conflicts = m.conflicts }

unfoldable pub handle_overlapping_hunks : List Bytes → Hunk → Hunk → ℕ → Merged → Merged
unfolding same_hunk_content conflict_lines conflict_of
handle_overlapping_hunks base lh rh bi m =
    if same_hunk_content lh rh then after lh.lines m else record {
      lines = conflict_lines lh rh ++ m.lines;
      conflicts = conflict_of base lh rh bi ∷ m.conflicts;
    }

-- The base lines before the next hunk, from `bi`.
unfoldable pub before : List Bytes → ℕ → ℕ → List Bytes
before base bi start = if ltb bi start then take (start - bi) (drop bi base) else []

-- The loop of `merge3`, on the hunks from `li` and from `ri` on. Each round takes a hunk or ends.
unfoldable pub merge_loop : List Bytes → ℕ → List Hunk → List Hunk → Merged
unfolding before
merge_loop base bi [] [] = record {
  lines = if ltb bi (length base) then drop bi base else [];
  conflicts = [];
}
merge_loop base bi (lh ∷ ls) [] =
    let next = min lh.base_start (length base) in
    let rest = merge_loop base lh.base_end ls [] in
    if ltb (length base) bi
    then record { lines = []; conflicts = [] }
    else after (before base bi next) (after lh.lines rest)
merge_loop base bi [] (rh ∷ rs) =
    let next = min rh.base_start (length base) in
    let rest = merge_loop base rh.base_end [] rs in
    if ltb (length base) bi
    then record { lines = []; conflicts = [] }
    else after (before base bi next) (after rh.lines rest)
merge_loop base bi (lh ∷ ls) (rh ∷ rs) =
    let next = min rh.base_start (min lh.base_start (length base)) in
    let both = merge_loop base (max lh.base_end rh.base_end) ls rs in
    let local = merge_loop base lh.base_end ls (rh ∷ rs) in
    let remote = merge_loop base rh.base_end (lh ∷ ls) rs in
    if ltb (length base) bi
    then record { lines = []; conflicts = [] }
    else after (before base bi next) (
        if hunks_overlap lh rh
        then handle_overlapping_hunks base lh rh (max bi next) both
        else if leb lh.base_start rh.base_start
        then after lh.lines local
        else after rh.lines remote)

unfoldable pub merge3 : List Bytes → List Hunk → List Hunk → Merged
unfolding merge_loop
merge3 base local_hunks remote_hunks = merge_loop base 0 local_hunks remote_hunks
