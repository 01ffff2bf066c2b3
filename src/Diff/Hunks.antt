-- ===== src/Diff/Hunks.antt =====
-- internal/diff/diff.go: the changes of an edit script, and the hunks around them.
pub mod Changes
mod Sides
pub mod Patch
use libfossil.Base.{
  ℕ, zero, suc, ◌+◌, ◌*◌, ◌-◌, Bool, true, false, Option, none, some, List, [], ◌∷◌, ◌++◌, ltb, leb,
  ◌==◌, if◌then◌else◌, Bytes, length, get_elem?, take, drop, min,
}
use libfossil.Diff.{OpKind, op_equal, op_insert, op_delete, EditOp}

pub record ChangeRange : Type 0 where
  pub start : ℕ
  pub end : ℕ

pub record Hunk : Type 0 where
  pub src_start : ℕ
  pub src_count : ℕ
  pub dst_start : ℕ
  pub dst_count : ℕ
  pub ops : List EditOp

unfoldable pub reverse_onto {ℓ} : {A : Type ℓ} → List A → List A → List A
reverse_onto [] ys = ys
reverse_onto (x ∷ xs) ys = reverse_onto xs (x ∷ ys)

-- The slice of ranges is kept with its last element in front: an operation at `i` starts a range, or
-- ends the last one.
unfoldable pub add_change : ℕ → List ChangeRange → List ChangeRange
add_change i [] = record { start = i; end = suc i } ∷ []
add_change i (c ∷ cs) =
    if ltb c.end i
    then record { start = i; end = suc i } ∷ c ∷ cs
    else record { start = c.start; end = suc i } ∷ cs

unfoldable pub note_change : OpKind → ℕ → List ChangeRange → List ChangeRange
note_change op_equal i changes = changes
note_change op_insert i changes = add_change i changes
note_change op_delete i changes = add_change i changes

unfoldable pub find_loop : ℕ → List EditOp → List ChangeRange → List ChangeRange
find_loop i [] changes = changes
find_loop i (o ∷ ops) changes = find_loop (suc i) ops (note_change o.kind i changes)

unfoldable pub find_changes : List EditOp → List ChangeRange
find_changes ops = reverse_onto (find_loop 0 ops []) []

-- `prev` is the last of the merged ranges.
unfoldable pub merge_loop : ℕ → ChangeRange → List ChangeRange → List ChangeRange → List ChangeRange
merge_loop context_lines prev merged [] = prev ∷ merged
merge_loop context_lines prev merged (c ∷ changes) =
    let joined =
      merge_loop context_lines (record { start = prev.start; end = c.end }) merged changes in
    let apart = merge_loop context_lines c (prev ∷ merged) changes in
    if leb c.start (prev.end + 2 * context_lines) then joined else apart

unfoldable pub merge_adjacent_changes : List ChangeRange → ℕ → List ChangeRange
merge_adjacent_changes [] context_lines = []
merge_adjacent_changes (c ∷ changes) context_lines =
    reverse_onto (merge_loop context_lines c [] changes) []

-- How many lines of the two sides an operation stands for.
unfoldable pub src_width : OpKind → ℕ
src_width op_equal = 1
src_width op_delete = 1
src_width op_insert = 0

unfoldable pub dst_width : OpKind → ℕ
dst_width op_equal = 1
dst_width op_delete = 0
dst_width op_insert = 1

-- `srcPos` and `dstPos`: the number of lines in front of each operation.
unfoldable pub positions : (OpKind → ℕ) → ℕ → List EditOp → List ℕ
positions width n [] = []
positions width n (o ∷ ops) = n ∷ positions width (n + width o.kind) ops

unfoldable pub count : (OpKind → ℕ) → List EditOp → ℕ
count width [] = 0
count width (o ∷ ops) = width o.kind + count width ops

-- The hunk of a part of the script, from the positions of its start; `none` is the panic on an index
-- out of range.
unfoldable pub make_hunk : List EditOp → Option ℕ → Option ℕ → Option Hunk
make_hunk part (some s) (some d) = some (record {
  src_start = suc s;
  src_count = count src_width part;
  dst_start = suc d;
  dst_count = count dst_width part;
  ops = part;
})
make_hunk part _ _ = none

unfoldable pub hunk_of : List EditOp → ℕ → ChangeRange → Option Hunk
hunk_of ops context_lines cr =
    let start = cr.start - context_lines in
    let end = min (cr.end + context_lines) (length ops) in
    make_hunk (take (end - start) (drop start ops)) (get_elem? (positions src_width 0 ops) start)
      (get_elem? (positions dst_width 0 ops) start)

unfoldable pub add_hunk : Option Hunk → Option (List Hunk) → Option (List Hunk)
add_hunk (some h) (some hs) = some (h ∷ hs)
add_hunk _ _ = none

unfoldable pub hunks_of : List EditOp → ℕ → List ChangeRange → Option (List Hunk)
hunks_of ops context_lines [] = some []
hunks_of ops context_lines (cr ∷ merged) =
    add_hunk (hunk_of ops context_lines cr) (hunks_of ops context_lines merged)

unfoldable pub build_hunks : List EditOp → ℕ → Option (List Hunk)
build_hunks ops context_lines =
    hunks_of ops context_lines (merge_adjacent_changes (find_changes ops) context_lines)
