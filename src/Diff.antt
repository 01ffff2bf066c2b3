-- ===== src/Diff.antt =====
-- internal/diff/diff.go: the lines of a text, and edit scripts.
pub mod Myers
pub mod Hunks
pub mod Unified
mod Tests
use libfossil.Base.{
  ℕ, ◌+◌, Bool, true, false, ◌&&◌, ◌||◌, List, [], ◌∷◌, ◌==◌, if◌then◌else◌, Bytes,
}
use libfossil.Text.Split.{begin_first}

pub data OpKind : Type 0 where
  op_equal op_insert op_delete : OpKind

pub record EditOp : Type 0 where
  pub kind : OpKind
  pub text : Bytes

unfoldable pub replace_crlf : Bytes → Bytes
replace_crlf [] = []
replace_crlf (c ∷ []) = c ∷ []
replace_crlf (c ∷ d ∷ cs) =
    let behind = replace_crlf cs in
    let next = replace_crlf (d ∷ cs) in
    if c == b'\r' && d == b'\n' then b'\n' ∷ behind else c ∷ next

unfoldable pub replace_cr : Bytes → Bytes
replace_cr [] = []
replace_cr (c ∷ cs) = (if c == b'\r' then b'\n' else c) ∷ replace_cr cs

-- `strings.Split(s, "\n")`
unfoldable pub split_breaks : Bytes → List Bytes
split_breaks [] = [] ∷ []
split_breaks (c ∷ cs) =
    let more = split_breaks cs in if c == b'\n' then [] ∷ more else begin_first c more

unfoldable pub ends_with_newline : Bytes → Bool
ends_with_newline [] = false
ends_with_newline (c ∷ []) = c == b'\n'
ends_with_newline (c ∷ d ∷ cs) = ends_with_newline (d ∷ cs)

-- Without a last line that is empty.
unfoldable pub drop_empty_last : List Bytes → List Bytes
drop_empty_last [] = []
drop_empty_last ([] ∷ []) = []
drop_empty_last ((c ∷ cs) ∷ []) = (c ∷ cs) ∷ []
drop_empty_last (l ∷ k ∷ ls) = l ∷ drop_empty_last (k ∷ ls)

-- The lines, and whether the text ends with a line break or is empty.
unfoldable pub split_lines : Bytes → List Bytes × Bool
split_lines [] = ([], true)
split_lines (c ∷ cs) =
    let s = replace_cr (replace_crlf (c ∷ cs)) in
    elim (drop_empty_last (split_breaks s)) [
      | [] ↦ ([], true)
      | l ∷ ls ↦ (l ∷ ls, ends_with_newline s)
    ]

unfoldable pub is_binary : Bytes → Bool
is_binary [] = false
is_binary (c ∷ cs) = c == 0 || is_binary cs

-- The lines on the two sides of a script.
abbrev pub source_line : OpKind → Bytes → List Bytes → List Bytes
source_line op_equal l ls = l ∷ ls
source_line op_delete l ls = l ∷ ls
source_line op_insert l ls = ls

abbrev pub target_line : OpKind → Bytes → List Bytes → List Bytes
target_line op_equal l ls = l ∷ ls
target_line op_insert l ls = l ∷ ls
target_line op_delete l ls = ls

abbrev pub sources : List EditOp → List Bytes
sources [] = []
sources (o ∷ ops) = source_line o.kind o.text (sources ops)

abbrev pub targets : List EditOp → List Bytes
targets [] = []
targets (o ∷ ops) = target_line o.kind o.text (targets ops)

-- The number of insertions and deletions of a script.
abbrev pub edit_of : OpKind → ℕ
edit_of op_equal = 0
edit_of op_insert = 1
edit_of op_delete = 1

abbrev pub edits : List EditOp → ℕ
edits [] = 0
edits (o ∷ ops) = edit_of o.kind + edits ops
