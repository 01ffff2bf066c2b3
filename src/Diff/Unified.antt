-- ===== src/Diff/Unified.antt =====
-- internal/diff/diff.go: `Unified`, `formatUnified` and `Stat`.
pub mod Whole
use libfossil.Base.{
  ℕ, suc, ◌+◌, Bool, true, false, not, ◌&&◌, ◌||◌, none, some, Option, List, [], ◌∷◌, ◌++◌, ◌==◌,
  if◌then◌else◌, Bytes, codes, length, ok, panicked, ◌>>=◌,
}
use libfossil.Text.{format_nat}
use libfossil.Diff.{OpKind, op_equal, op_insert, op_delete, EditOp, split_lines, is_binary}
use libfossil.Diff.Myers.{Result, myers}
use libfossil.Diff.Hunks.{Hunk, build_hunks, src_width, dst_width}

pub record Options : Type 0 where
  pub context_lines : ℕ
  pub src_name : Bytes
  pub dst_name : Bytes

pub record DiffStat : Type 0 where
  pub insertions : ℕ
  pub deletions : ℕ
  pub binary : Bool

abbrev no_newline_marker : Bytes
no_newline_marker = codes "\\ No newline at end of file\n"

unfoldable sign_of : OpKind → ℕ
sign_of op_equal = b' '
sign_of op_delete = b'-'
sign_of op_insert = b'+'

-- A hunk's lines; the flags say whether the marker is still to be written for either side, behind
-- the last operation that has a line on this side.
unfoldable has_side : (OpKind → ℕ) → List EditOp → Bool
has_side width [] = false
has_side width (o ∷ ops) = width o.kind == 1 || has_side width ops

unfoldable marker_if : Bool → Bytes
marker_if true = no_newline_marker
marker_if false = []

unfoldable format_ops : Bool → Bool → List EditOp → Bytes
format_ops src_mark dst_mark [] = []
format_ops src_mark dst_mark (o ∷ ops) =
    let rest = format_ops src_mark dst_mark ops in
    (sign_of o.kind ∷ (o.text ++ b'\n' ∷ []))
    ++ (marker_if (src_mark && src_width o.kind == 1 && not (has_side src_width ops))
        ++ (marker_if (dst_mark && dst_width o.kind == 1 && not (has_side dst_width ops)) ++ rest))

unfoldable format_header : Hunk → Bytes
format_header h =
    codes "@@ -"
    ++ (format_nat h.src_start
        ++ (b','
            ∷ (format_nat h.src_count
                ++ (codes " +"
                    ++ (format_nat h.dst_start
                        ++ (b',' ∷ (format_nat h.dst_count ++ codes " @@\n")))))))

unfoldable format_hunks : Bool → Bool → ℕ → ℕ → List Hunk → Bytes
format_hunks src_no_nl dst_no_nl src_total dst_total [] = []
format_hunks src_no_nl dst_no_nl src_total dst_total (h ∷ hs) =
    let rest = format_hunks src_no_nl dst_no_nl src_total dst_total hs in
    let is_last = length hs == 0 in
    format_header h
    ++ (format_ops (is_last && src_no_nl && h.src_start + h.src_count == suc src_total)
          (is_last && dst_no_nl && h.dst_start + h.dst_count == suc dst_total) h.ops
        ++ rest)

unfoldable name_or : Bytes → Bytes → Bytes
name_or [] default = default
name_or (c ∷ cs) default = c ∷ cs

unfoldable format_names : Bytes → Bytes → Bytes
format_names src_name dst_name =
    codes "--- "
    ++ (name_or src_name (codes "a")
        ++ (b'\n' ∷ (codes "+++ " ++ (name_or dst_name (codes "b") ++ b'\n' ∷ []))))

pub format_unified : List Hunk → Bytes → Bytes → Bool → Bool → ℕ → ℕ → Bytes
format_unified [] src_name dst_name src_no_nl dst_no_nl src_total dst_total = []
format_unified (h ∷ hs) src_name dst_name src_no_nl dst_no_nl src_total dst_total =
    format_names src_name dst_name ++ format_hunks src_no_nl dst_no_nl src_total dst_total (h ∷ hs)

pub all_equal : List EditOp → Bool
all_equal [] = true
all_equal (o ∷ ops) = src_width o.kind == 1 && dst_width o.kind == 1 && all_equal ops

pub unified_hunks : Option (List Hunk) → (List Hunk → Bytes) → Result Bytes
unified_hunks none format = panicked
unified_hunks (some hs) format = ok (format hs)

-- A negative number of lines of context, which panics, is left out.
pub unified : Bytes → Bytes → Options → Result Bytes
unified a b opts =
    if is_binary a || is_binary b
    then ok (
        format_names opts.src_name opts.dst_name
        ++ codes "cannot compute difference between binary files\n")
    else (let src = split_lines a in
        let dst = split_lines b in
        do
          ops ← myers src.0 dst.0
          if all_equal ops
              then ok []
              else unified_hunks (build_hunks ops opts.context_lines) (λ (hs : List Hunk).
                format_unified hs opts.src_name opts.dst_name (not src.1) (not dst.1) (length src.0)
                  (length dst.0)))

unfoldable pub count_kind : (OpKind → ℕ) → List EditOp → ℕ
count_kind other [] = 0
count_kind other (o ∷ ops) = (if other o.kind == 0 then 1 else 0) + count_kind other ops

-- An insertion has no line on the first side, a deletion none on the second.
unfoldable pub stat : Bytes → Bytes → Result DiffStat
stat a b =
    if is_binary a || is_binary b
    then ok (record { insertions = 0; deletions = 0; binary = true })
    else (do
      ops ← myers (split_lines a).0 (split_lines b).0
      ok (record {
        insertions = count_kind src_width ops;
        deletions = count_kind dst_width ops;
        binary = false;
      }))
