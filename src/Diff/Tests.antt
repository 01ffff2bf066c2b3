-- ===== src/Diff/Tests.antt =====
-- Runs of internal/diff, and the theorems about it at concrete texts and scripts.
use libfossil.Base.{◌≤◌, ◌≡◌, refl, false, ◌||◌, List, [], ◌∷◌, Bytes, codes, ok}
use libfossil.Text.Split.{begin_first}
use libfossil.Diff.{
  OpKind, op_equal, op_insert, op_delete, EditOp, sources, targets, edits, is_binary, split_lines,
  replace_crlf, replace_cr, split_breaks, drop_empty_last, ends_with_newline,
}
use libfossil.Diff.Myers.{
  myers, rounds, round, start_x, moves_down, entry, snake, backtrack, unwind, walk_back, unmove,
  same_lines,
}
use libfossil.Diff.Myers.Total.{myers-sides}
use libfossil.Diff.Myers.Least.{myers-least}
use libfossil.Diff.Hunks.{src_width, dst_width}
use libfossil.Diff.Unified.{count_kind, Options, unified, stat}
use libfossil.Diff.Unified.Whole.{IsPatch, unified-IsPatch}

myers-sides_example :
    (ops : List EditOp) × (myers (codes "a" ∷ codes "b" ∷ []) (codes "b" ∷ codes "x" ∷ []) ≡ ok ops)
    × (sources ops ≡ codes "a" ∷ codes "b" ∷ [])
    × (targets ops ≡ codes "b" ∷ codes "x" ∷ [])
myers-sides_example = myers-sides (codes "a" ∷ codes "b" ∷ []) (codes "b" ∷ codes "x" ∷ [])

is_text : (is_binary (codes "p\nq\nr") || is_binary (codes "p\nr\n")) ≡ false
unfolding is_binary
is_text = refl

abbrev options : Options
options = record { context_lines = 3; src_name = codes "a"; dst_name = codes "b" }

unified-IsPatch_example :
    IsPatch
      (codes "p\nq\nr")
      (codes "p\nr\n")
      options
      (unified (codes "p\nq\nr") (codes "p\nr\n") options)
unified-IsPatch_example = unified-IsPatch (codes "p\nq\nr") (codes "p\nr\n") options is_text

abbrev op : OpKind → Bytes → EditOp
op k text = record { kind = k; text = text }

abbrev short : List EditOp
short = op op_delete (codes "a") ∷ op op_equal (codes "b") ∷ op op_insert (codes "x") ∷ []

-- Every line is deleted, and every line is inserted.
abbrev long : List EditOp
long =
    op op_delete (codes "a")
    ∷ op op_delete (codes "b")
    ∷ op op_insert (codes "b")
    ∷ op op_insert (codes "x")
    ∷ []

myers_run : myers (codes "a" ∷ codes "b" ∷ []) (codes "b" ∷ codes "x" ∷ []) ≡ ok short
unfolding myers rounds round start_x moves_down entry snake backtrack unwind walk_back unmove
    same_lines
myers_run = refl

myers-least_example : edits short ≤ edits long
myers-least_example =
    myers-least (codes "a" ∷ codes "b" ∷ []) (codes "b" ∷ codes "x" ∷ []) short long myers_run refl
      refl

stat_run :
    stat (codes "p\nq\nr") (codes "p\nr\n")
    ≡ ok (record { insertions = 0; deletions = 1; binary = false })
unfolding stat is_binary split_lines replace_crlf replace_cr split_breaks begin_first
    drop_empty_last ends_with_newline myers rounds round start_x moves_down entry snake backtrack
    unwind walk_back unmove same_lines count_kind src_width dst_width
stat_run = refl
