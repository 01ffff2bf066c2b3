-- ===== src/Merge/Tests.antt =====
-- Runs of internal/merge/threeway.go, and the theorems about it at concrete inputs.
use mathlib.Core.List.{Permᴰ}
use libfossil.Base.{◌≡◌, ◌≤◌, length, refl, arith, true, List, [], ◌∷◌, ◌++◌, Bytes, codes, inl}
use libfossil.Merge.Lines.{split_lines, split_after, drop_last_empty, join}
use libfossil.Merge.Diff.{
  diff_lines, diff_loop, longest_common_subseq, backtrack, fill_table, fill_row, entry, row_of,
}
use libfossil.Merge.Diff.Rebuild.{IsMatching, IsRising, apply_hunks, apply_hunks-diff_lines}
use libfossil.Merge.Diff.Longest.{empty, chosen, passed, longest_common_subseq_lem}
use libfossil.Merge.Hunks.{
  merge3, merge_loop, before, hunks_overlap, handle_overlapping_hunks, same_hunk_content,
  same_lines, conflict_lines, conflict_of, closing, ends_line,
}
use libfossil.Merge.Diff.{Hunk}
use libfossil.Merge.Hunks.Apart.{interleave, Disjoint}
use libfossil.Merge.Hunks.Clean.{merge3-interleave}
use libfossil.Merge.Hunks.Meeting.{insertion, replacement, merge3-replacement}
use libfossil.Merge.ThreeWay.{merge, merge-Disjoint}

abbrev four_lines : Bytes
four_lines = codes "a\nb\nc\nd\n"

abbrev first_changed : Bytes
first_changed = codes "X\nb\nc\nd\n"

abbrev last_dropped : Bytes
last_dropped = codes "a\nb\nc\n"

split_run : split_lines (codes "a\nb") ≡ codes "a\n" ∷ codes "b" ∷ []
unfolding split_lines split_after drop_last_empty
split_run = refl

diff_run :
    diff_lines (codes "a" ∷ codes "b" ∷ []) (codes "b" ∷ codes "c" ∷ [])
    ≡ record { base_start = 0; base_end = 1; lines = [] }
      ∷ record { base_start = 2; base_end = 2; lines = codes "c" ∷ [] }
      ∷ []
unfolding diff_lines diff_loop longest_common_subseq backtrack fill_table fill_row entry row_of
diff_run = refl

abbrev merge_run_result : Bytes
merge_run_result = codes "X\nb\nc\n"

apply_hunks-diff_lines_example :
    apply_hunks
      (split_lines four_lines)
      0
      (diff_lines (split_lines four_lines) (split_lines first_changed))
    ≡ split_lines first_changed
apply_hunks-diff_lines_example =
    apply_hunks-diff_lines (split_lines four_lines) (split_lines first_changed)

abbrev ten : List Bytes
ten = codes "a" ∷ codes "b" ∷ codes "c" ∷ []

abbrev x_first : List Hunk
x_first = insertion 0 (codes "x" ∷ []) ∷ []

abbrev y_third : List Hunk
y_third = insertion 2 (codes "y" ∷ []) ∷ []

merge3-interleave_example :
    (merge3 ten x_first y_third
      ≡ record { lines = apply_hunks ten 0 (interleave x_first y_third); conflicts = [] })
    × IsRising (length ten) 0 (interleave x_first y_third)
    × Permᴰ (interleave x_first y_third) (x_first ++ y_third)
merge3-interleave_example =
    merge3-interleave ten x_first y_third (omega arith) (omega arith) ((inl (omega arith), tt), tt)

changes_Disjoint :
    Disjoint
      (diff_lines (split_lines four_lines) (split_lines first_changed))
      (diff_lines (split_lines four_lines) (split_lines last_dropped))
unfolding diff_lines diff_loop longest_common_subseq backtrack fill_table fill_row entry row_of
    split_lines split_after drop_last_empty
changes_Disjoint = ((inl (omega arith), tt), tt)

merge-Disjoint_example :
    (merge four_lines first_changed last_dropped ≡ record {
      content = join (
          apply_hunks (split_lines four_lines) 0 (
            interleave
              (diff_lines (split_lines four_lines) (split_lines first_changed))
              (diff_lines (split_lines four_lines) (split_lines last_dropped))));
      conflicts = [];
      clean = true;
    })
    × IsRising (length (split_lines four_lines)) 0 (
        interleave
          (diff_lines (split_lines four_lines) (split_lines first_changed))
          (diff_lines (split_lines four_lines) (split_lines last_dropped)))
    × Permᴰ
        (interleave
          (diff_lines (split_lines four_lines) (split_lines first_changed))
          (diff_lines (split_lines four_lines) (split_lines last_dropped)))
        (diff_lines (split_lines four_lines) (split_lines first_changed)
          ++ diff_lines (split_lines four_lines) (split_lines last_dropped))
merge-Disjoint_example =
    merge-Disjoint four_lines first_changed last_dropped refl refl refl changes_Disjoint

replaced_line_returns :
    merge3 ten (replacement 1 2 (codes "X" ∷ []) ∷ []) (insertion 1 (codes "N" ∷ []) ∷ [])
    ≡ record {
      lines = codes "a" ∷ codes "X" ∷ codes "N" ∷ codes "b" ∷ codes "c" ∷ [];
      conflicts = [];
    }
replaced_line_returns =
    merge3-replacement ten (codes "X" ∷ []) (codes "N" ∷ []) 1 2 (omega arith) (omega arith)

-- The local side replaces all lines; the remote one changes two of them. Behind the conflict the
-- second remote hunk sets the position back, and base lines that the local side took away return.
abbrev five : List Bytes
five = codes "a\n" ∷ codes "b\n" ∷ codes "c\n" ∷ codes "d\n" ∷ codes "e\n" ∷ []

lines_return :
    (merge3 five (record { base_start = 0; base_end = 5; lines = codes "L\n" ∷ [] } ∷ []) (
      record { base_start = 1; base_end = 2; lines = codes "B\n" ∷ [] }
      ∷ record { base_start = 3; base_end = 4; lines = codes "D\n" ∷ [] }
      ∷ [])).lines
    ≡ codes "<<<<<<< LOCAL\n"
      ∷ codes "L\n"
      ∷ codes "=======\n"
      ∷ codes "B\n"
      ∷ codes ">>>>>>> REMOTE\n"
      ∷ codes "D\n"
      ∷ codes "e\n"
      ∷ []
unfolding merge3 merge_loop before hunks_overlap handle_overlapping_hunks same_hunk_content
    same_lines conflict_lines conflict_of closing ends_line
lines_return = refl

abbrev kept_lines : List Bytes
kept_lines = codes "b" ∷ codes "d" ∷ []

abbrev older : List Bytes
older = codes "a" ∷ codes "b" ∷ codes "c" ∷ codes "d" ∷ []

abbrev newer : List Bytes
newer = codes "b" ∷ codes "x" ∷ codes "d" ∷ []

longest_common_subseq_lem_example :
    IsMatching older newer 0 0 (longest_common_subseq older newer)
    × (length kept_lines ≤ length (longest_common_subseq older newer))
longest_common_subseq_lem_example =
    longest_common_subseq_lem kept_lines older newer
      (passed (codes "a") (chosen (codes "b") (passed (codes "c") (chosen (codes "d") (empty [])))))
      (chosen (codes "b") (passed (codes "x") (chosen (codes "d") (empty []))))
