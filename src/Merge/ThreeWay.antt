-- ===== src/Merge/ThreeWay.antt =====
-- internal/merge/threeway.go: `Merge` of three texts, none of which is nil.
use mathlib.Core.List.{Permᴰ}
use libfossil.Base.{
  ◌≡◌, Bool, true, false, List, [], ◌++◌, ◌==◌, if◌then◌else◌, Bytes, length, equal,
}
use libfossil.Merge.Lines.{split_lines, join}
use libfossil.Merge.Diff.{Hunk, diff_lines}
use libfossil.Merge.Diff.Rebuild.{apply_hunks, IsRising, diff_lines-IsRising}
use libfossil.Merge.Hunks.{Conflict, Merged, merge3}
use libfossil.Merge.Hunks.Apart.{interleave, Disjoint}
use libfossil.Merge.Hunks.Clean.{merge3-interleave}

pub record Result : Type 0 where
  pub content : Bytes
  pub conflicts : List Conflict
  pub clean : Bool

-- Behind the loop of `merge3`.
unfoldable pub result_of : Merged → Result
result_of m = record {
  content = join m.lines;
  conflicts = m.conflicts;
  clean = length m.conflicts == 0;
}

-- The fast paths, and the merge of the two lists of hunks.
unfoldable pub merge : Bytes → Bytes → Bytes → Result
unfolding result_of
merge base local remote =
    let base_lines = split_lines base in
    let local_diff = diff_lines base_lines (split_lines local) in
    let remote_diff = diff_lines base_lines (split_lines remote) in
    if equal local remote
    then record { content = local; conflicts = []; clean = true }
    else if equal base local
    then record { content = remote; conflicts = []; clean = true }
    else if equal base remote
    then record { content = local; conflicts = []; clean = true }
    else result_of (merge3 base_lines local_diff remote_diff)

abbrev hunks_of : Bytes → Bytes → List Hunk
hunks_of base text = diff_lines (split_lines base) (split_lines text)

-- Three texts of which no two are equal, where each two changes of the local and of the remote one
-- stand apart (the local one ends no later than the remote one starts, or the remote one starts
-- earlier and ends no later than the local one starts), are merged clean: the content is the base
-- with the changes of both applied in the order of their starts, all of them and no other; in this
-- order each starts no earlier than the one before it ends, so that all are applied at their
-- places.
pub merge-Disjoint :
    (base local remote : Bytes)
    → equal local remote ≡ false
    → equal base local ≡ false
    → equal base remote ≡ false
    → Disjoint
        (diff_lines (split_lines base) (split_lines local))
        (diff_lines (split_lines base) (split_lines remote))
    → (merge base local remote ≡ record {
      content = join (
          apply_hunks (split_lines base) 0 (
            interleave
              (diff_lines (split_lines base) (split_lines local))
              (diff_lines (split_lines base) (split_lines remote))));
      conflicts = [];
      clean = true;
    })
      × IsRising (length (split_lines base)) 0 (
          interleave
            (diff_lines (split_lines base) (split_lines local))
            (diff_lines (split_lines base) (split_lines remote)))
      × Permᴰ
          (interleave
            (diff_lines (split_lines base) (split_lines local))
            (diff_lines (split_lines base) (split_lines remote)))
          (diff_lines (split_lines base) (split_lines local)
            ++ diff_lines (split_lines base) (split_lines remote))
unfolding merge
merge-Disjoint base local remote p q r d =
    let (merged, rising, all) =
      merge3-interleave (split_lines base) (hunks_of base local) (hunks_of base remote)
        (diff_lines-IsRising (split_lines base) (split_lines local))
        (diff_lines-IsRising (split_lines base) (split_lines remote)) d in
    (rw (p, q, r, merged), rising, all)
