-- ===== src/Merge/Hunks/Meeting.antt =====
-- internal/merge/threeway.go: `merge3` on two hunks that start at one line.
use libfossil.Base.{
  ℕ, ◌+◌, ◌-◌, ◌≤◌, ◌<◌, ◌≡◌, refl, ◌∙◌, arith, true, List, [], ◌∷◌, ◌++◌, leb, Bytes, length, take,
  drop, inl,
}
use libfossil.Merge.Diff.{Hunk}
use libfossil.Merge.Diff.Rebuild.{apply_hunks, IsRising}
use libfossil.Merge.Hunks.{hunks_overlap, merge3, merge_loop}
use libfossil.Merge.Hunks.Apart.{interleave}
use libfossil.Merge.Hunks.Clean.{
  before-take, local_first, remote_round, last_round, merge3-interleave,
}

-- A hunk that adds lines in front of line `k` and takes none away.
abbrev pub insertion : ℕ → List Bytes → Hunk
insertion k added = record { base_start = k; base_end = k; lines = added }

leb_refl : (k : ℕ) → leb k k ≡ true
leb_refl k = ground arith

none_before : (k : ℕ) → k - 0 ≡ k
none_before k = omega arith

none_between : (k : ℕ) → k - k ≡ 0
none_between k = omega arith

from_start : (k : ℕ) → 0 + k ≡ k
from_start k = omega arith

stays : (k : ℕ) → k + 0 ≡ k
stays k = omega arith

nothing_before : (k e : ℕ) → k < e → k - e ≡ 0
nothing_before k e h = omega arith

-- Two insertions at one place of the base are no conflict for `merge3`, whatever they add: the output
-- has the local lines and behind them the remote ones.
pub merge3-insertion :
    (base xs ys : List Bytes) (k : ℕ)
    → k ≤ length base
    → merge3 base (insertion k xs ∷ []) (insertion k ys ∷ [])
      ≡ record { lines = take k base ++ (xs ++ (ys ++ drop k base)); conflicts = [] }
unfolding hunks_overlap
merge3-insertion base xs ys k h =
    let one : (zs : List Bytes) → IsRising (length base) 0 (insertion k zs ∷ []) =
      λ zs. (omega arith, omega arith, h, tt) in
    (merge3-interleave base (insertion k xs ∷ []) (insertion k ys ∷ []) (one xs) (one ys)
      ((inl (omega arith), tt), tt)).0
    ∙ rw (leb_refl k, interleave, apply_hunks)
        (rw (none_before k, from_start k, none_between k, stays k) refl)

-- A hunk that puts lines in the place of those from line `k` to line `e`.
abbrev pub replacement : ℕ → ℕ → List Bytes → Hunk
replacement k e put = record { base_start = k; base_end = e; lines = put }

merge_loop-replacement :
    (base xs ys : List Bytes) (k e : ℕ)
    → k < e
    → e ≤ length base
    → merge_loop base 0 (replacement k e xs ∷ []) (insertion k ys ∷ [])
      ≡ record { lines = take k base ++ (xs ++ (ys ++ drop k base)); conflicts = [] }
unfolding hunks_overlap
merge_loop-replacement base xs ys k e h w =
    local_first base 0 (replacement k e xs) (insertion k ys) [] [] (omega arith) (ground arith)
      (omega arith) (leb_refl k)
    ∙ rw
        (
          remote_round base e (insertion k ys) [] w (omega arith),
          last_round base k,
          before-take base 0 k,
          before-take base e k,
          none_before k,
          nothing_before k e h,
        )
        refl

-- Where the local side replaces the lines of the base from line `k` to line `e`, and the remote one
-- adds lines at line `k`, `merge3` finds no conflict, and its output has behind the local and the
-- remote lines the base from line `k` on: the lines that the local side replaced are back.
pub merge3-replacement :
    (base xs ys : List Bytes) (k e : ℕ)
    → k < e
    → e ≤ length base
    → merge3 base (replacement k e xs ∷ []) (insertion k ys ∷ [])
      ≡ record { lines = take k base ++ (xs ++ (ys ++ drop k base)); conflicts = [] }
unfolding merge3
merge3-replacement base xs ys k e h w = merge_loop-replacement base xs ys k e h w
