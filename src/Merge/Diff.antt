-- ===== src/Merge/Diff.antt =====
-- internal/merge/threeway.go: `longestCommonSubseq` and `diffLines`.
pub mod Rebuild
pub mod Longest
use libfossil.Base.{
  ℕ, zero, suc, ◌+◌, ◌-◌, ◌≤◌, ◌<◌, ◌≡◌, refl, ap, ◌∙◌, sym, arith, Bool, true, false, ◌||◌, Option,
  none, some, List, [], ◌∷◌, ◌++◌, leb, ltb, ◌==◌, if◌then◌else◌, Bytes, length, take, drop,
  replicate, get_elem?, equal,
}

-- A change of the base: its lines from `base_start` to `base_end` are replaced.
pub record Hunk : Type 0 where
  pub base_start : ℕ
  pub base_end : ℕ
  pub lines : List Bytes

pub record Match : Type 0 where
  pub base_idx : ℕ
  pub mod_idx : ℕ

-- `row[j]`; the rows of the table are long enough for every index that is used.
unfoldable pub entry : List ℕ → ℕ → ℕ
entry row j = elim (get_elem? row j) [ none ↦ 0 | some v ↦ v ]

unfoldable pub row_of : List (List ℕ) → ℕ → List ℕ
row_of rows i = elim (get_elem? rows i) [ none ↦ [] | some row ↦ row ]

-- The inner loop, from the last column down: the row of line `a`, from the row below it.
unfoldable pub fill_row : Bytes → List Bytes → List ℕ → List ℕ
fill_row a [] below = 0 ∷ []
fill_row a (b ∷ bs) below =
    let row = fill_row a bs (drop 1 below) in
    (if equal a b
      then entry below 1 + 1
      else if leb (entry row 0) (entry below 0)
      then entry below 0
      else entry row 0)
    ∷ row

-- The outer loop, from the last row up.
unfoldable pub fill_table : List Bytes → List Bytes → List (List ℕ)
fill_table [] bs = replicate (suc (length bs)) 0 ∷ []
fill_table (a ∷ rest) bs = let rows = fill_table rest bs in fill_row a bs (row_of rows 0) ∷ rows

-- The walk through the table: the lists are a[i:] and b[j:].
unfoldable pub backtrack : List (List ℕ) → ℕ → ℕ → List Bytes → List Bytes → List Match
backtrack dp i j [] bs = []
backtrack dp i j (a ∷ rest) [] = []
backtrack dp i j (a ∷ rest) (b ∷ bs) = elim (equal a b) [
  | true ↦ record { base_idx = i; mod_idx = j } ∷ backtrack dp (suc i) (suc j) rest bs
  | false ↦ elim (leb (entry (row_of dp i) (suc j)) (entry (row_of dp (suc i)) j)) [
    | true ↦ backtrack dp (suc i) j rest (b ∷ bs)
    | false ↦ backtrack dp i (suc j) (a ∷ rest) bs
  ]
]

unfoldable pub longest_common_subseq : List Bytes → List Bytes → List Match
unfolding fill_row fill_table backtrack entry row_of
longest_common_subseq a b = backtrack (fill_table a b) 0 0 a b

-- The loop over the matches, with `bi` and `mi`; behind it, the changes after the last match.
unfoldable pub diff_loop : List Bytes → List Bytes → List Match → ℕ → ℕ → List Hunk
diff_loop base modified [] bi mi =
    if ltb bi (length base) || ltb mi (length modified)
    then record { base_start = bi; base_end = length base; lines = drop mi modified } ∷ []
    else []
diff_loop base modified (match ∷ matches) bi mi =
    let hunks = diff_loop base modified matches (suc match.base_idx) (suc match.mod_idx) in
    if ltb bi match.base_idx || ltb mi match.mod_idx
    then record {
      base_start = bi;
      base_end = match.base_idx;
      lines = take (match.mod_idx - mi) (drop mi modified);
    }
      ∷ hunks
    else hunks

unfoldable pub diff_lines : List Bytes → List Bytes → List Hunk
unfolding longest_common_subseq diff_loop
diff_lines base modified = diff_loop base modified (longest_common_subseq base modified) 0 0
