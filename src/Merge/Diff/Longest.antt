-- ===== src/Merge/Diff/Longest.antt =====
-- internal/merge/threeway.go: `longestCommonSubseq` finds a longest one.
use libfossil.Base.{
  ℕ, zero, suc, ◌+◌, ◌≤◌, ◌≡◌, refl, ap, ◌∙◌, sym, arith, Bool, true, false, List, [], ◌∷◌, leb,
  if◌then◌else◌, Bytes, length, drop, replicate, equal, equal_iff, Bool-cases, ◌⊎◌, inl, inr,
}
use libfossil.Merge.Diff.Rebuild.{IsMatching, backtrack-IsMatching}
use libfossil.Merge.Diff.{entry, row_of, fill_row, fill_table, backtrack, longest_common_subseq}

-- The lines of one list are among those of another, in this order.
pub data Sub : List Bytes → List Bytes → Type 0 where
  empty : (xs : List Bytes) → Sub [] xs
  chosen : (x : Bytes) {s xs : List Bytes} → Sub s xs → Sub (x ∷ s) (x ∷ xs)
  passed : (x : Bytes) {s xs : List Bytes} → Sub s xs → Sub s (x ∷ xs)

-- The length of a longest list that is among the lines of both.
most : List Bytes → List Bytes → ℕ
most [] bs = 0
most (a ∷ ls) [] = 0
most (a ∷ ls) (b ∷ bs) =
    if equal a b
    then suc (most ls bs)
    else if leb (most (a ∷ ls) bs) (most ls (b ∷ bs))
    then most ls (b ∷ bs)
    else most (a ∷ ls) bs

Sub-tail : (y : Bytes) (s xs : List Bytes) → Sub (y ∷ s) xs → Sub s xs
Sub-tail y s [] u = elim u [ ]
Sub-tail y s (x ∷ xs) (chosen _ u) = passed x u
Sub-tail y s (x ∷ xs) (passed _ u) = passed x (Sub-tail y s xs u)

-- What is behind the first choice is among the rest.
Sub-rest : (y x : Bytes) (s xs : List Bytes) → Sub (y ∷ s) (x ∷ xs) → Sub s xs
Sub-rest y x s xs (chosen _ u) = u
Sub-rest y x s xs (passed _ u) = Sub-tail y s xs u

-- One choice for both, or none for one of them.
split-choice :
    (y a b : Bytes) (s ls bs : List Bytes)
    → equal a b ≡ false
    → Sub (y ∷ s) (a ∷ ls)
    → Sub (y ∷ s) (b ∷ bs)
    → Sub (y ∷ s) ls ⊎ Sub (y ∷ s) bs
split-choice y a b s ls bs n (passed _ u) v = inl u
split-choice y a b s ls bs n u (passed _ v) = inr v
split-choice y a b s ls bs n (chosen _ u) (chosen _ v) =
    absurd (let same : true ≡ false = sym ((equal_iff a b).1 refl) ∙ n in cc)

most-cons :
    (a b : Bytes) (ls bs : List Bytes)
    → equal a b ≡ true
    → most (a ∷ ls) (b ∷ bs) ≡ suc (most ls bs)
unfolding most
most-cons a b ls bs e = rw e refl

most-larger :
    (a b : Bytes) (ls bs : List Bytes)
    → equal a b ≡ false
    → (most ls (b ∷ bs) ≤ most (a ∷ ls) (b ∷ bs)) × (most (a ∷ ls) bs ≤ most (a ∷ ls) (b ∷ bs))
unfolding most
most-larger a b ls bs n = rw n (larger (most ls (b ∷ bs)) (most (a ∷ ls) bs))
  where
    larger : (m k : ℕ) → (m ≤ (if leb k m then m else k)) × (k ≤ (if leb k m then m else k))
    larger m k = ground arith

most-bound : (s ls bs : List Bytes) → Sub s ls → Sub s bs → length s ≤ most ls bs
most-bound [] ls bs u v = omega arith
most-bound (y ∷ s) [] bs u v = elim u [ ]
most-bound (y ∷ s) (a ∷ ls) [] u v = elim v [ ]
most-bound (y ∷ s) (a ∷ ls) (b ∷ bs) u v = elim (Bool-cases (equal a b)) [
  | inl e ↦
      omega (
        arith,
        most-cons a b ls bs e,
        most-bound s ls bs (Sub-rest y a s ls u) (Sub-rest y b s bs v),
      )
  | inr n ↦
      let (first, second) = most-larger a b ls bs n in
      elim (split-choice y a b s ls bs n u v) [
        | inl u' ↦ omega (arith, most-bound (y ∷ s) ls (b ∷ bs) u' v)
        | inr v' ↦ omega (arith, most-bound (y ∷ s) (a ∷ ls) bs u v')
      ]
]

entry-drop : (row : List ℕ) (j : ℕ) → entry (drop 1 row) j ≡ entry row (suc j)
unfolding entry
entry-drop [] j = refl
entry-drop (x ∷ row) j = refl

-- A row of the table holds the lengths for the rests of the second list.
abbrev IsRow : List Bytes → List Bytes → List ℕ → Type 0
IsRow ls bs row = (j : ℕ) → j ≤ length bs → entry row j ≡ most ls (drop j bs)

fill_row-IsRow :
    (a : Bytes) (ls bs : List Bytes) (below : List ℕ)
    → IsRow ls bs below
    → IsRow (a ∷ ls) bs (fill_row a bs below)
unfolding fill_row entry most
fill_row-IsRow a ls [] below h zero l = refl
fill_row-IsRow a ls [] below h (suc j) l = absurd (omega arith)
fill_row-IsRow a ls (b ∷ bs) below h zero l =
    cell (equal a b) (h 1 (omega arith)) (h 0 (omega arith)) (
      fill_row-IsRow a ls bs (drop 1 below) (λ k m. entry-drop below k ∙ h (suc k) (omega arith)) 0
        (omega arith))
  where
    cell :
        (same : Bool)
        → entry below 1 ≡ most ls bs
        → entry below 0 ≡ most ls (b ∷ bs)
        → entry (fill_row a bs (drop 1 below)) 0 ≡ most (a ∷ ls) bs
        → (if same
            then entry below 1 + 1
            else if leb (entry (fill_row a bs (drop 1 below)) 0) (entry below 0)
            then entry below 0
            else entry (fill_row a bs (drop 1 below)) 0)
          ≡ (if same
              then suc (most ls bs)
              else if leb (most (a ∷ ls) bs) (most ls (b ∷ bs))
              then most ls (b ∷ bs)
              else most (a ∷ ls) bs)
    cell true p q r = omega (arith, p)
    cell false p q r = rw (q, r) refl
fill_row-IsRow a ls (b ∷ bs) below h (suc j) l =
    fill_row-IsRow a ls bs (drop 1 below) (λ k m. entry-drop below k ∙ h (suc k) (omega arith)) j
      (omega arith)

entry-replicate : (n j : ℕ) → entry (replicate n 0) j ≡ 0
unfolding entry
entry-replicate zero j = refl
entry-replicate (suc n) zero = refl
entry-replicate (suc n) (suc j) = entry-replicate n j

-- The table holds the lengths for the rests of both lists.
fill_table-IsRow :
    (ls bs : List Bytes) (i : ℕ)
    → i ≤ length ls
    → IsRow (drop i ls) bs (row_of (fill_table ls bs) i)
unfolding fill_table row_of most
fill_table-IsRow [] bs zero l j m = entry-replicate (suc (length bs)) j
fill_table-IsRow [] bs (suc i) l j m = absurd (omega arith)
fill_table-IsRow (a ∷ ls) bs zero l j m =
    fill_row-IsRow a ls bs (row_of (fill_table ls bs) 0) (fill_table-IsRow ls bs 0 (omega arith)) j
      m
fill_table-IsRow (a ∷ ls) bs (suc i) l j m = fill_table-IsRow ls bs i (omega arith) j m

-- The table, from a place on, holds the lengths for what is left.
abbrev IsTable : List (List ℕ) → ℕ → ℕ → List Bytes → List Bytes → Type 0
IsTable dp i j ls bs =
    (p q : ℕ)
    → p ≤ length ls
    → q ≤ length bs
    → entry (row_of dp (i + p)) (j + q) ≡ most (drop p ls) (drop q bs)

at_place :
    (dp : List (List ℕ)) (i j i' j' n : ℕ)
    → entry (row_of dp i) j ≡ n
    → i ≡ i'
    → j ≡ j'
    → entry (row_of dp i') j' ≡ n
at_place dp i j i' j' n h ei ej =
    ap (λ (k : ℕ). entry (row_of dp k) j') (sym ei)
    ∙ ap (λ (k : ℕ). entry (row_of dp i) k) (sym ej)
    ∙ h

backtrack-length :
    (dp : List (List ℕ)) (i j : ℕ) (ls bs : List Bytes)
    → IsTable dp i j ls bs
    → length (backtrack dp i j ls bs) ≡ most ls bs
unfolding backtrack most
backtrack-length dp i j [] bs h = refl
backtrack-length dp i j (a ∷ ls) [] h = refl
backtrack-length dp i j (a ∷ ls) (b ∷ bs) h =
    let below : entry (row_of dp (suc i)) j ≡ most ls (b ∷ bs) =
      at_place dp (i + 1) (j + 0) (suc i) j (most ls (b ∷ bs)) (h 1 0 (omega arith) (omega arith))
        (omega arith) (omega arith) in
    let right : entry (row_of dp i) (suc j) ≡ most (a ∷ ls) bs =
      at_place dp (i + 0) (j + 1) i (suc j) (most (a ∷ ls) bs) (h 0 1 (omega arith) (omega arith))
        (omega arith) (omega arith) in
    elim (Bool-cases (equal a b)) [
      | inl e ↦
          rw (e, backtrack)
            (ap suc (
              backtrack-length dp (suc i) (suc j) ls bs (λ p q l m.
                at_place dp (i + suc p) (j + suc q) (suc i + p) (suc j + q) _
                  (h (suc p) (suc q) (omega arith) (omega arith)) (omega arith) (omega arith))))
      | inr n ↦ elim (Bool-cases (leb (most (a ∷ ls) bs) (most ls (b ∷ bs)))) [
        | inl d ↦
            rw (n, backtrack, below, right, d, backtrack)
              (backtrack-length dp (suc i) j ls (b ∷ bs) (λ p q l m.
                at_place dp (i + suc p) (j + q) (suc i + p) (j + q) _ (h (suc p) q (omega arith) m)
                  (omega arith) (omega arith)))
        | inr d ↦
            rw (n, backtrack, below, right, d, backtrack)
              (backtrack-length dp i (suc j) (a ∷ ls) bs (λ p q l m.
                at_place dp (i + p) (j + suc q) (i + p) (suc j + q) _ (h p (suc q) l (omega arith))
                  (omega arith) (omega arith)))
      ]
    ]

fill_table-IsTable : (a b : List Bytes) → IsTable (fill_table a b) 0 0 a b
fill_table-IsTable a b p q l m =
    at_place (fill_table a b) p q (0 + p) (0 + q) _ (fill_table-IsRow a b p l q m) (omega arith)
      (omega arith)

-- `longestCommonSubseq` finds matches that rise in both lists, each of equal lines, and no list that
-- is among the lines of both, in their order, is longer than these matches.
pub longest_common_subseq_lem :
    (s a b : List Bytes)
    → Sub s a
    → Sub s b
    → IsMatching a b 0 0 (longest_common_subseq a b)
      × (length s ≤ length (longest_common_subseq a b))
unfolding longest_common_subseq
longest_common_subseq_lem s a b u v = (
  backtrack-IsMatching a b (fill_table a b) 0 0 a b refl refl,
  omega (
    arith,
    most-bound s a b u v,
    backtrack-length (fill_table a b) 0 0 a b (fill_table-IsTable a b),
  ),
)
