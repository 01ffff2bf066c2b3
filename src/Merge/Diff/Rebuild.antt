-- ===== src/Merge/Diff/Rebuild.antt =====
-- internal/merge/threeway.go: the hunks of `diffLines`, applied to the base, rebuild the modified lines.
use libfossil.Base.{
  ℕ, suc, ◌+◌, ◌-◌, ◌≤◌, ◌<◌, ◌≡◌, refl, ap, ◌∙◌, sym, arith, true, false, ◌||◌, List, [], ◌∷◌,
  ◌++◌, append_assoc, append-nil, leb, ltb, Bytes, length, length-drop, take, drop, equal,
  equal_iff, Bool-cases, ◌⊎◌, inl, inr,
}
use libfossil.Base.Cuts.{drop_all, drop_cut, take_cut, drop-cons}
use libfossil.Merge.Diff.{
  Hunk, Match, entry, row_of, backtrack, fill_table, longest_common_subseq, diff_loop, diff_lines,
}

-- The base with the hunks applied in order, from line `bi` on: what a list of hunks means. The
-- position behind a hunk is the larger of `bi` and its end, so that no line of the base is given
-- twice, and a line that a hunk has replaced does not return.
abbrev pub apply_hunks : List Bytes → ℕ → List Hunk → List Bytes
apply_hunks base bi [] = drop bi base
apply_hunks base bi (h ∷ hs) =
    take (h.base_start - bi) (drop bi base)
    ++ (h.lines ++ apply_hunks base (bi + (h.base_end - bi)) hs)

-- From line `k` on, each hunk starts no earlier than the one before it ends, and ends within `n` lines.
abbrev pub IsRising : ℕ → ℕ → List Hunk → Type 0
IsRising n k [] = Unit
IsRising n k (h ∷ hs) =
    (k ≤ h.base_start) × (h.base_start ≤ h.base_end) × (h.base_end ≤ n) × IsRising n h.base_end hs

pub IsRising-mono : (n j k : ℕ) (hs : List Hunk) → j ≤ k → IsRising n k hs → IsRising n j hs
IsRising-mono n j k [] h r = tt
IsRising-mono n j k (hunk ∷ hs) h (a, b, c, r) = (omega arith, b, c, r)

-- Behind a hunk that ends no earlier than the position.
pub go_on : (bi end : ℕ) → bi ≤ end → bi + (end - bi) ≡ end
go_on bi end h = omega arith

pub apply_hunks-cons :
    (base : List Bytes) (bi : ℕ) (h : Hunk) (hs : List Hunk)
    → bi ≤ h.base_end
    → apply_hunks base bi (h ∷ hs)
      ≡ take (h.base_start - bi) (drop bi base) ++ (h.lines ++ apply_hunks base h.base_end hs)
apply_hunks-cons base bi h hs e =
    ap (λ k. take (h.base_start - bi) (drop bi base) ++ (h.lines ++ apply_hunks base k hs))
      (go_on bi h.base_end e)

advance :
    (base : List Bytes) (n bi k : ℕ) (hs : List Hunk)
    → bi ≤ k
    → IsRising n k hs
    → apply_hunks base bi hs ≡ take (k - bi) (drop bi base) ++ apply_hunks base k hs
advance base n bi k [] h r = sym (drop_cut bi k base h)
advance base n bi k (hunk ∷ hs) h (s, e, _, _) =
    apply_hunks-cons base bi hunk hs (omega arith)
    ∙ ap (λ t. t ++ (hunk.lines ++ apply_hunks base hunk.base_end hs))
        (sym (take_cut bi k hunk.base_start base h s))
    ∙ append_assoc (take (k - bi) (drop bi base)) (take (hunk.base_start - k) (drop k base))
        (hunk.lines ++ apply_hunks base hunk.base_end hs)
    ∙ ap (λ t. take (k - bi) (drop bi base) ++ t)
        (sym (apply_hunks-cons base k hunk hs (omega arith)))

-- The matches rise, from `i` and `j` on, and the lines that they match are equal.
abbrev pub IsMatching : List Bytes → List Bytes → ℕ → ℕ → List Match → Type 0
IsMatching base modified i j [] = Unit
IsMatching base modified i j (m ∷ ms) =
    (i ≤ m.base_idx)
    × (j ≤ m.mod_idx)
    × (take 1 (drop m.base_idx base) ≡ take 1 (drop m.mod_idx modified))
    × (m.base_idx < length base)
    × IsMatching base modified (suc m.base_idx) (suc m.mod_idx) ms

IsMatching-mono :
    (base modified : List Bytes) (i j i' j' : ℕ) (ms : List Match)
    → i ≤ i'
    → j ≤ j'
    → IsMatching base modified i' j' ms
    → IsMatching base modified i j ms
IsMatching-mono base modified i j i' j' [] p q h = tt
IsMatching-mono base modified i j i' j' (m ∷ ms) p q (a, b, c, l, d) =
    (omega arith, omega arith, c, l, d)

module _ (dp : List (List ℕ)) (i j : ℕ) (a : Bytes) (rest : List Bytes) (b : Bytes)
    (bs : List Bytes) where
  backtrack-equal :
      equal a b ≡ true
      → backtrack dp i j (a ∷ rest) (b ∷ bs)
        ≡ record { base_idx = i; mod_idx = j } ∷ backtrack dp (suc i) (suc j) rest bs
  unfolding backtrack
  backtrack-equal e = rw (e, backtrack)

  backtrack_skip :
      equal a b ≡ false
      → (backtrack dp i j (a ∷ rest) (b ∷ bs) ≡ backtrack dp (suc i) j rest (b ∷ bs))
        ⊎ (backtrack dp i j (a ∷ rest) (b ∷ bs) ≡ backtrack dp i (suc j) (a ∷ rest) bs)
  unfolding backtrack
  backtrack_skip n =
      elim (Bool-cases (leb (entry (row_of dp i) (suc j)) (entry (row_of dp (suc i)) j))) [
        | inl d ↦ inl (rw (n, backtrack, d, backtrack))
        | inr d ↦ inr (rw (n, backtrack, d, backtrack))
      ]

pub backtrack-IsMatching :
    (base modified : List Bytes) (dp : List (List ℕ)) (i j : ℕ) (ls bs : List Bytes)
    → drop i base ≡ ls
    → drop j modified ≡ bs
    → IsMatching base modified i j (backtrack dp i j ls bs)
backtrack-IsMatching base modified dp i j [] bs p q = unfold backtrack in tt
backtrack-IsMatching base modified dp i j (a ∷ ls) [] p q = unfold backtrack in tt
backtrack-IsMatching base modified dp i j (a ∷ ls) (b ∷ bs) p q =
    let (ta, ra) = drop-cons i base a ls p in
    let (tb, rb) = drop-cons j modified b bs q in
    elim (Bool-cases (equal a b)) [
      | inl e ↦ rw (backtrack-equal dp i j a ls b bs e) (
        omega arith,
        omega arith,
        ta ∙ ap (λ x. x ∷ []) ((equal_iff a b).0 e) ∙ sym tb,
        omega (arith, length-drop i base, ap length p),
        backtrack-IsMatching base modified dp (suc i) (suc j) ls bs ra rb,
      )
      | inr n ↦ elim (backtrack_skip dp i j a ls b bs n) [
        | inl d ↦ rw d (
            IsMatching-mono base modified i j (suc i) j _ (omega arith) (omega arith)
              (backtrack-IsMatching base modified dp (suc i) j ls (b ∷ bs) ra q))
        | inr d ↦ rw d (
            IsMatching-mono base modified i j i (suc j) _ (omega arith) (omega arith)
              (backtrack-IsMatching base modified dp i (suc j) (a ∷ ls) bs p rb))
      ]
    ]

-- Where the code finds no change, the two positions are the ends of what is compared.
no_change : (bi k mi n : ℕ) → (ltb bi k || ltb mi n) ≡ false → (k ≤ bi) × (n ≤ mi)
no_change bi k mi n h = (ground arith, ground arith)

pub diff_loop-IsRising :
    (base modified : List Bytes) (ms : List Match) (bi mi : ℕ)
    → bi ≤ length base
    → IsMatching base modified bi mi ms
    → IsRising (length base) bi (diff_loop base modified ms bi mi)
unfolding diff_loop
diff_loop-IsRising base modified [] bi mi w h =
    elim (Bool-cases (ltb bi (length base) || ltb mi (length modified))) [
      | inl y ↦ rw (y, IsRising) (omega arith, w, omega arith, tt)
      | inr n ↦ rw (n, IsRising) tt
    ]
diff_loop-IsRising base modified (m ∷ ms) bi mi w (a, b, c, l, d) =
    let rest =
      diff_loop-IsRising base modified ms (suc m.base_idx) (suc m.mod_idx) (omega arith) d in
    elim (Bool-cases (ltb bi m.base_idx || ltb mi m.mod_idx)) [
      | inl y ↦
          rw (y, IsRising)
            (
              omega arith,
              a,
              omega arith,
              IsRising-mono (length base) m.base_idx (suc m.base_idx) _ (omega arith) rest,
            )
      | inr n ↦
          rw (n, IsRising) (IsRising-mono (length base) bi (suc m.base_idx) _ (omega arith) rest)
    ]

no_lines : (n : ℕ) → n - n ≡ 0
no_lines n = omega arith

one_line : (n : ℕ) → suc n - n ≡ 1
one_line n = omega arith

-- Behind a match and the hunks after it, the modified lines follow from the matched line on.
from_match :
    (base modified : List Bytes) (m : Match) (hs : List Hunk)
    → take 1 (drop m.base_idx base) ≡ take 1 (drop m.mod_idx modified)
    → IsRising (length base) (suc m.base_idx) hs
    → apply_hunks base (suc m.base_idx) hs ≡ drop (suc m.mod_idx) modified
    → apply_hunks base m.base_idx hs ≡ drop m.mod_idx modified
from_match base modified m hs c s e =
    advance base (length base) m.base_idx (suc m.base_idx) hs (omega arith) s
    ∙ rw (one_line m.base_idx, e, c)
        (ap (λ n. take n (drop m.mod_idx modified) ++ drop (suc m.mod_idx) modified)
            (sym (one_line m.mod_idx))
          ∙ drop_cut m.mod_idx (suc m.mod_idx) modified (omega arith))

diff_loop-rebuilds :
    (base modified : List Bytes) (ms : List Match) (bi mi : ℕ)
    → IsMatching base modified bi mi ms
    → apply_hunks base bi (diff_loop base modified ms bi mi) ≡ drop mi modified
unfolding diff_loop
diff_loop-rebuilds base modified [] bi mi h =
    elim (Bool-cases (ltb bi (length base) || ltb mi (length modified))) [
      | inl y ↦
          rw (y, apply_hunks)
            (rw (no_lines bi, drop_all (bi + (length base - bi)) base (omega arith), append-nil))
      | inr n ↦
          rw (n, apply_hunks)
            (let (p, q) = no_change bi (length base) mi (length modified) n in
              drop_all bi base p ∙ sym (drop_all mi modified q))
    ]
diff_loop-rebuilds base modified (m ∷ ms) bi mi (a, b, c, l, d) =
    let hs = diff_loop base modified ms (suc m.base_idx) (suc m.mod_idx) in
    let later : apply_hunks base m.base_idx hs ≡ drop m.mod_idx modified =
      from_match base modified m hs c
        (diff_loop-IsRising base modified ms (suc m.base_idx) (suc m.mod_idx) (omega arith) d)
        (diff_loop-rebuilds base modified ms (suc m.base_idx) (suc m.mod_idx) d) in
    elim (Bool-cases (ltb bi m.base_idx || ltb mi m.mod_idx)) [
      | inl y ↦
          rw (y, apply_hunks)
            (rw (no_lines bi, go_on bi m.base_idx a, later) (drop_cut mi m.mod_idx modified b))
      | inr n ↦
          rw (n, apply_hunks)
            (let (p, q) = no_change bi m.base_idx mi m.mod_idx n in
              let at_base : bi ≡ m.base_idx = omega arith in
              let at_mod : mi ≡ m.mod_idx = omega arith in rw (at_base, at_mod) later)
    ]

pub diff_lines-IsRising :
    (base modified : List Bytes) → IsRising (length base) 0 (diff_lines base modified)
unfolding diff_lines longest_common_subseq
diff_lines-IsRising base modified =
    diff_loop-IsRising base modified (backtrack (fill_table base modified) 0 0 base modified) 0 0
      (omega arith)
      (backtrack-IsMatching base modified (fill_table base modified) 0 0 base modified refl refl)

-- The hunks that `diffLines` finds between two lists of lines, applied to the first, give the second.
pub apply_hunks-diff_lines :
    (base modified : List Bytes) → apply_hunks base 0 (diff_lines base modified) ≡ modified
unfolding diff_lines longest_common_subseq
apply_hunks-diff_lines base modified =
    diff_loop-rebuilds base modified (backtrack (fill_table base modified) 0 0 base modified) 0 0
      (backtrack-IsMatching base modified (fill_table base modified) 0 0 base modified refl refl)
