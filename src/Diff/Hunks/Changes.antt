-- ===== src/Diff/Hunks/Changes.antt =====
-- internal/diff/diff.go: the ranges of changes lie in order, and leave out equal operations only.
use libfossil.Base.{
  subst, sym, ap, ◌==◌, ℕ, suc, ◌+◌, ◌*◌, ◌≤◌, ◌<◌, ◌≡◌, ◌∙◌, refl, arith, some, List, [], ◌∷◌, inl,
  inr, ltb, leb, length, get_elem?, Bool-cases,
}
use libfossil.Diff.{OpKind, op_equal, op_insert, op_delete, EditOp}
use libfossil.Diff.Hunks.{
  ChangeRange, reverse_onto, add_change, note_change, find_loop, find_changes, merge_loop,
  merge_adjacent_changes,
}

module _ (ops : List EditOp) where
  -- The operations from one place up to another are equal ones.
  abbrev pub Quiet : ℕ → ℕ → Type 0
  Quiet p q = (i : ℕ) (o : EditOp) → p ≤ i → i < q → get_elem? ops i ≡ some o → o.kind ≡ op_equal

  -- Ranges from a place on, of which two lie more than a gap apart, with equal operations in front,
  -- between them and behind.
  abbrev pub Regions : ℕ → ℕ → ℕ → List ChangeRange → Type 0
  Regions gap p low [] = Quiet p (length ops)
  Regions gap p low (c ∷ cs) =
      (low ≤ c.start)
      × (c.start < c.end)
      × (c.end ≤ length ops)
      × Quiet p c.start
      × Regions gap c.end (suc (c.end + gap)) cs

  -- The same of ranges with the last one in front, up to a place.
  abbrev Before : ℕ → ℕ → List ChangeRange → Type 0
  Before gap q [] = Quiet 0 q
  Before gap q (c ∷ cs) =
      (c.end + gap < q) × (c.start < c.end) × Quiet c.end q × Before gap c.start cs

  -- The last range may still grow.
  abbrev Open : ℕ → ℕ → List ChangeRange → Type 0
  Open gap q [] = Quiet 0 q
  Open gap q (c ∷ cs) = (c.start < c.end) × (c.end ≤ q) × Quiet c.end q × Before gap c.start cs

  reverse_onto-Regions :
      (gap : ℕ) (st : List ChangeRange) (c : ChangeRange) (cs : List ChangeRange)
      → Before gap c.start st
      → c.start < c.end
      → c.end ≤ length ops
      → Regions gap c.end (suc (c.end + gap)) cs
      → Regions gap 0 0 (reverse_onto st (c ∷ cs))
  unfolding reverse_onto
  reverse_onto-Regions gap [] c cs b s e r = (omega arith, s, e, b, r)
  reverse_onto-Regions gap (d ∷ st) c cs (g, h, k, b) s e r =
      reverse_onto-Regions gap st d (c ∷ cs) b h (omega arith) (omega arith, s, e, k, r)

  Open-Regions :
      (gap : ℕ) (st : List ChangeRange)
      → Open gap (length ops) st
      → Regions gap 0 0 (reverse_onto st [])
  unfolding reverse_onto
  Open-Regions gap [] h = h
  Open-Regions gap (c ∷ st) (s, e, k, b) = reverse_onto-Regions gap st c [] b s e k

  extend_Quiet :
      (p i : ℕ) (o : EditOp)
      → get_elem? ops i ≡ some o
      → o.kind ≡ op_equal
      → Quiet p i
      → Quiet p (suc i)
  extend_Quiet p i o e k h j o' a b g = elim (Bool-cases (j == i)) [
    | inl f ↦
        let ji : j ≡ i = ground arith in
        let same : some o' ≡ some o = sym g ∙ ap (λ (n : ℕ). get_elem? ops n) ji ∙ e in
        let oo : o' ≡ o = cc in ap (λ (x : EditOp). x.kind) oo ∙ k
    | inr f ↦ h j o' a (ground arith) g
  ]

  nothing_Quiet : (p : ℕ) → Quiet p p
  nothing_Quiet p i o a b g = absurd (omega arith)

  extend_Open :
      (i : ℕ) (o : EditOp) (st : List ChangeRange)
      → get_elem? ops i ≡ some o
      → o.kind ≡ op_equal
      → Open 0 i st
      → Open 0 (suc i) st
  extend_Open i o [] e k h = extend_Quiet 0 i o e k h
  extend_Open i o (c ∷ st) e k (s, t, q, b) = (s, omega arith, extend_Quiet c.end i o e k q, b)

  add_change-Open : (i : ℕ) (st : List ChangeRange) → Open 0 i st → Open 0 (suc i) (add_change i st)
  unfolding add_change
  add_change-Open i [] h = (omega arith, omega arith, nothing_Quiet (suc i), h)
  add_change-Open i (c ∷ st) (s, t, q, b) = elim (Bool-cases (ltb c.end i)) [
    | inl e ↦ rw e (omega arith, omega arith, nothing_Quiet (suc i), (ground arith, s, q, b))
    | inr e ↦ rw e (ground arith, omega arith, nothing_Quiet (suc i), b)
  ]

  note_change-Open :
      (k : OpKind) (i : ℕ) (o : EditOp) (st : List ChangeRange)
      → get_elem? ops i ≡ some o
      → o.kind ≡ k
      → Open 0 i st
      → Open 0 (suc i) (note_change k i st)
  unfolding note_change
  note_change-Open op_equal i o st e k h = extend_Open i o st e k h
  note_change-Open op_insert i o st e k h = add_change-Open i st h
  note_change-Open op_delete i o st e k h = add_change-Open i st h

  find_loop-Open :
      (i : ℕ) (rest : List EditOp) (st : List ChangeRange)
      → ((j : ℕ) → get_elem? rest j ≡ get_elem? ops (i + j))
      → i + length rest ≡ length ops
      → Open 0 i st
      → Open 0 (length ops) (find_loop i rest st)
  unfolding find_loop
  find_loop-Open i [] st g l h =
      let e : i ≡ length ops = omega arith in subst (λ (n : ℕ). Open 0 n st) e h
  find_loop-Open i (o ∷ rest) st g l h =
      let here : i + 0 ≡ i = omega arith in
      let e : get_elem? ops i ≡ some o = sym (g 0 ∙ ap (λ (n : ℕ). get_elem? ops n) here) in
      find_loop-Open (suc i) rest (note_change o.kind i st)
        (λ j.
          let next : i + suc j ≡ suc i + j = omega arith in
          g (suc j) ∙ ap (λ (n : ℕ). get_elem? ops n) next)
        (omega arith) (note_change-Open o.kind i o st e refl h)

  find_changes-Regions : Regions 0 0 0 (find_changes ops)
  unfolding find_changes
  find_changes-Regions = Open-Regions 0 (find_loop 0 ops []) (
      find_loop-Open 0 ops []
        (λ j. let e : j ≡ 0 + j = omega arith in ap (λ (n : ℕ). get_elem? ops n) e) (omega arith)
        (nothing_Quiet 0))

  merge_loop-Open :
      (n : ℕ) (prev : ChangeRange) (merged cs : List ChangeRange)
      → Before (2 * n) prev.start merged
      → prev.start < prev.end
      → prev.end ≤ length ops
      → Regions 0 prev.end (suc (prev.end + 0)) cs
      → Open (2 * n) (length ops) (merge_loop n prev merged cs)
  unfolding merge_loop
  merge_loop-Open n prev merged [] b s l q = (s, l, q, b)
  merge_loop-Open n prev merged (c ∷ cs) b s l (low, s', l', q, r) =
      elim (Bool-cases (leb c.start (prev.end + 2 * n))) [
        | inl e ↦ rw e (
            merge_loop-Open n (record { start = prev.start; end = c.end }) merged cs b (omega arith)
              l' r)
        | inr e ↦ rw e (merge_loop-Open n c (prev ∷ merged) cs (ground arith, s, q, b) s' l' r)
      ]

  merged_Regions :
      (n : ℕ) (cs : List ChangeRange)
      → Regions 0 0 0 cs
      → Regions (2 * n) 0 0 (merge_adjacent_changes cs n)
  unfolding merge_adjacent_changes
  merged_Regions n [] h = h
  merged_Regions n (c ∷ cs) (low, s, l, q, r) =
      Open-Regions (2 * n) (merge_loop n c [] cs) (merge_loop-Open n c [] cs q s l r)

  -- The merged ranges lie in order, more than twice the context apart, and leave out equal operations
  -- only.
  pub merge_adjacent_changes-Regions :
      (n : ℕ) → Regions (2 * n) 0 0 (merge_adjacent_changes (find_changes ops) n)
  merge_adjacent_changes-Regions n = merged_Regions n (find_changes ops) find_changes-Regions
