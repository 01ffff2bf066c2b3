-- ===== src/Diff/Myers/Good.antt =====
-- internal/diff/diff.go: where a step of the inner loop of `myers` ends.
use libfossil.Base.{
  ℕ, zero, suc, ◌+◌, ◌*◌, ◌-◌, ◌≤◌, ◌<◌, ◌≡◌, ◌⊎◌, inl, inr, ◌∙◌, refl, sym, ap, arith, true, false,
  some, List, [], ◌∷◌, Bytes, equal, equal_iff, length, get_elem?, ok, Bool-cases,
}
use libfossil.Diff.Myers.{start_x, snake}
use libfossil.Diff.Myers.Walk.{Slide}
use libfossil.Diff.Myers.Step.{val, index_of, ComesDown, ComesRight, step_cases}

same_from :
    (s t : Bytes) (k : ℕ) (ss ts : List Bytes)
    → s ≡ t
    → ((j : ℕ) → j < k → (l : Bytes) × (get_elem? ss j ≡ some l) × (get_elem? ts j ≡ some l))
    → (j : ℕ) → j < suc k
    → (l : Bytes) × (get_elem? (s ∷ ss) j ≡ some l) × (get_elem? (t ∷ ts) j ≡ some l)
same_from s t k ss ts e h zero b = (s, refl, ap some (sym e))
same_from s t k ss ts e h (suc j) b = h j (omega arith)

differ : (s t : Bytes) → equal s t ≡ false → (l : Bytes) → some s ≡ some l → some t ≡ some l → ⊥
differ s t e l g h =
    let same : s ≡ t = cc in let both : true ≡ false = sym ((equal_iff s t).1 same) ∙ e in cc

-- How far the diagonal goes on, on what is left of the two sides: over equal lines, up to the first
-- that differ.
pub snake-run :
    (x : ℕ) (ss ts : List Bytes)
    → (k : ℕ) × (snake x ss ts ≡ x + k)
      × (k ≤ length ss)
      × (k ≤ length ts)
      × ((j : ℕ) → j < k → (l : Bytes) × (get_elem? ss j ≡ some l) × (get_elem? ts j ≡ some l))
      × ((l : Bytes) → get_elem? ss k ≡ some l → get_elem? ts k ≡ some l → ⊥)
unfolding snake
snake-run x [] ts =
    (0, omega arith, omega arith, omega arith, λ j h. absurd (omega arith), λ l g h. absurd (cc))
snake-run x (s ∷ ss) [] =
    (0, omega arith, omega arith, omega arith, λ j h. absurd (omega arith), λ l g h. absurd (cc))
snake-run x (s ∷ ss) (t ∷ ts) = elim (Bool-cases (equal s t)) [
  | inl e ↦
      let (k, r, a, b, h, stop) = snake-run (suc x) ss ts in
      let st : s ≡ t = (equal_iff s t).0 e in
      (
        suc k,
        rw e (r ∙ (let p : suc x + k ≡ x + suc k = omega arith in p)),
        omega arith,
        omega arith,
        same_from s t k ss ts st h,
        stop,
      )
  | inr e ↦
      (0, rw e (omega arith), omega arith, omega arith, λ j h. absurd (omega arith), differ s t e)
]

module _ (src dst : List Bytes) (max e : ℕ) (v : List ℕ) where
  -- The end of a step from what the round before has left: its start, by either move, and the diagonal
  -- of equal lines behind it, which stays within both sides.
  abbrev pub Good : ℕ → ℕ → Type 0
  Good c x =
      (x0 : ℕ) × Slide src dst max x0 x (index_of max (suc e) c)
      × ((x ≡ x0) ⊎ ((x ≤ length src) × (x + max ≤ length dst + index_of max (suc e) c)))
      × ((ComesDown max e c v × (x0 ≡ val v (suc (index_of max (suc e) c))))
          ⊎ (ComesRight max e c v × (x0 ≡ suc (val v (index_of max (suc e) c - 1)))))

  -- The values of the round before are still there.
  abbrev pub Agrees : List ℕ → Type 0
  Agrees w = (j : ℕ) → j ≤ e → val w (index_of max e j) ≡ val v (index_of max e j)

  pub right_Agrees :
      (w : List ℕ) (c : ℕ)
      → suc e ≤ max
      → Agrees w
      → c ≤ e
      → val w (suc (index_of max (suc e) c)) ≡ val v (suc (index_of max (suc e) c))
  right_Agrees w c le a h =
      let i : suc (index_of max (suc e) c) ≡ index_of max e c = omega arith in
      ap (λ (n : ℕ). val w n) i ∙ a c h ∙ ap (λ (n : ℕ). val v n) (sym i)

  pub left_Agrees :
      (w : List ℕ) (c : ℕ)
      → suc e ≤ max
      → Agrees w
      → 0 < c
      → c ≤ suc e
      → val w (index_of max (suc e) c - 1) ≡ val v (index_of max (suc e) c - 1)
  left_Agrees w c le a h g =
      let i : index_of max (suc e) c - 1 ≡ index_of max e (c - 1) = omega arith in
      ap (λ (n : ℕ). val w n) i ∙ a (c - 1) (omega arith) ∙ ap (λ (n : ℕ). val v n) (sym i)

  -- The start of a step is the same in the array that the round writes and in its snapshot.
  pub start_same :
      (w : List ℕ) (c : ℕ)
      → suc e ≤ max
      → c ≤ suc e
      → length v ≡ suc (2 * max)
      → length w ≡ suc (2 * max)
      → Agrees w
      → (x0 : ℕ) × (start_x max (suc e) (index_of max (suc e) c) w ≡ ok x0)
        × ((ComesDown max e c v × (x0 ≡ val v (suc (index_of max (suc e) c))))
            ⊎ (ComesRight max e c v × (x0 ≡ suc (val v (index_of max (suc e) c - 1)))))
  start_same w c le lc lv lw a = elim (step_cases max e c v le lc lv) [
    | inl d ↦ elim (step_cases max e c w le lc lw) [
      | inl d' ↦ (val w (suc (index_of max (suc e) c)), d'.3, inl (d, right_Agrees w c le a d.1))
      | inr r' ↦ absurd (
          omega
            (arith, d.2 r'.1, r'.2 d.1, right_Agrees w c le a d.1, left_Agrees w c le a r'.1 lc))
    ]
    | inr r ↦ elim (step_cases max e c w le lc lw) [
      | inl d' ↦ absurd (
          omega
            (arith, r.2 d'.1, d'.2 r.1, right_Agrees w c le a d'.1, left_Agrees w c le a r.1 lc))
      | inr r' ↦ (
        suc (val w (index_of max (suc e) c - 1)),
        r'.3,
        inr (r, ap suc (left_Agrees w c le a r.1 lc)),
      )
    ]
  ]
