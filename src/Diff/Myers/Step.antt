-- ===== src/Diff/Myers/Step.antt =====
-- internal/diff/diff.go: one step of the inner loop of `myers`.
use libfossil.Base.{
  ℕ, zero, suc, ◌+◌, ◌*◌, ◌-◌, ◌≤◌, ◌<◌, ◌≡◌, ◌≢◌, ◌⊎◌, inl, inr, refl, ap, arith, true, false,
  some, List, [], ◌∷◌, ltb, ◌==◌, length, get_elem?, set, ok, Bool-cases,
}
use libfossil.Diff.Myers.{entry, moves_down, start_x}
use libfossil.Diff.Myers.Walk.{entry_some}

-- The value at an index, 0 beyond the end.
abbrev pub val : List ℕ → ℕ → ℕ
val [] i = 0
val (x ∷ v) zero = x
val (x ∷ v) (suc i) = val v i

pub get_elem?-val : (v : List ℕ) (i : ℕ) → i < length v → get_elem? v i ≡ some (val v i)
get_elem?-val [] i h = absurd (omega arith)
get_elem?-val (x ∷ v) zero h = refl
get_elem?-val (x ∷ v) (suc i) h = get_elem?-val v i (omega arith)

pub val-set : (v : List ℕ) (i x : ℕ) → i < length v → val (set v i x) i ≡ x
val-set [] i x h = absurd (omega arith)
val-set (y ∷ v) zero x h = refl
val-set (y ∷ v) (suc i) x h = val-set v i x (omega arith)

pub val-set_other : (v : List ℕ) (i j x : ℕ) → i ≢ j → val (set v i x) j ≡ val v j
val-set_other [] i j x h = refl
val-set_other (y ∷ v) zero zero x h = absurd (h refl)
val-set_other (y ∷ v) zero (suc j) x h = refl
val-set_other (y ∷ v) (suc i) zero x h = refl
val-set_other (y ∷ v) (suc i) (suc j) x h = val-set_other v i j x (λ e. h (ap suc e))

pub length-set : (v : List ℕ) (i x : ℕ) → length (set v i x) ≡ length v
length-set [] i x = refl
length-set (y ∷ v) zero x = refl
length-set (y ∷ v) (suc i) x = ap suc (length-set v i x)

pub entry-val : (v : List ℕ) (i : ℕ) → i < length v → entry v i ≡ ok (val v i)
entry-val v i h = entry_some v i (val v i) (get_elem?-val v i h)

-- The index of a round's step.
abbrev pub index_of : ℕ → ℕ → ℕ → ℕ
index_of max d c = max - d + 2 * c

module _ (max e c : ℕ) (v : List ℕ) where
  -- A step down comes from the diagonal behind, which has the larger value of the two.
  abbrev pub ComesDown : Type 0
  ComesDown =
      (moves_down max (suc e) (index_of max (suc e) c) v ≡ ok true)
      × (c ≤ e)
      × (0 < c → val v (index_of max (suc e) c - 1) < val v (suc (index_of max (suc e) c)))
      × (start_x max (suc e) (index_of max (suc e) c) v ≡ ok (val v (suc (index_of max (suc e) c))))

  abbrev pub ComesRight : Type 0
  ComesRight =
      (moves_down max (suc e) (index_of max (suc e) c) v ≡ ok false)
      × (0 < c)
      × (c ≤ e → val v (suc (index_of max (suc e) c)) ≤ val v (index_of max (suc e) c - 1))
      × (start_x max (suc e) (index_of max (suc e) c) v
          ≡ ok (suc (val v (index_of max (suc e) c - 1))))

  start_down :
      moves_down max (suc e) (index_of max (suc e) c) v ≡ ok true
      → suc (index_of max (suc e) c) < length v
      → start_x max (suc e) (index_of max (suc e) c) v ≡ ok (val v (suc (index_of max (suc e) c)))
  unfolding start_x
  start_down m h = rw m (entry-val v (suc (index_of max (suc e) c)) h)

  start_right :
      moves_down max (suc e) (index_of max (suc e) c) v ≡ ok false
      → index_of max (suc e) c - 1 < length v
      → start_x max (suc e) (index_of max (suc e) c) v
        ≡ ok (suc (val v (index_of max (suc e) c - 1)))
  unfolding start_x
  start_right m h = rw (m, entry-val v (index_of max (suc e) c - 1) h) refl

  -- Every step of a round comes from a step of the round before.
  pub step_cases : suc e ≤ max → c ≤ suc e → length v ≡ suc (2 * max) → ComesDown ⊎ ComesRight
  unfolding moves_down
  step_cases le lc len =
      let i : ℕ = index_of max (suc e) c in
      elim (Bool-cases (i + suc e == max)) [
        | inl a ↦
            let m : moves_down max (suc e) (index_of max (suc e) c) v ≡ ok true = rw a refl in
            let c0 : c ≡ 0 = ground arith in
            inl (m, omega arith, λ p. absurd (omega arith), start_down m (omega arith))
        | inr a ↦
            let c1 : 0 < c = ground arith in
            elim (Bool-cases (i == max + suc e)) [
              | inl b ↦
                  let m : moves_down max (suc e) (index_of max (suc e) c) v ≡ ok false =
                    rw (a, b) refl in
                  let ce : c ≡ suc e = ground arith in
                  inr (m, c1, λ p. absurd (omega arith), start_right m (omega arith))
              | inr b ↦
                  let ce : c ≤ e = ground arith in
                  let left : entry v (i - 1) ≡ ok (val v (i - 1)) =
                    entry-val v (i - 1) (omega arith) in
                  let right : entry v (suc i) ≡ ok (val v (suc i)) =
                    entry-val v (suc i) (omega arith) in
                  elim (Bool-cases (ltb (val v (i - 1)) (val v (suc i)))) [
                    | inl t ↦
                        let m : moves_down max (suc e) (index_of max (suc e) c) v ≡ ok true =
                          rw (a, b, left, right, t) refl in
                        inl (m, ce, λ p. ground arith, start_down m (omega arith))
                    | inr t ↦
                        let m : moves_down max (suc e) (index_of max (suc e) c) v ≡ ok false =
                          rw (a, b, left, right, t) refl in
                        inr (m, c1, λ p. ground arith, start_right m (omega arith))
                  ]
            ]
      ]
