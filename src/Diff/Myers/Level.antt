-- ===== src/Diff/Myers/Level.antt =====
-- internal/diff/diff.go: what holds of the array of `myers` behind each round that goes on.
use libfossil.Base.{
  ℕ, suc, ◌+◌, ◌*◌, ◌-◌, ◌≤◌, ◌<◌, ◌≡◌, ◌⊎◌, inl, inr, ◌∙◌, sym, ap, subst, arith, List, [], ◌∷◌,
  Bytes, length, some, ltb, Bool-cases,
}
use libfossil.Diff.Myers.{moves_down}
use libfossil.Diff.Myers.Walk.{Traced}
use libfossil.Diff.Myers.Step.{val, index_of, get_elem?-val}
use libfossil.Diff.Myers.Good.{Good}
use libfossil.Diff.Myers.Round.{IsFar, Reached}

module _ (src dst : List Bytes) (max : ℕ) where
  -- Behind round `e`: no diagonal has reached the end, each is the end of a path that the snapshots
  -- record, and one that has passed the end of a side has a neighbour that is as far.
  pub record Level (e : ℕ) (trace : List (List ℕ)) (v : List ℕ) : Type 0 where
    pub size : length v ≡ suc (2 * max)
    pub depth : length trace ≡ suc e
    pub far : IsFar src dst max e v
    pub traced :
        (c : ℕ) → c ≤ e → Traced src dst max trace (index_of max e c) (val v (index_of max e c))
    pub away :
        (c : ℕ) → c ≤ e → Reached src dst max e v (index_of max e c) (val v (index_of max e c)) → ⊥
    pub over_src :
        (c : ℕ)
        → c ≤ e
        → length src < val v (index_of max e c)
        → (0 < c) × (val v (index_of max e c) ≤ suc (val v (index_of max e (c - 1))))
    pub over_dst :
        (c : ℕ)
        → c ≤ e
        → length dst + 2 * c < val v (index_of max e c) + e
        → (c < e) × (suc (val v (index_of max e c)) ≤ val v (index_of max e (suc c)))

  module _ (e : ℕ) (v : List ℕ) where
    -- The values of the round before, by the number of the diagonal.
    abbrev pub at : ℕ → ℕ
    at c = val v (index_of max e c)

    -- A step by its values alone.
    abbrev pub Moves : ℕ → ℕ → Type 0
    Moves c x =
        (x0 : ℕ) × (x0 ≤ x)
        × ((x ≡ x0) ⊎ ((x ≤ length src) × (x + suc e ≤ length dst + 2 * c)))
        × (((c ≤ e) × (x0 ≡ at c) × (0 < c → at (c - 1) < at c))
            ⊎ ((0 < c) × (x0 ≡ suc (at (c - 1))) × (c ≤ e → at c ≤ at (c - 1))))

    behind_index : (c : ℕ) → suc e ≤ max → val v (suc (index_of max (suc e) c)) ≡ at c
    behind_index c le =
        let i : suc (index_of max (suc e) c) ≡ index_of max e c = omega arith in
        ap (λ (n : ℕ). val v n) i

    before_index : (c : ℕ) → suc e ≤ max → 0 < c → val v (index_of max (suc e) c - 1) ≡ at (c - 1)
    before_index c le p =
        let i : index_of max (suc e) c - 1 ≡ index_of max e (c - 1) = omega arith in
        ap (λ (n : ℕ). val v n) i

    within :
        (c x x0 : ℕ)
        → suc e ≤ max
        → c ≤ suc e
        → (x ≡ x0) ⊎ ((x ≤ length src) × (x + max ≤ length dst + index_of max (suc e) c))
        → (x ≡ x0) ⊎ ((x ≤ length src) × (x + suc e ≤ length dst + 2 * c))
    within c x x0 le lc (inl q) = inl q
    within c x x0 le lc (inr (a, b)) = inr (a, omega arith)

    pub Good-Moves : (c x : ℕ) → suc e ≤ max → c ≤ suc e → Good src dst max e v c x → Moves c x
    Good-Moves c x le lc (x0, sl, w, inl (d, q)) = (
      x0,
      sl.0,
      within c x x0 le lc w,
      inl (
        d.1,
        q ∙ behind_index c le,
        λ p. omega (arith, d.2 p, behind_index c le, before_index c le p),
      ),
    )
    Good-Moves c x le lc (x0, sl, w, inr (r, q)) = (
      x0,
      sl.0,
      within c x x0 le lc w,
      inr (
        r.1,
        q ∙ ap suc (before_index c le r.1),
        λ p. omega (arith, r.2 p, behind_index c le, before_index c le r.1),
      ),
    )

    pub Moves-rise : (c x : ℕ) → Moves c x → (c ≤ e → at c ≤ x) × (0 < c → suc (at (c - 1)) ≤ x)
    Moves-rise c x (x0, l, w, inl (a, q, f)) = (λ p. omega arith, λ p. omega (arith, f p))
    Moves-rise c x (x0, l, w, inr (a, q, f)) = (λ p. omega (arith, f p), λ p. omega arith)

    pub after_pred : (c : ℕ) → 0 < c → at (suc (c - 1)) ≡ at c
    after_pred c p = let i : suc (c - 1) ≡ c = omega arith in ap (λ (n : ℕ). at n) i

    past_src :
        (trace : List (List ℕ)) (c x : ℕ)
        → Level e trace v
        → suc e ≤ max
        → c ≤ suc e
        → Moves c x
        → length src < x
        → length dst + 2 * c ≤ x + suc e
        → ⊥
    past_src trace c x lv le lc (x0, l, inr (a, b), m) h q = absurd (omega arith)
    past_src trace c x lv le lc (x0, l, inl w, inl (a, g, f)) h q =
        let (p, k) = lv.over_src c a (omega arith) in
        lv.away (c - 1) (omega arith) (omega arith, omega arith)
    past_src trace c x lv le lc (x0, l, inl w, inr (a, g, f)) h q =
        lv.away (c - 1) (omega arith) (omega arith, omega arith)

    past_dst :
        (trace : List (List ℕ)) (c x : ℕ)
        → Level e trace v
        → suc e ≤ max
        → c ≤ suc e
        → Moves c x
        → length src ≤ x
        → length dst + 2 * c < x + suc e
        → ⊥
    past_dst trace c x lv le lc (x0, l, inr (a, b), m) h q = absurd (omega arith)
    past_dst trace c x lv le lc (x0, l, inl w, inl (a, g, f)) h q =
        lv.away c a (omega arith, omega arith)
    past_dst trace c x lv le lc (x0, l, inl w, inr (a, g, f)) h q =
        let (p, k) = lv.over_dst (c - 1) (omega arith) (omega arith) in
        let same : at (suc (c - 1)) ≡ at c = after_pred c a in
        lv.away c (omega arith) (omega (arith, same), omega (arith, same))

    -- Where a step reaches the end while no step of the round before has, it is at the end of both sides.
    pub Moves-end :
        (trace : List (List ℕ)) (c x : ℕ)
        → Level e trace v
        → suc e ≤ max
        → c ≤ suc e
        → Moves c x
        → length src ≤ x
        → length dst + 2 * c ≤ x + suc e
        → (x ≡ length src) × (x + suc e ≡ length dst + 2 * c)
    Moves-end trace c x lv le lc m p q = (
      elim (Bool-cases (ltb (length src) x)) [
        | inl h ↦ absurd (past_src trace c x lv le lc m (ground arith) q)
        | inr h ↦ ground arith
      ],
      elim (Bool-cases (ltb (length dst + 2 * c) (x + suc e))) [
        | inl h ↦ absurd (past_dst trace c x lv le lc m p (ground arith))
        | inr h ↦ ground arith
      ],
    )

  pub Good-Traced :
      (e c x : ℕ) (trace : List (List ℕ)) (v : List ℕ)
      → suc e ≤ max
      → c ≤ suc e
      → Level e trace v
      → Good src dst max e v c x
      → Traced src dst max (v ∷ trace) (index_of max (suc e) c) x
  Good-Traced e c x [] v le lc lv g = absurd (omega (arith, lv.depth))
  Good-Traced e c x (w ∷ t) v le lc lv (x0, sl, o, inl (d, q)) =
      let i : suc (index_of max (suc e) c) ≡ index_of max e c = omega arith in
      let deep : length (w ∷ t) ≡ suc e = lv.depth in
      let value : at e v c ≡ x0 = sym (q ∙ behind_index e v c le) in
      (
        x0,
        sl,
        inl (
          ap (λ (n : ℕ). moves_down max n (index_of max (suc e) c) v) deep ∙ d.0,
          get_elem?-val v (suc (index_of max (suc e) c)) (omega (arith, lv.size, d.1))
              ∙ ap some (sym q),
          omega (arith, value, lv.far c d.1),
          rw i (
              subst (λ (n : ℕ). Traced src dst max (w ∷ t) (index_of max e c) n) value
                (lv.traced c d.1)),
        ),
      )
  Good-Traced e c x (w ∷ t) v le lc lv (x0, sl, o, inr (r, q)) =
      let i : index_of max (suc e) c - 1 ≡ index_of max e (c - 1) = omega (arith, r.1) in
      let deep : length (w ∷ t) ≡ suc e = lv.depth in
      let p : ℕ = val v (index_of max (suc e) c - 1) in
      let value : at e v (c - 1) ≡ p = sym (before_index e v c le r.1) in
      (
        x0,
        sl,
        inr (
          p,
          ap (λ (n : ℕ). moves_down max n (index_of max (suc e) c) v) deep ∙ r.0,
          get_elem?-val v (index_of max (suc e) c - 1) (omega (arith, lv.size, r.1)),
          q,
          omega (arith, r.1),
          omega (arith, value, lv.far (c - 1) (omega (arith, r.1)), r.1),
          rw i (lv.traced (c - 1) (omega (arith, r.1))),
        ),
      )
