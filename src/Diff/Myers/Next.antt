-- ===== src/Diff/Myers/Next.antt =====
-- internal/diff/diff.go: a round of `myers` that goes on keeps what holds of its array.
use libfossil.Base.{
  ℕ, zero, suc, ◌+◌, ◌*◌, ◌-◌, ◌≤◌, ◌<◌, ◌≡◌, inl, inr, ap, arith, List, ◌∷◌, Bytes, length,
}
use libfossil.Diff.Myers.Step.{val, index_of}
use libfossil.Diff.Myers.Round.{Done}
use libfossil.Diff.Myers.Level.{Level, Moves, Good-Moves, Moves-rise, Good-Traced, after_pred, at}

module _ (src dst : List Bytes) (max e : ℕ) (trace : List (List ℕ)) (v w : List ℕ)
    (lv : Level src dst max e trace v) (le : suc e ≤ max)
    (done : Done src dst max e v (suc (suc e)) w) where
  moved : (c : ℕ) → c ≤ suc e → Moves src dst max e v c (val w (index_of max (suc e) c))
  moved c h =
      Good-Moves src dst max e v c (val w (index_of max (suc e) c)) le h (done c (omega arith)).0

  pub rise : (c : ℕ) → c ≤ e → at src dst max e v c ≤ val w (index_of max (suc e) c)
  rise c h =
      (Moves-rise src dst max e v c (val w (index_of max (suc e) c)) (moved c (omega arith))).0 h

  pub rise_suc : (c : ℕ) → c ≤ e → suc (at src dst max e v c) ≤ val w (index_of max (suc e) (suc c))
  rise_suc c h =
      let i : suc c - 1 ≡ c = omega arith in
      let same : at src dst max e v (suc c - 1) ≡ at src dst max e v c =
        ap (λ (n : ℕ). at src dst max e v n) i in
      omega (
        arith,
        same,
        (Moves-rise src dst max e v (suc c) (val w (index_of max (suc e) (suc c)))
              (moved (suc c) (omega arith))).1
            (omega arith),
      )

  next_far : (c : ℕ) → c ≤ suc e → c ≤ val w (index_of max (suc e) c)
  next_far zero h = omega arith
  next_far (suc c) h = omega (arith, rise_suc c (omega arith), lv.far c (omega arith))

  over_src_next :
      (c x : ℕ)
      → c ≤ suc e
      → Moves src dst max e v c x
      → length src < x
      → (0 < c) × (x ≤ suc (val w (index_of max (suc e) (c - 1))))
  over_src_next c x h (x0, l, inr (a, b), m) o = absurd (omega arith)
  over_src_next c x h (x0, l, inl q, inl (a, g, f)) o =
      let (p, k) = lv.over_src c a (omega arith) in (p, omega (arith, rise (c - 1) (omega arith)))
  over_src_next c x h (x0, l, inl q, inr (a, g, f)) o =
      (a, omega (arith, rise (c - 1) (omega arith)))

  over_dst_next :
      (c x : ℕ)
      → c ≤ suc e
      → Moves src dst max e v c x
      → length dst + 2 * c < x + suc e
      → (c < suc e) × (suc x ≤ val w (index_of max (suc e) (suc c)))
  over_dst_next c x h (x0, l, inr (a, b), m) o = absurd (omega arith)
  over_dst_next c x h (x0, l, inl q, inl (a, g, f)) o = (omega arith, omega (arith, rise_suc c a))
  over_dst_next c x h (x0, l, inl q, inr (a, g, f)) o =
      let (p, k) = lv.over_dst (c - 1) (omega arith) (omega arith) in
      let same : at src dst max e v (suc (c - 1)) ≡ at src dst max e v c =
        after_pred src dst max e v c a in
      (omega arith, omega (arith, same, rise_suc c (omega arith)))

  pub next-Level : length w ≡ suc (2 * max) → Level src dst max (suc e) (v ∷ trace) w
  next-Level size = record {
    size = size;
    depth = ap suc lv.depth;
    far = next_far;
    traced = λ c h.
        Good-Traced src dst max e c (val w (index_of max (suc e) c)) trace v le h lv
          (done c (omega arith)).0;
    away = λ c h. (done c (omega arith)).1;
    over_src = λ c h. over_src_next c (val w (index_of max (suc e) c)) h (moved c h);
    over_dst = λ c h. over_dst_next c (val w (index_of max (suc e) c)) h (moved c h);
  }
