-- ===== src/Diff/Myers/Furthest.antt =====
-- internal/diff/diff.go: no way of as many edits as a round gets further than `myers` does in it.
use libfossil.Base.{
  ℕ, suc, ◌+◌, ◌-◌, ◌≤◌, ◌≡◌, inl, inr, ◌∙◌, sym, ap, arith, some, List, Bytes, ltb, length,
  get_elem?, Bool-cases,
}
use libfossil.Diff.Myers.Step.{val, index_of}
use libfossil.Diff.Myers.Walk.{Stops}
use libfossil.Diff.Myers.Round.{Done}
use libfossil.Diff.Myers.Level.{Level}
use libfossil.Diff.Myers.Next.{rise, rise_suc}

-- A way through both sides up to two places, with its numbers of deletions and insertions.
pub data Way (src dst : List Bytes) : ℕ → ℕ → ℕ → ℕ → Type 0 where
  origin : Way src dst 0 0 0 0
  keep :
      {c b x y : ℕ} (l : Bytes)
      → Way src dst c b x y
      → get_elem? src x ≡ some l
      → get_elem? dst y ≡ some l
      → Way src dst c b (suc x) (suc y)
  delete : {c b x y : ℕ} → Way src dst c b x y → Way src dst (suc c) b (suc x) y
  insert : {c b x y : ℕ} → Way src dst c b x y → Way src dst c (suc b) x (suc y)

pub way_place : {src dst : List Bytes} {c b x y : ℕ} → Way src dst c b x y → x + b ≡ y + c
way_place origin = omega arith
way_place (keep l r g h) = omega (arith, way_place r)
way_place (delete r) = omega (arith, way_place r)
way_place (insert r) = omega (arith, way_place r)

module _ (src dst : List Bytes) (max : ℕ) where
  -- Each diagonal is as far as any way of as many edits.
  abbrev pub Furthest : ℕ → List ℕ → Type 0
  Furthest e v = (c b x y : ℕ) → Way src dst c b x y → c + b ≡ e → x ≤ val v (index_of max e c)

  -- No way of so few edits leads to the end.
  abbrev pub Unreached : ℕ → Type 0
  Unreached e = (c b : ℕ) → Way src dst c b (length src) (length dst) → c + b ≤ e → ⊥

  -- A kept line does not lead beyond a place at which a diagonal stops.
  pub keep-le :
      (d c b x y far : ℕ) (l : Bytes)
      → c + b ≡ d
      → d ≤ max
      → x + b ≡ y + c
      → x ≤ far
      → Stops src dst max (index_of max d c) far
      → get_elem? src x ≡ some l
      → get_elem? dst y ≡ some l
      → suc x ≤ far
  keep-le d c b x y far l sum le place h stop g g' = elim (Bool-cases (ltb x far)) [
    | inl less ↦ ground arith
    | inr same ↦
        let xf : x ≡ far = ground arith in
        let at : y ≡ far + max - index_of max d c = omega arith in
        absurd (
          stop l (ap (λ (n : ℕ). get_elem? src n) (sym xf) ∙ g)
            (ap (λ (n : ℕ). get_elem? dst n) (sym at) ∙ g'))
  ]

module _ (src dst : List Bytes) (max e : ℕ) (trace : List (List ℕ)) (v w : List ℕ)
    (lv : Level src dst max e trace v) (le : suc e ≤ max)
    (done : Done src dst max e v (suc (suc e)) w) where
  pub next-Furthest : Furthest src dst max e v → Furthest src dst max (suc e) w
  next-Furthest before _ _ _ _ origin h = absurd (omega arith)
  next-Furthest before c b (suc x) (suc y) (keep l r g g') h =
      keep-le src dst max (suc e) c b x y (val w (index_of max (suc e) c)) l h le (way_place r)
        (next-Furthest before c b x y r h) (done c (omega arith)).2 g g'
  next-Furthest before (suc c) b (suc x) y (delete r) h = omega (
    arith,
    before c b x y r (omega arith),
    rise_suc src dst max e trace v w lv le done c (omega arith),
  )
  next-Furthest before c (suc b) x (suc y) (insert r) h = omega (
    arith,
    before c b x y r (omega arith),
    rise src dst max e trace v w lv le done c (omega arith),
  )

  pub next-Unreached :
      Furthest src dst max (suc e) w → Unreached src dst max e → Unreached src dst max (suc e)
  next-Unreached far none_before c b r h = elim (Bool-cases (ltb (c + b) (suc e))) [
    | inl less ↦ none_before c b r (ground arith)
    | inr same ↦
        let sum : c + b ≡ suc e = ground arith in
        let x = far c b (length src) (length dst) r sum in
        (done c (omega arith)).1 (x, omega (arith, way_place r))
  ]
