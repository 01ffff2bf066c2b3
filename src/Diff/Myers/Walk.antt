-- ===== src/Diff/Myers/Walk.antt =====
-- internal/diff/diff.go: the paths that the snapshots record, and the steps of `backtrack` on them.
use libfossil.Base.{
  ℕ, zero, suc, ◌+◌, ◌-◌, ◌≤◌, ◌<◌, ◌≡◌, ◌⊎◌, ◌∙◌, refl, sym, ap, subst, arith, true, false, ◌&&◌,
  some, List, [], ◌∷◌, ltb, ◌==◌, Bytes, length, get_elem?, drop, lt→ltb, ==_iff, ok,
}
use libfossil.Diff.{op_equal, op_insert, op_delete, EditOp, sources, targets, edits}
use libfossil.Diff.Myers.{entry, moves_down, walk_back, unmove}

get_elem?-below :
    {A : Type 0} (xs : List A) (i : ℕ) → i < length xs → (x : A) × (get_elem? xs i ≡ some x)
get_elem?-below [] i h = absurd (omega arith)
get_elem?-below (x ∷ xs) zero h = (x, refl)
get_elem?-below (x ∷ xs) (suc i) h = get_elem?-below xs i (omega arith)

drop-get_elem? :
    {A : Type 0} (xs : List A) (i : ℕ) (x : A)
    → get_elem? xs i ≡ some x
    → drop i xs ≡ x ∷ drop (suc i) xs
drop-get_elem? [] i x h = absurd (cc)
drop-get_elem? (y ∷ xs) zero x h = let e : y ≡ x = cc in ap (λ z. z ∷ xs) e
drop-get_elem? (y ∷ xs) (suc i) x h = drop-get_elem? xs i x h

pub entry_some :
    {A : Type 0} (xs : List A) (i : ℕ) (x : A) → get_elem? xs i ≡ some x → entry xs i ≡ ok x
unfolding entry
entry_some xs i x h = rw (h, entry) refl

module _ (src dst : List Bytes) (max : ℕ) where
  -- A script for what is behind a place of both sides, with its number of edits.
  abbrev pub Scripts : ℕ → ℕ → ℕ → List EditOp → Type 0
  Scripts x y n ops = (sources ops ≡ drop x src) × (targets ops ≡ drop y dst) × (edits ops ≡ n)

  -- Equal lines on both sides, from one place up to another on the diagonal.
  abbrev pub Slide : ℕ → ℕ → ℕ → Type 0
  Slide x0 x i =
      (x0 ≤ x)
      × ((j : ℕ)
          → x0 ≤ j
          → j < x
          → (l : Bytes) × (get_elem? src j ≡ some l) × (get_elem? dst (j + max - i) ≡ some l))

  -- The lines behind a place of a diagonal differ, or a side has none.
  abbrev pub Stops : ℕ → ℕ → Type 0
  Stops i x = (l : Bytes) → get_elem? src x ≡ some l → get_elem? dst (x + max - i) ≡ some l → ⊥

  -- A path that ends on a diagonal at `x`, as the snapshots of the rounds record it: each round's
  -- move, from what the round before had left, and the diagonal behind it.
  abbrev pub Traced : List (List ℕ) → ℕ → ℕ → Type 0
  Traced [] i x = ⊥
  Traced (v ∷ []) i x = (i ≡ max) × (get_elem? v (suc max) ≡ some 0) × Slide 0 x max
  Traced (v ∷ w ∷ t) i x =
      (x0 : ℕ) × Slide x0 x i
      × (((moves_down max (length (w ∷ t)) i v ≡ ok true)
            × (get_elem? v (suc i) ≡ some x0)
            × (suc i ≤ x0 + max)
            × Traced (w ∷ t) (suc i) x0)
          ⊎ ((p : ℕ) × (moves_down max (length (w ∷ t)) i v ≡ ok false)
              × (get_elem? v (i - 1) ≡ some p)
              × (x0 ≡ suc p)
              × (0 < i)
              × (i ≤ suc p + max)
              × Traced (w ∷ t) (i - 1) p))

  walk_back_stop :
      (prev_x prev_i x y : ℕ) (ops : List EditOp)
      → (x ≤ prev_x) ⊎ (y + prev_i ≤ prev_x + max)
      → walk_back src max prev_x prev_i x y ops ≡ ok (x, y, ops)
  unfolding walk_back
  walk_back_stop prev_x prev_i zero y ops h = refl
  walk_back_stop prev_x prev_i (suc x) zero ops h = refl
  walk_back_stop prev_x prev_i (suc x) (suc y) ops h =
      let stops : (ltb prev_x (suc x) && ltb (prev_x + max) (suc y + prev_i)) ≡ false =
        ground arith in
      rw stops refl

  pub walk_back-Scripts :
      (k prev_x prev_i x0 y0 x y n : ℕ) (ops : List EditOp)
      → x ≡ x0 + k
      → y ≡ y0 + k
      → prev_x ≤ x0
      → prev_x + max ≤ y0 + prev_i
      → (x0 ≤ prev_x) ⊎ (y0 + prev_i ≤ prev_x + max)
      → ((j : ℕ)
          → j < k
          → (l : Bytes) × (get_elem? src (x0 + j) ≡ some l) × (get_elem? dst (y0 + j) ≡ some l))
      → Scripts x y n ops
      → (ops' : List EditOp) × (walk_back src max prev_x prev_i x y ops ≡ ok (x0, y0, ops'))
        × Scripts x0 y0 n ops'
  unfolding walk_back
  walk_back-Scripts zero prev_x prev_i x0 y0 x y n ops ex ey a b stop lines s =
      let x-x0 : x ≡ x0 = omega arith in
      let y-y0 : y ≡ y0 = omega arith in
      (
        ops,
        walk_back_stop prev_x prev_i x y ops (
              subst (λ (n : ℕ). (n ≤ prev_x) ⊎ (y + prev_i ≤ prev_x + max)) (sym x-x0)
                (subst (λ (n : ℕ). (x0 ≤ prev_x) ⊎ (n + prev_i ≤ prev_x + max)) (sym y-y0) stop))
            ∙ rw (x-x0, y-y0) refl,
        (s.0 ∙ ap (λ (n : ℕ). drop n src) x-x0, s.1 ∙ ap (λ (n : ℕ). drop n dst) y-y0, s.2),
      )
  walk_back-Scripts (suc k) prev_x prev_i x0 y0 zero y n ops ex ey a b stop lines s =
      absurd (omega arith)
  walk_back-Scripts (suc k) prev_x prev_i x0 y0 (suc x) zero n ops ex ey a b stop lines s =
      absurd (omega arith)
  walk_back-Scripts (suc k) prev_x prev_i x0 y0 (suc x) (suc y) n ops ex ey a b stop lines s =
      let (l, gs, gd) = lines k (omega arith) in
      let xk : x0 + k ≡ x = omega arith in
      let yk : y0 + k ≡ y = omega arith in
      let gx : get_elem? src x ≡ some l = ap (λ (n : ℕ). get_elem? src n) (sym xk) ∙ gs in
      let gy : get_elem? dst y ≡ some l = ap (λ (n : ℕ). get_elem? dst n) (sym yk) ∙ gd in
      let more =
        walk_back-Scripts k prev_x prev_i x0 y0 x y n (record { kind = op_equal; text = l } ∷ ops)
          (omega arith) (omega arith) a b stop (λ j h. lines j (omega arith))
          (
            ap (λ r. l ∷ r) s.0 ∙ sym (drop-get_elem? src x l gx),
            ap (λ r. l ∷ r) s.1 ∙ sym (drop-get_elem? dst y l gy),
            omega (arith, s.2),
          ) in
      (
        more.0,
        rw
            (
              lt→ltb prev_x (suc x) (omega arith),
              lt→ltb (prev_x + max) (suc y + prev_i) (omega arith),
              entry_some src x l gx,
            )
            more.1,
        more.2,
      )

  pub unmove_down :
      (x y n : ℕ) (ops : List EditOp)
      → y < length dst
      → Scripts x (suc y) n ops
      → (ops' : List EditOp) × (unmove src dst x x (suc y) ops ≡ ok (x, y, ops'))
        × Scripts x y (suc n) ops'
  unfolding unmove
  unmove_down x y n ops h s =
      let (l, g) = get_elem?-below dst y h in
      (
        record { kind = op_insert; text = l } ∷ ops,
        rw ((==_iff x x).1 refl, entry_some dst y l g) refl,
        (s.0, ap (λ r. l ∷ r) s.1 ∙ sym (drop-get_elem? dst y l g), omega (arith, s.2)),
      )

  pub unmove_right :
      (p y n : ℕ) (ops : List EditOp)
      → p < length src
      → Scripts (suc p) y n ops
      → (ops' : List EditOp) × (unmove src dst p (suc p) y ops ≡ ok (p, y, ops'))
        × Scripts p y (suc n) ops'
  unfolding unmove
  unmove_right p y n ops h s =
      let (l, g) = get_elem?-below src p h in
      let apart : (suc p == p) ≡ false = ground arith in
      (
        record { kind = op_delete; text = l } ∷ ops,
        rw (apart, entry_some src p l g) refl,
        (ap (λ r. l ∷ r) s.0 ∙ sym (drop-get_elem? src p l g), s.1, omega (arith, s.2)),
      )

  -- The lines of a slide, counted from its start.
  pub Slide-lines :
      (x0 x y0 i k : ℕ)
      → x ≡ x0 + k
      → x0 + max ≡ y0 + i
      → Slide x0 x i
      → (j : ℕ) → j < k
      → (l : Bytes) × (get_elem? src (x0 + j) ≡ some l) × (get_elem? dst (y0 + j) ≡ some l)
  Slide-lines x0 x y0 i k e f (a, h) j b =
      let (l, g, g') = h (x0 + j) (omega arith) (omega arith) in
      let at : x0 + j + max - i ≡ y0 + j = omega arith in
      (l, g, ap (λ (n : ℕ). get_elem? dst n) (sym at) ∙ g')
