-- ===== src/Diff/Myers/First.antt =====
-- internal/diff/diff.go: the first round of `myers`.
use libfossil.Base.{
  ℕ, zero, suc, ◌+◌, ◌*◌, ◌-◌, ◌≤◌, ◌<◌, ◌≡◌, ◌⊎◌, ◌∙◌, refl, ap, subst, arith, true, false, ◌&&◌,
  none, some, List, [], ◌∷◌, Bytes, leb, ◌==◌, length, set, drop, replicate, length-replicate, ok,
}
use libfossil.Diff.Myers.{moves_down, start_x, snake, round}
use libfossil.Diff.Myers.Walk.{Traced, Slide, Stops}
use libfossil.Diff.Myers.Step.{val, val-set, length-set, entry-val, get_elem?-val, index_of}
use libfossil.Diff.Myers.Round.{snake-Slide, snake-Stops}
use libfossil.Diff.Myers.Level.{Level}
use libfossil.Diff.Myers.Furthest.{
  Way, origin, keep, delete, insert, way_place, Furthest, Unreached, keep-le,
}

val-replicate : (n i : ℕ) → val (replicate n 0) i ≡ 0
val-replicate zero i = refl
val-replicate (suc n) zero = refl
val-replicate (suc n) (suc i) = val-replicate n i

module _ (src dst : List Bytes) where
  -- `max`, the most rounds.
  abbrev pub bound : ℕ
  bound = length src + length dst

  -- The first round, on an array of zeros.
  abbrev pub zeros : List ℕ
  zeros = replicate (suc (2 * bound)) 0

  zeros_size : length zeros ≡ suc (2 * bound)
  zeros_size = length-replicate {A = ℕ} (suc (2 * bound)) 0

  abbrev pub first_x : ℕ
  first_x = snake 0 (drop 0 src) (drop (0 + bound - bound) dst)

  first_start : 0 < length src → start_x bound 0 bound zeros ≡ ok 0
  unfolding start_x moves_down
  first_start p =
      let t : (bound + 0 == bound) ≡ true = ground arith in
      rw
        (
          t,
          entry-val zeros (suc bound) (omega (arith, zeros_size)),
          val-replicate (suc (2 * bound)) (suc bound),
        )
        refl

  pub first_end :
      0 < length src
      → (leb (length src) first_x && leb (length dst) (first_x + bound - bound)) ≡ true
      → round src dst bound 0 1 bound zeros ≡ ok none
  unfolding round
  first_end p t = rw (first_start p, t) refl

  pub first_on :
      0 < length src
      → (leb (length src) first_x && leb (length dst) (first_x + bound - bound)) ≡ false
      → round src dst bound 0 1 bound zeros ≡ ok (some (set zeros bound first_x))
  unfolding round
  first_on p t = rw (first_start p, t) refl

  pub first_Slide :
      Slide src dst bound 0 first_x bound
      × ((first_x ≡ 0) ⊎ ((first_x ≤ length src) × (first_x + bound ≤ length dst + bound)))
  first_Slide = snake-Slide src dst bound 0 zeros bound 0 (omega arith)

  first_Stops : Stops src dst bound bound first_x
  first_Stops = snake-Stops src dst bound 0 zeros bound 0 (omega arith)

  first_value : (c : ℕ) → c ≤ 0 → val (set zeros bound first_x) (index_of bound 0 c) ≡ first_x
  first_value c h =
      let i : index_of bound 0 c ≡ bound = omega arith in
      ap (λ (n : ℕ). val (set zeros bound first_x) n) i
      ∙ val-set zeros bound first_x (omega (arith, zeros_size))

  pub first_Traced :
      0 < length src → (i : ℕ) → i ≡ bound → Traced src dst bound (zeros ∷ []) i first_x
  first_Traced p i h = (
    h,
    get_elem?-val zeros (suc bound) (omega (arith, zeros_size, h))
        ∙ ap some (val-replicate (suc (2 * bound)) (suc bound)),
    first_Slide.0,
  )

  pub first_Level :
      0 < length src
      → (leb (length src) first_x && leb (length dst) (first_x + bound - bound)) ≡ false
      → Level src dst bound 0 (zeros ∷ []) (set zeros bound first_x)
  first_Level p t = record {
    size = length-set zeros bound first_x ∙ zeros_size;
    depth = refl;
    far = λ j h. omega arith;
    traced = λ c h. rw (first_value c h) (first_Traced p (index_of bound 0 c) (omega arith));
    away = λ c h r. absurd (ground (arith, r.0, r.1, first_value c h));
    over_src = λ c h o. absurd (ground (arith, o, first_value c h, first_Slide.1));
    over_dst = λ c h o. absurd (ground (arith, o, first_value c h, first_Slide.1));
  }

  middle : (c b : ℕ) → c + b ≡ 0 → bound ≡ index_of bound 0 c
  middle c b h = omega arith

  pub first_Furthest : Furthest src dst bound 0 (set zeros bound first_x)
  first_Furthest c b x y r h =
      let c0 : c ≡ 0 = omega arith in rw (first_value c (omega arith)) (diagonal c b x y r h)
    where
      diagonal : (c b x y : ℕ) → Way src dst c b x y → c + b ≡ 0 → x ≤ first_x
      diagonal _ _ _ _ origin h = omega arith
      diagonal c b (suc x) (suc y) (keep l r g g') h =
          keep-le src dst bound 0 c b x y first_x l h (omega arith) (way_place r)
            (diagonal c b x y r h)
            (subst (λ (i : ℕ). Stops src dst bound i first_x) (middle c b h) first_Stops) g g'
      diagonal (suc c) b (suc x) y (delete r) h = absurd (omega arith)
      diagonal c (suc b) x (suc y) (insert r) h = absurd (omega arith)

  pub first_Unreached :
      Level src dst bound 0 (zeros ∷ []) (set zeros bound first_x) → Unreached src dst bound 0
  first_Unreached lv c b r h =
      let x = first_Furthest c b (length src) (length dst) r (omega arith) in
      lv.away c (omega arith) (x, omega (arith, way_place r))
