-- ===== src/Diff/Myers/Round.antt =====
-- internal/diff/diff.go: the inner loop of `myers`, over all diagonals of a round.
use libfossil.Base.{
  ℕ, zero, suc, ◌+◌, ◌*◌, ◌-◌, ◌≤◌, ◌<◌, ◌≡◌, ◌⊎◌, inl, inr, ◌∙◌, refl, sym, ap, subst, arith, true,
  false, ◌&&◌, Option, none, some, List, Bytes, leb, ◌==◌, length, length-drop, get_elem?, set,
  drop, ok, Bool-cases,
}
use libfossil.Base.Cuts.{get_elem?-drop}
use libfossil.Diff.Myers.{Result, start_x, snake, round}
use libfossil.Diff.Myers.Walk.{Slide, Stops}
use libfossil.Diff.Myers.Step.{
  val, val-set, val-set_other, length-set, index_of, ComesDown, ComesRight,
}
use libfossil.Diff.Myers.Good.{Good, Agrees, snake-run, start_same}

module _ (src dst : List Bytes) (max e : ℕ) (v : List ℕ) where
  -- Each diagonal of the round before is at least as far as without any line of the second side.
  abbrev pub IsFar : Type 0
  IsFar = (j : ℕ) → j ≤ e → j ≤ val v (index_of max e j)

  abbrev pub Reached : ℕ → ℕ → Type 0
  Reached i x = (length src ≤ x) × (length dst + i ≤ x + max)

  pub snake-Stops :
      (i x0 : ℕ)
      → i ≤ x0 + max
      → Stops src dst max i (snake x0 (drop x0 src) (drop (x0 + max - i) dst))
  snake-Stops i x0 h l g g' =
      let (k, r, a, b, lines, stop) = snake-run x0 (drop x0 src) (drop (x0 + max - i) dst) in
      let x : ℕ = snake x0 (drop x0 src) (drop (x0 + max - i) dst) in
      let at : x + max - i ≡ x0 + max - i + k = omega (arith, r) in
      stop l (get_elem?-drop x0 src k ∙ ap (λ (n : ℕ). get_elem? src n) (sym r) ∙ g)
        (get_elem?-drop (x0 + max - i) dst k ∙ ap (λ (n : ℕ). get_elem? dst n) (sym at) ∙ g')

  pub snake-Slide :
      (i x0 : ℕ)
      → i ≤ x0 + max
      → Slide src dst max x0 (snake x0 (drop x0 src) (drop (x0 + max - i) dst)) i
        × ((snake x0 (drop x0 src) (drop (x0 + max - i) dst) ≡ x0)
            ⊎ ((snake x0 (drop x0 src) (drop (x0 + max - i) dst) ≤ length src)
                × (snake x0 (drop x0 src) (drop (x0 + max - i) dst) + max ≤ length dst + i)))
  snake-Slide i x0 h =
      let (k, r, a, b, lines, stop) = snake-run x0 (drop x0 src) (drop (x0 + max - i) dst) in
      let a' : k ≤ length src - x0 = omega (arith, a, length-drop x0 src) in
      let b' : k ≤ length dst - (x0 + max - i) = omega (arith, b, length-drop (x0 + max - i) dst) in
      (
        (
          omega (arith, r),
          λ j f g.
              let (l, s, t) = lines (j - x0) (omega (arith, r)) in
              let js : x0 + (j - x0) ≡ j = omega arith in
              let jt : x0 + max - i + (j - x0) ≡ j + max - i = omega arith in
              (
                l,
                ap (λ (n : ℕ). get_elem? src n) (sym js) ∙ sym (get_elem?-drop x0 src (j - x0)) ∙ s,
                ap (λ (n : ℕ). get_elem? dst n) (sym jt)
                    ∙ sym (get_elem?-drop (x0 + max - i) dst (j - x0))
                    ∙ t,
              ),
        ),
        elim (Bool-cases (k == 0)) [
          | inl z ↦ inl (ground (arith, r))
          | inr z ↦ inr (ground (arith, r, a'), ground (arith, r, b'))
        ],
      )

  start-IsFar :
      (c x0 : ℕ)
      → suc e ≤ max
      → c ≤ suc e
      → IsFar
      → (ComesDown max e c v × (x0 ≡ val v (suc (index_of max (suc e) c))))
        ⊎ (ComesRight max e c v × (x0 ≡ suc (val v (index_of max (suc e) c - 1))))
      → c ≤ x0
  start-IsFar c x0 le lc far (inl (d, q)) =
      let i : suc (index_of max (suc e) c) ≡ index_of max e c = omega (arith, d.1) in
      omega (arith, q, ap (λ (n : ℕ). val v n) i, far c d.1)
  start-IsFar c x0 le lc far (inr (r, q)) =
      let i : index_of max (suc e) c - 1 ≡ index_of max e (c - 1) = omega (arith, r.1) in
      omega (arith, q, ap (λ (n : ℕ). val v n) i, far (c - 1) (omega (arith, r.1)), r.1)

  -- What a round that goes on has done so far.
  abbrev pub Done : ℕ → List ℕ → Type 0
  Done c w =
      (j : ℕ)
      → j < c
      → Good src dst max e v j (val w (index_of max (suc e) j))
        × (Reached (index_of max (suc e) j) (val w (index_of max (suc e) j)) → ⊥)
        × Stops src dst max (index_of max (suc e) j) (val w (index_of max (suc e) j))

  set-Agrees :
      (w : List ℕ) (c x : ℕ)
      → suc e ≤ max
      → c ≤ suc e
      → Agrees src dst max e v w
      → Agrees src dst max e v (set w (index_of max (suc e) c) x)
  set-Agrees w c x le lc a j h =
      val-set_other w (index_of max (suc e) c) (index_of max e j) x
        (λ (q : index_of max (suc e) c ≡ index_of max e j). absurd (omega (arith, q)))
      ∙ a j h

  set-Done :
      (w : List ℕ) (c x : ℕ)
      → suc e ≤ max
      → c ≤ suc e
      → length w ≡ suc (2 * max)
      → Done c w
      → Good src dst max e v c x
      → (Reached (index_of max (suc e) c) x → ⊥)
      → Stops src dst max (index_of max (suc e) c) x
      → Done (suc c) (set w (index_of max (suc e) c) x)
  set-Done w c x le lc lw done good away stops j h = elim (Bool-cases (j == c)) [
    | inl q ↦
        let jc : j ≡ c = ground arith in
        let at : val (set w (index_of max (suc e) c) x) (index_of max (suc e) j) ≡ x =
          ap (λ (n : ℕ). val (set w (index_of max (suc e) c) x) (index_of max (suc e) n)) jc
          ∙ val-set w (index_of max (suc e) c) x (omega arith) in
        rw at (
          subst
            (λ (n : ℕ).
              Good src dst max e v n x
              × (Reached (index_of max (suc e) n) x → ⊥)
              × Stops src dst max (index_of max (suc e) n) x)
            (sym jc) (good, away, stops))
    | inr q ↦
        let less : j < c = ground arith in
        let at : val (set w (index_of max (suc e) c) x) (index_of max (suc e) j)
            ≡ val w (index_of max (suc e) j) =
          val-set_other w (index_of max (suc e) c) (index_of max (suc e) j) x
            (λ (r : index_of max (suc e) c ≡ index_of max (suc e) j). absurd (omega (arith, r))) in
        rw at (done j less)
  ]

  -- The results of the rest of a round.
  abbrev pub Arrives : Result (Option (List ℕ)) → Type 0
  Arrives run =
      (j : ℕ) × (x : ℕ) × (j ≤ suc e)
      × Good src dst max e v j x
      × Reached (index_of max (suc e) j) x
      × (run ≡ ok none)

  abbrev pub GoesOn : Result (Option (List ℕ)) → Type 0
  GoesOn run =
      (w : List ℕ) × (run ≡ ok (some w)) × (length w ≡ suc (2 * max)) × Done (suc (suc e)) w

  round_step :
      (left c x0 : ℕ) (w : List ℕ)
      → start_x max (suc e) (index_of max (suc e) c) w ≡ ok x0
      → (leb (length src) (snake x0 (drop x0 src) (drop (x0 + max - index_of max (suc e) c) dst))
          && leb (length dst) (
              snake x0 (drop x0 src) (drop (x0 + max - index_of max (suc e) c) dst)
              + max
              - index_of max (suc e) c))
        ≡ false
      → round src dst max (suc e) (suc left) (index_of max (suc e) c) w
        ≡ round src dst max (suc e) left (suc (suc (index_of max (suc e) c))) (
            set w
              (index_of max (suc e) c)
              (snake x0 (drop x0 src) (drop (x0 + max - index_of max (suc e) c) dst)))
  unfolding round
  round_step left c x0 w s t = rw (s, t) refl

  round_end :
      (left c x0 : ℕ) (w : List ℕ)
      → start_x max (suc e) (index_of max (suc e) c) w ≡ ok x0
      → (leb (length src) (snake x0 (drop x0 src) (drop (x0 + max - index_of max (suc e) c) dst))
          && leb (length dst) (
              snake x0 (drop x0 src) (drop (x0 + max - index_of max (suc e) c) dst)
              + max
              - index_of max (suc e) c))
        ≡ true
      → round src dst max (suc e) (suc left) (index_of max (suc e) c) w ≡ ok none
  unfolding round
  round_end left c x0 w s t = rw (s, t) refl

  pub round_cases :
      (left c : ℕ) (w : List ℕ)
      → suc e ≤ max
      → c + left ≡ suc (suc e)
      → IsFar
      → length v ≡ suc (2 * max)
      → length w ≡ suc (2 * max)
      → Agrees src dst max e v w
      → Done c w
      → Arrives (round src dst max (suc e) left (index_of max (suc e) c) w)
        ⊎ GoesOn (round src dst max (suc e) left (index_of max (suc e) c) w)
  round_cases zero c w le sum far lv lw a done =
      inr (w, unfold round in refl, lw, λ j h. done j (omega arith))
  round_cases (suc left) c w le sum far lv lw a done =
      let i : ℕ = index_of max (suc e) c in
      let (x0, s, move) = start_same src dst max e v w c le (omega arith) lv lw a in
      let cx : c ≤ x0 = start-IsFar c x0 le (omega arith) far move in
      let x : ℕ = snake x0 (drop x0 src) (drop (x0 + max - i) dst) in
      let (sl, within) = snake-Slide i x0 (omega arith) in
      let good : Good src dst max e v c x = (x0, sl, within, move) in
      elim (Bool-cases (leb (length src) x && leb (length dst) (x + max - i))) [
        | inl t ↦ inl (
          c,
          x,
          omega arith,
          good,
          (ground arith, ground (arith, sl.0)),
          round_end left c x0 w s t,
        )
        | inr t ↦
            let away : Reached i x → ⊥ = λ r. absurd (ground (arith, r.0, r.1)) in
            let next : suc (suc i) ≡ index_of max (suc e) (suc c) = omega arith in
            let eq : round src dst max (suc e) (suc left) i w
                ≡ round src dst max (suc e) left (index_of max (suc e) (suc c)) (set w i x) =
              round_step left c x0 w s t
              ∙ ap (λ (n : ℕ). round src dst max (suc e) left n (set w i x)) next in
            rw eq (
              round_cases left (suc c) (set w i x) le (omega arith) far lv (length-set w i x ∙ lw)
                (set-Agrees w c x le (omega arith) a)
                (set-Done w c x le (omega arith) lw done good away
                  (snake-Stops i x0 (omega arith))))
      ]
