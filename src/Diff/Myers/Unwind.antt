-- ===== src/Diff/Myers/Unwind.antt =====
-- internal/diff/diff.go: `backtrack` takes a path back, and gives a script for both sides.
use libfossil.Base.{
  ℕ, suc, ◌+◌, ◌-◌, ◌≤◌, ◌≡◌, inl, inr, ◌∙◌, refl, sym, ap, subst, arith, Bool, true, false, List,
  [], ◌∷◌, ◌==◌, if◌then◌else◌, Bytes, length, get_elem?, ok, suc-==-zero, equal_iff,
}
use libfossil.Diff.{EditOp, sources, targets, edits}
use libfossil.Diff.Myers.{entry, moves_down, walk_back, unmove, unwind, same_lines, backtrack}
use libfossil.Base.Cuts.{drop_all}
use libfossil.Diff.Myers.Walk.{
  entry_some, Scripts, Slide, Traced, walk_back-Scripts, unmove_down, unmove_right, Slide-lines,
}

module _ (src dst : List Bytes) (max : ℕ) where
  -- One snapshot taken back, where its parts are known.
  unwind_round :
      (trace : List (List ℕ)) (v : List ℕ) (i px x y x1 y1 x2 y2 : ℕ) (down : Bool)
      (ops ops1 ops2 : List EditOp)
      → x + max - y ≡ i
      → (length trace == 0) ≡ false
      → moves_down max (length trace) i v ≡ ok down
      → entry v (if down then suc i else i - 1) ≡ ok px
      → walk_back src max px (if down then suc i else i - 1) x y ops ≡ ok (x1, y1, ops1)
      → unmove src dst px x1 y1 ops1 ≡ ok (x2, y2, ops2)
      → unwind src dst max (v ∷ trace) x y ops ≡ unwind src dst max trace x2 y2 ops2
  unfolding unwind
  unwind_round trace v i px x y x1 y1 x2 y2 down ops ops1 ops2 here more m g w u =
      rw (here, m, g, w, more, u) refl

  unwind_first :
      (v : List ℕ) (i x y : ℕ) (ops ops1 : List EditOp)
      → x + max - y ≡ i
      → moves_down max 0 i v ≡ ok true
      → entry v (suc i) ≡ ok 0
      → walk_back src max 0 (suc i) x y ops ≡ ok (0, 0, ops1)
      → unwind src dst max (v ∷ []) x y ops ≡ ok ops1
  unfolding unwind
  unwind_first v i x y ops ops1 here m g w = rw (here, m, g, w) refl

  first_down : (v : List ℕ) (i : ℕ) → i ≡ max → moves_down max 0 i v ≡ ok true
  unfolding moves_down
  first_down v i e = let t : (i + 0 == max) ≡ true = ground arith in rw t refl

  -- Taking a path back gives a script for both sides, with an edit for each snapshot but the first.
  pub unwind-Scripts :
      (trace : List (List ℕ)) (i x y n : ℕ) (ops : List EditOp)
      → Traced src dst max trace i x
      → x + max ≡ y + i
      → x ≤ length src
      → y ≤ length dst
      → Scripts src dst max x y n ops
      → (ops' : List EditOp) × (unwind src dst max trace x y ops ≡ ok ops')
        × Scripts src dst max 0 0 (n + (length trace - 1)) ops'
  unwind-Scripts [] i x y n ops h e a b s = absurd h
  unwind-Scripts (v ∷ []) i x y n ops (im, g, sl) e a b s =
      let k : Slide src dst max 0 x i = subst (λ (n : ℕ). Slide src dst max 0 x n) (sym im) sl in
      let (ops', w, t) =
        walk_back-Scripts src dst max x 0 (suc i) 0 0 x y n ops (omega arith) (omega arith)
          (omega arith) (omega arith) (inl (omega arith))
          (Slide-lines src dst max 0 x 0 i x (omega arith) (omega arith) k) s in
      (
        ops',
        unwind_first v i x y ops ops' (omega arith) (first_down v i im)
            (entry_some v (suc i) 0 (ap (λ (n : ℕ). get_elem? v (suc n)) im ∙ g)) w,
        (t.0, t.1, omega (arith, t.2)),
      )
  unwind-Scripts (v ∷ w ∷ t) i x y n ops (x0, sl, inl (m, g, l, r)) e a b s =
      let y1 : ℕ = x0 + max - suc i in
      let (ops1, wb, s1) =
        walk_back-Scripts src dst max (x - x0) x0 (suc i) x0 (suc y1) x y n ops
          (omega (arith, sl.0)) (omega (arith, sl.0)) (omega arith) (omega arith)
          (inl (omega arith))
          (Slide-lines src dst max x0 x (suc y1) i (x - x0) (omega (arith, sl.0)) (omega arith) sl)
          s in
      let (ops2, u, s2) = unmove_down src dst max x0 y1 n ops1 (omega (arith, sl.0)) s1 in
      let (ops', run, s') =
        unwind-Scripts (w ∷ t) (suc i) x0 y1 (suc n) ops2 r (omega arith) (omega (arith, sl.0))
          (omega (arith, sl.0)) s2 in
      (
        ops',
        unwind_round (w ∷ t) v i x0 x y x0 (suc y1) x0 y1 true ops ops1 ops2 (omega arith)
              (suc-==-zero (length t)) m (entry_some v (suc i) x0 g) wb u
            ∙ run,
        (s'.0, s'.1, omega (arith, s'.2)),
      )
  unwind-Scripts (v ∷ w ∷ t) i x y n ops (x0, sl, inr (p, m, g, xp, i0, l, r)) e a b s =
      let y0 : ℕ = suc p + max - i in
      let sl' : Slide src dst max (suc p) x i = subst (λ (n : ℕ). Slide src dst max n x i) xp sl in
      let (ops1, wb, s1) =
        walk_back-Scripts src dst max (x - suc p) p (i - 1) (suc p) y0 x y n ops
          (omega (arith, sl'.0)) (omega (arith, sl'.0)) (omega arith) (omega arith)
          (inr (omega arith))
          (Slide-lines src dst max (suc p) x y0 i (x - suc p) (omega (arith, sl'.0)) (omega arith)
            sl')
          s in
      let (ops2, u, s2) = unmove_right src dst max p y0 n ops1 (omega (arith, sl'.0)) s1 in
      let (ops', run, s') =
        unwind-Scripts (w ∷ t) (i - 1) p y0 (suc n) ops2 r (omega arith) (omega (arith, sl'.0))
          (omega (arith, sl'.0)) s2 in
      (
        ops',
        unwind_round (w ∷ t) v i p x y (suc p) y0 p y0 false ops ops1 ops2 (omega arith)
              (suc-==-zero (length t)) m (entry_some v (i - 1) p g) wb u
            ∙ run,
        (s'.0, s'.1, omega (arith, s'.2)),
      )

same_lines_refl : (ls : List Bytes) → same_lines ls ls ≡ true
unfolding same_lines
same_lines_refl [] = refl
same_lines_refl (l ∷ ls) = rw ((equal_iff l l).1 refl, same_lines_refl ls) refl

-- Where the snapshots record a path to the ends of both sides, `backtrack` neither panics nor fails its
-- own check, and gives an edit script that has the lines of the first side and those of the second, with
-- as many edits as snapshots behind the first.
pub backtrack-Traced :
    (src dst : List Bytes) (max : ℕ) (trace : List (List ℕ)) (i : ℕ)
    → length src + max ≡ length dst + i
    → Traced src dst max trace i (length src)
    → (ops : List EditOp) × (backtrack src dst max trace ≡ ok ops)
      × (sources ops ≡ src)
      × (targets ops ≡ dst)
      × (edits ops ≡ length trace - 1)
unfolding backtrack
backtrack-Traced src dst max trace i e t =
    let (ops, run, sides) =
      unwind-Scripts src dst max trace i (length src) (length dst) 0 [] t e (omega arith)
        (omega arith)
        (
          sym (drop_all (length src) src (omega arith)),
          sym (drop_all (length dst) dst (omega arith)),
          refl,
        ) in
    (ops, rw (run, sides.1, same_lines_refl dst) refl, sides.0, sides.1, omega (arith, sides.2))
