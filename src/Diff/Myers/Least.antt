-- ===== src/Diff/Myers/Least.antt =====
-- internal/diff/diff.go: `myers` gives an edit script with the fewest edits.
use libfossil.Base.{
  ℕ, zero, suc, ◌+◌, ◌≤◌, ◌≡◌, ◌∙◌, ap, sym, subst, arith, some, List, [], ◌∷◌, Bytes, length,
  get_elem?, drop, ok,
}
use libfossil.Diff.{
  OpKind, op_equal, op_insert, op_delete, EditOp, source_line, target_line, sources, targets,
  edit_of, edits,
}
use libfossil.Diff.Myers.{Result, myers}
use libfossil.Diff.Myers.Furthest.{Way, origin, keep, delete, insert}
use libfossil.Diff.Myers.Total.{myers_lem}

-- A first line of what is left of a side.
drop-first :
    (xs : List Bytes) (i : ℕ) (l : Bytes) (rest : List Bytes)
    → l ∷ rest ≡ drop i xs
    → (get_elem? xs i ≡ some l) × (rest ≡ drop (suc i) xs)
drop-first [] zero l rest h = absurd (cc)
drop-first [] (suc i) l rest h = absurd (cc)
drop-first (x ∷ xs) zero l rest h = (cc, cc)
drop-first (x ∷ xs) (suc i) l rest h = drop-first xs i l rest h

module _ (src dst : List Bytes) where
  -- A way to both ends with so many edits.
  abbrev Arrival : ℕ → Type 0
  Arrival n = (c : ℕ) × (b : ℕ) × Way src dst c b (length src) (length dst) × (c + b ≡ n)

  -- What a script that is left leads to, from a way to where it starts.
  script-Arrival :
      (ops : List EditOp) (c b x y : ℕ)
      → Way src dst c b x y
      → sources ops ≡ drop x src
      → targets ops ≡ drop y dst
      → x + length (sources ops) ≡ length src
      → y + length (targets ops) ≡ length dst
      → Arrival (c + b + edits ops)
  script-Arrival [] c b x y way s t n m =
      let xn : x ≡ length src = omega arith in
      let ym : y ≡ length dst = omega arith in
      (
        c,
        b,
        subst (λ (k : ℕ). Way src dst c b k (length dst)) xn
            (subst (λ (k : ℕ). Way src dst c b x k) ym way),
        omega arith,
      )
  script-Arrival (o ∷ ops) c b x y way s t n m = by_kind o.kind s t n m (script-Arrival ops)
    where
      by_kind :
          (k : OpKind)
          → source_line k o.text (sources ops) ≡ drop x src
          → target_line k o.text (targets ops) ≡ drop y dst
          → x + length (source_line k o.text (sources ops)) ≡ length src
          → y + length (target_line k o.text (targets ops)) ≡ length dst
          → ((c b x y : ℕ)
              → Way src dst c b x y
              → sources ops ≡ drop x src
              → targets ops ≡ drop y dst
              → x + length (sources ops) ≡ length src
              → y + length (targets ops) ≡ length dst
              → Arrival (c + b + edits ops))
          → Arrival (c + b + (edit_of k + edits ops))
      by_kind op_equal s t n m rest =
          let (g, s') = drop-first src x o.text (sources ops) s in
          let (g', t') = drop-first dst y o.text (targets ops) t in
          let (c', b', way', e) =
            rest c b (suc x) (suc y) (keep o.text way g g') s' t' (omega arith) (omega arith) in
          (c', b', way', omega (arith, e))
      by_kind op_delete s t n m rest =
          let (g, s') = drop-first src x o.text (sources ops) s in
          let (c', b', way', e) =
            rest (suc c) b (suc x) y (delete way) s' t (omega arith) (omega arith) in
          (c', b', way', omega (arith, e))
      by_kind op_insert s t n m rest =
          let (g', t') = drop-first dst y o.text (targets ops) t in
          let (c', b', way', e) =
            rest c (suc b) x (suc y) (insert way) s t' (omega arith) (omega arith) in
          (c', b', way', omega (arith, e))

-- The script that `myers` gives has the lines of both sides, and no more edits than another that has
-- them.
pub myers-shortest :
    (src dst : List Bytes) (other : List EditOp)
    → sources other ≡ src
    → targets other ≡ dst
    → (ops : List EditOp) × (myers src dst ≡ ok ops)
      × (sources ops ≡ src)
      × (targets ops ≡ dst)
      × (edits ops ≤ edits other)
myers-shortest src dst other s t =
    let (ops, run, s', t', least) = myers_lem src dst in
    let (c, b, way, e) =
      script-Arrival src dst other 0 0 0 0 origin s t (omega (arith, ap length s))
        (omega (arith, ap length t)) in
    (ops, run, s', t', omega (arith, least c b way, e))

-- `myers` gives a shortest edit script: no other whose kept and deleted lines are the first side, and
-- whose kept and inserted lines are the second, has fewer insertions and deletions together.
pub myers-least :
    (src dst : List Bytes) (ops other : List EditOp)
    → myers src dst ≡ ok ops
    → sources other ≡ src
    → targets other ≡ dst
    → edits ops ≤ edits other
myers-least src dst ops other run s t =
    let (ops', run', _, _, least) = myers-shortest src dst other s t in
    let both : ◌≡◌ {A = Result (List EditOp)} (ok ops') (ok ops) = sym run' ∙ run in
    let same : ops' ≡ ops = cc in subst (λ (x : List EditOp). edits x ≤ edits other) same least
