-- ===== src/Diff/Myers/Total.antt =====
-- internal/diff/diff.go: `myers` always gives an edit script from the one side to the other.
use libfossil.Base.{
  ℕ, zero, suc, ◌+◌, ◌-◌, ◌≤◌, ◌<◌, ◌≡◌, ◌∙◌, refl, ap, subst, inl, inr, arith, ◌&&◌, none, some,
  List, [], ◌∷◌, Bytes, leb, length, set, ok, Bool-cases,
}
use libfossil.Diff.{EditOp, sources, targets, edits}
use libfossil.Diff.Myers.{Result, round, backtrack, rounds, inserts, deletes, myers}
use libfossil.Diff.Myers.Walk.{Traced}
use libfossil.Diff.Myers.Unwind.{backtrack-Traced}
use libfossil.Diff.Myers.Step.{index_of}
use libfossil.Diff.Myers.Round.{round_cases}
use libfossil.Diff.Myers.Level.{Level, Good-Moves, Moves-end, Good-Traced}
use libfossil.Diff.Myers.Next.{next-Level}
use libfossil.Diff.Myers.First.{
  bound, zeros, first_x, first_end, first_on, first_Slide, first_Traced, first_Level,
  first_Furthest, first_Unreached,
}
use libfossil.Diff.Myers.Furthest.{
  Way, way_place, Furthest, Unreached, next-Furthest, next-Unreached,
}

fewest : (n size e c b : ℕ) → n ≡ suc size - 1 → size ≡ suc e → (c + b ≤ e → ⊥) → n ≤ c + b
fewest n size e c b en es none_less = elim (Bool-cases (leb (suc e) (c + b))) [
  | inl y ↦ ground arith
  | inr x ↦ absurd (none_less (ground arith))
]

module _ (src dst : List Bytes) where
  -- The call gives a script with the lines of both sides, and no way to their ends has fewer edits.
  abbrev Finishes : Result (List EditOp) → Type 0
  Finishes run =
      (ops : List EditOp) × (run ≡ ok ops)
      × (sources ops ≡ src)
      × (targets ops ≡ dst)
      × ((c b : ℕ) → Way src dst c b (length src) (length dst) → edits ops ≤ c + b)

  rounds_end :
      (left d : ℕ) (v : List ℕ) (trace : List (List ℕ))
      → round src dst (bound src dst) d (suc d) (bound src dst - d) v ≡ ok none
      → rounds src dst (bound src dst) (suc left) d v trace
        ≡ backtrack src dst (bound src dst) (v ∷ trace)
  unfolding rounds
  rounds_end left d v trace e = rw e refl

  rounds_on :
      (left d : ℕ) (v w : List ℕ) (trace : List (List ℕ))
      → round src dst (bound src dst) d (suc d) (bound src dst - d) v ≡ ok (some w)
      → rounds src dst (bound src dst) (suc left) d v trace
        ≡ rounds src dst (bound src dst) left (suc d) w (v ∷ trace)
  unfolding rounds
  rounds_on left d v w trace e = rw e refl

  rounds_lem :
      (left e : ℕ) (trace : List (List ℕ)) (v : List ℕ)
      → Level src dst (bound src dst) e trace v
      → Furthest src dst (bound src dst) e v
      → Unreached src dst (bound src dst) e
      → e + left ≡ (bound src dst)
      → Finishes (rounds src dst (bound src dst) left (suc e) v trace)
  rounds_lem zero e trace v lv far none_before sum = absurd (
      lv.away (length src) (omega arith)
        (lv.far (length src) (omega arith), omega (arith, lv.far (length src) (omega arith))))
  rounds_lem (suc left) e trace v lv far none_before sum =
      let start : (bound src dst) - suc e ≡ index_of (bound src dst) (suc e) 0 = omega arith in
      elim (round_cases src dst (bound src dst) e v (suc (suc e)) 0 v (omega arith) (omega arith)
        lv.far lv.size lv.size (λ j h. refl) (λ j h. absurd (omega arith))) [
          | inl (j, x, jl, good, reached, run) ↦
              let (xn, xm) =
                Moves-end src dst (bound src dst) e v trace j x lv (omega arith) jl
                  (Good-Moves src dst (bound src dst) e v j x (omega arith) jl good) reached.0
                  (omega (arith, reached.1)) in
              let path : Traced src dst (bound src dst) (v ∷ trace)
                  (index_of (bound src dst) (suc e) j) (length src) =
                subst
                  (λ (n : ℕ).
                    Traced src dst (bound src dst) (v ∷ trace) (index_of (bound src dst) (suc e) j)
                      n)
                  xn (Good-Traced src dst (bound src dst) e j x trace v (omega arith) jl lv good) in
              let (ops, back, s, t, n) =
                backtrack-Traced src dst (bound src dst) (v ∷ trace)
                  (index_of (bound src dst) (suc e) j) (omega arith) path in
              (
                ops,
                rounds_end left (suc e) v trace (
                      ap (λ (i : ℕ). round src dst (bound src dst) (suc e) (suc (suc e)) i v) start
                      ∙ run)
                    ∙ back,
                s,
                t,
                λ c b r. fewest (edits ops) (length trace) e c b n lv.depth (none_before c b r),
              )
          | inr (w, run, size, done) ↦
              let next : Level src dst (bound src dst) (suc e) (v ∷ trace) w =
                next-Level src dst (bound src dst) e trace v w lv (omega arith) done size in
              let far' : Furthest src dst (bound src dst) (suc e) w =
                next-Furthest src dst (bound src dst) e trace v w lv (omega arith) done far in
              let (ops, rest, s, t, least) =
                rounds_lem left (suc e) (v ∷ trace) w next far'
                  (next-Unreached src dst (bound src dst) e trace v w lv (omega arith) done far'
                    none_before)
                  (omega arith) in
              (
                ops,
                rounds_on left (suc e) v w trace (
                      ap (λ (i : ℕ). round src dst (bound src dst) (suc e) (suc (suc e)) i v) start
                      ∙ run)
                    ∙ rest,
                s,
                t,
                least,
              )
        ]

  rounds_finish :
      0 < length src
      → Finishes (rounds src dst (bound src dst) (suc (bound src dst)) 0 (zeros src dst) [])
  rounds_finish p =
      let start : (bound src dst) - 0 ≡ (bound src dst) = omega arith in
      elim (Bool-cases (
        leb (length src) (first_x src dst)
        && leb (length dst) (first_x src dst + bound src dst - bound src dst))) [
          | inl t ↦
              let xn : (first_x src dst) ≡ length src = ground (arith, (first_Slide src dst).1) in
              let xm : length src ≡ length dst = ground (arith, (first_Slide src dst).1) in
              let path : Traced src dst (bound src dst) (zeros src dst ∷ []) (bound src dst)
                  (length src) =
                subst
                  (λ (n : ℕ). Traced src dst (bound src dst) (zeros src dst ∷ []) (bound src dst) n)
                  xn (first_Traced src dst p (bound src dst) refl) in
              let (ops, back, s, t', n) =
                backtrack-Traced src dst (bound src dst) (zeros src dst ∷ []) (bound src dst)
                  (omega arith) path in
              (
                ops,
                rounds_end (bound src dst) 0 (zeros src dst) [] (
                      ap (λ (i : ℕ). round src dst (bound src dst) 0 1 i (zeros src dst)) start
                      ∙ first_end src dst p t)
                    ∙ back,
                s,
                t',
                λ c b r. omega (arith, n),
              )
          | inr t ↦
              let level = first_Level src dst p t in
              let (ops, rest, s, t', least) =
                rounds_lem (bound src dst) 0 (zeros src dst ∷ [])
                  (set (zeros src dst) (bound src dst) (first_x src dst)) level
                  (first_Furthest src dst) (first_Unreached src dst level) (omega arith) in
              (
                ops,
                rounds_on (bound src dst) 0 (zeros src dst)
                      (set (zeros src dst) (bound src dst) (first_x src dst)) []
                      (ap (λ (i : ℕ). round src dst (bound src dst) 0 1 i (zeros src dst)) start
                        ∙ first_on src dst p t)
                    ∙ rest,
                s,
                t',
                least,
              )
        ]

inserts_sides : (ls : List Bytes) → (sources (inserts ls) ≡ []) × (targets (inserts ls) ≡ ls)
unfolding inserts
inserts_sides [] = (refl, refl)
inserts_sides (l ∷ ls) = ((inserts_sides ls).0, ap (λ r. l ∷ r) (inserts_sides ls).1)

deletes_sides : (ls : List Bytes) → (sources (deletes ls) ≡ ls) × (targets (deletes ls) ≡ [])
unfolding deletes
deletes_sides [] = (refl, refl)
deletes_sides (l ∷ ls) = (ap (λ r. l ∷ r) (deletes_sides ls).0, (deletes_sides ls).1)

edits-inserts : (ls : List Bytes) → edits (inserts ls) ≡ length ls
unfolding inserts
edits-inserts [] = refl
edits-inserts (l ∷ ls) = omega (arith, edits-inserts ls)

edits-deletes : (ls : List Bytes) → edits (deletes ls) ≡ length ls
unfolding deletes
edits-deletes [] = refl
edits-deletes (l ∷ ls) = omega (arith, edits-deletes ls)

-- What `myers` does for all sides.
pub myers_lem :
    (src dst : List Bytes)
    → (ops : List EditOp) × (myers src dst ≡ ok ops)
      × (sources ops ≡ src)
      × (targets ops ≡ dst)
      × ((c b : ℕ) → Way src dst c b (length src) (length dst) → edits ops ≤ c + b)
unfolding myers
myers_lem [] dst = (
  inserts dst,
  refl,
  (inserts_sides dst).0,
  (inserts_sides dst).1,
  λ c b r. omega (arith, edits-inserts dst, way_place r),
)
myers_lem (s ∷ ss) [] = (
  deletes (s ∷ ss),
  refl,
  (deletes_sides (s ∷ ss)).0,
  (deletes_sides (s ∷ ss)).1,
  λ c b r. omega (arith, edits-deletes (s ∷ ss), way_place r),
)
myers_lem (s ∷ ss) (t ∷ ts) = rounds_finish (s ∷ ss) (t ∷ ts) (omega arith)

-- `myers` returns for any two lists of lines, past none of its panics, and its edit script has the
-- lines of the first as those it keeps or deletes, and the lines of the second as those it keeps or
-- inserts.
pub myers-sides :
    (src dst : List Bytes)
    → (ops : List EditOp) × (myers src dst ≡ ok ops) × (sources ops ≡ src) × (targets ops ≡ dst)
myers-sides src dst = let (ops, run, s, t, least) = myers_lem src dst in (ops, run, s, t)
