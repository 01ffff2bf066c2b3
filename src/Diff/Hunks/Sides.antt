-- ===== src/Diff/Hunks/Sides.antt =====
-- internal/diff/diff.go: the lines on the two sides of a script, their number, and the positions.
use libfossil.Base.{
  ℕ, zero, suc, ◌+◌, ◌<◌, ◌≡◌, ◌∙◌, refl, ap, arith, some, List, [], ◌∷◌, ◌++◌, Bytes, length,
  get_elem?, take,
}
use libfossil.Diff.{
  OpKind, op_equal, op_insert, op_delete, EditOp, source_line, target_line, sources, targets,
}
use libfossil.Diff.Hunks.{src_width, dst_width, positions, count}

source_line-++ :
    (k : OpKind) (l : Bytes) (xs ys : List Bytes)
    → source_line k l (xs ++ ys) ≡ source_line k l xs ++ ys
source_line-++ op_equal l xs ys = refl
source_line-++ op_insert l xs ys = refl
source_line-++ op_delete l xs ys = refl

target_line-++ :
    (k : OpKind) (l : Bytes) (xs ys : List Bytes)
    → target_line k l (xs ++ ys) ≡ target_line k l xs ++ ys
target_line-++ op_equal l xs ys = refl
target_line-++ op_insert l xs ys = refl
target_line-++ op_delete l xs ys = refl

pub sources-++ : (xs ys : List EditOp) → sources (xs ++ ys) ≡ sources xs ++ sources ys
sources-++ [] ys = refl
sources-++ (o ∷ xs) ys =
    ap (source_line o.kind o.text) (sources-++ xs ys)
    ∙ source_line-++ o.kind o.text (sources xs) (sources ys)

pub targets-++ : (xs ys : List EditOp) → targets (xs ++ ys) ≡ targets xs ++ targets ys
targets-++ [] ys = refl
targets-++ (o ∷ xs) ys =
    ap (target_line o.kind o.text) (targets-++ xs ys)
    ∙ target_line-++ o.kind o.text (targets xs) (targets ys)

width_source :
    (k : OpKind) (l : Bytes) (ls : List Bytes)
    → src_width k + length ls ≡ length (source_line k l ls)
unfolding src_width
width_source op_equal l ls = omega arith
width_source op_insert l ls = omega arith
width_source op_delete l ls = omega arith

width_target :
    (k : OpKind) (l : Bytes) (ls : List Bytes)
    → dst_width k + length ls ≡ length (target_line k l ls)
unfolding dst_width
width_target op_equal l ls = omega arith
width_target op_insert l ls = omega arith
width_target op_delete l ls = omega arith

pub count-sources : (xs : List EditOp) → count src_width xs ≡ length (sources xs)
unfolding count
count-sources [] = refl
count-sources (o ∷ xs) =
    ap (λ (n : ℕ). src_width o.kind + n) (count-sources xs)
    ∙ width_source o.kind o.text (sources xs)

pub count-targets : (xs : List EditOp) → count dst_width xs ≡ length (targets xs)
unfolding count
count-targets [] = refl
count-targets (o ∷ xs) =
    ap (λ (n : ℕ). dst_width o.kind + n) (count-targets xs)
    ∙ width_target o.kind o.text (targets xs)

get_elem?-positions :
    (width : OpKind → ℕ) (n : ℕ) (ops : List EditOp) (i : ℕ)
    → i < length ops
    → get_elem? (positions width n ops) i ≡ some (n + count width (take i ops))
unfolding positions count
get_elem?-positions width n [] i h = absurd (omega arith)
get_elem?-positions width n (o ∷ ops) zero h = let e : n ≡ n + 0 = omega arith in ap some e
get_elem?-positions width n (o ∷ ops) (suc i) h =
    let e : n + width o.kind + count width (take i ops)
        ≡ n + (width o.kind + count width (take i ops)) =
      omega arith in
    get_elem?-positions width (n + width o.kind) ops i (omega arith) ∙ ap some e

pub position_at :
    (width : OpKind → ℕ) (ops : List EditOp) (i : ℕ)
    → i < length ops
    → get_elem? (positions width 0 ops) i ≡ some (count width (take i ops))
position_at width ops i h =
    let e : 0 + count width (take i ops) ≡ count width (take i ops) = omega arith in
    get_elem?-positions width 0 ops i h ∙ ap some e

-- Equal operations have the same lines on both sides.
equal_sides :
    (o : EditOp) (xs ys : List Bytes)
    → o.kind ≡ op_equal
    → xs ≡ ys
    → source_line o.kind o.text xs ≡ target_line o.kind o.text ys
equal_sides o xs ys e h = rw (e, h) refl

pub sides_take :
    (n : ℕ) (xs : List EditOp)
    → ((i : ℕ) (o : EditOp) → i < n → get_elem? xs i ≡ some o → o.kind ≡ op_equal)
    → sources (take n xs) ≡ targets (take n xs)
sides_take zero xs h = refl
sides_take (suc n) [] h = refl
sides_take (suc n) (o ∷ xs) h =
    equal_sides o (sources (take n xs)) (targets (take n xs)) (h 0 o (omega arith) refl)
      (sides_take n xs (λ i o' l e. h (suc i) o' (omega arith) e))
