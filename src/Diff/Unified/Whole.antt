-- ===== src/Diff/Unified/Whole.antt =====
-- internal/diff/diff.go: `Unified` and `Stat` as wholes, the lines, the edit script and the hunks
-- together.
use libfossil.Base.{
  ℕ, suc, ◌+◌, ◌≤◌, ◌≡◌, ◌∙◌, ◌⊎◌, inl, inr, refl, sym, ap, arith, true, false, not, ◌&&◌, ◌||◌,
  List, [], ◌∷◌, ◌==◌, if◌then◌else◌, Bytes, length, ok, ◌>>=◌, Bool-cases,
}
use libfossil.Diff.{
  OpKind, op_equal, op_insert, op_delete, EditOp, source_line, target_line, sources, targets,
  edit_of, edits, split_lines, is_binary,
}
use libfossil.Diff.Myers.{Result}
use libfossil.Diff.Myers.Total.{myers-sides}
use libfossil.Diff.Myers.Least.{myers-shortest}
use libfossil.Diff.Hunks.{Hunk, src_width, dst_width}
use libfossil.Diff.Hunks.Patch.{Patched, kept_rest, build_hunks-Patched}
use libfossil.Diff.Unified.{
  Options, DiffStat, all_equal, unified_hunks, format_unified, unified, count_kind, stat,
}

-- The lines of a text, without their ends.
abbrev lines : Bytes → List Bytes
lines a = (split_lines a).0

all_equal-sides : (ops : List EditOp) → all_equal ops ≡ true → sources ops ≡ targets ops
unfolding all_equal src_width dst_width
all_equal-sides [] h = refl
all_equal-sides (o ∷ ops) h = by_kind o.kind (all_equal-sides ops) h
  where
    by_kind :
        (k : OpKind)
        → (all_equal ops ≡ true → sources ops ≡ targets ops)
        → (src_width k == 1 && dst_width k == 1 && all_equal ops) ≡ true
        → source_line k o.text (sources ops) ≡ target_line k o.text (targets ops)
    by_kind op_equal rest h = ap (λ r. o.text ∷ r) (rest h)
    by_kind op_insert rest h = absurd (cc)
    by_kind op_delete rest h = absurd (cc)

kept_all : (s d : ℕ) (xs ys : List Bytes) → Patched s d [] xs ys → xs ≡ ys
kept_all s d xs ys (kept_rest _ _ _) = refl

-- What `unified` gives for the hunks of two texts.
abbrev pub IsPatch : Bytes → Bytes → Options → Result Bytes → Type 0
IsPatch a b opts text =
    ((text ≡ ok []) × (lines a ≡ lines b))
    ⊎ ((h : Hunk) × (hs : List Hunk) × Patched 0 0 (h ∷ hs) (lines a) (lines b)
        × (text
            ≡ ok (
                format_unified (h ∷ hs) opts.src_name opts.dst_name (not (split_lines a).1)
                  (not (split_lines b).1) (length (lines a)) (length (lines b)))))

hunks_IsPatch :
    (a b : Bytes) (opts : Options) (hs : List Hunk)
    → Patched 0 0 hs (lines a) (lines b)
    → IsPatch a b opts (
        ok (
          format_unified hs opts.src_name opts.dst_name
            (not (split_lines a).1)
            (not (split_lines b).1)
            (length (lines a))
            (length (lines b))))
unfolding format_unified
hunks_IsPatch a b opts [] p = inl (refl, kept_all 0 0 (lines a) (lines b) p)
hunks_IsPatch a b opts (h ∷ hs) p = inr (h, hs, p, refl)

-- For any two texts with no null byte `Unified` returns: the empty text, and then they have the same
-- lines; or the names and hunks, at least one, that turn the lines of the first text into those of
-- the second, each hunk at the place and with the counts that its header says.
pub unified-IsPatch :
    (a b : Bytes) (opts : Options)
    → (is_binary a || is_binary b) ≡ false
    → IsPatch a b opts (unified a b opts)
unfolding unified unified_hunks
unified-IsPatch a b opts h =
    let (ops, run, s, t) = myers-sides (lines a) (lines b) in
    let (hs, built, patched) = build_hunks-Patched ops opts.context_lines in
    elim (Bool-cases (all_equal ops)) [
      | inl same ↦ inl (rw (h, run, ◌>>=◌, same) refl, sym s ∙ all_equal-sides ops same ∙ t)
      | inr other ↦
          rw (h, run, ◌>>=◌, other, built) (hunks_IsPatch a b opts hs (rw (s, t) at patched))
    ]

source_count : (ops : List EditOp) → length (sources ops) + count_kind src_width ops ≡ length ops
unfolding count_kind src_width
source_count [] = omega arith
source_count (o ∷ ops) = by_kind o.kind (source_count ops)
  where
    by_kind :
        (k : OpKind)
        → length (sources ops) + count_kind src_width ops ≡ length ops
        → length (source_line k o.text (sources ops))
            + ((if src_width k == 0 then 1 else 0) + count_kind src_width ops)
          ≡ suc (length ops)
    by_kind op_equal h = omega arith
    by_kind op_insert h = omega arith
    by_kind op_delete h = omega arith

target_count : (ops : List EditOp) → length (targets ops) + count_kind dst_width ops ≡ length ops
unfolding count_kind dst_width
target_count [] = omega arith
target_count (o ∷ ops) = by_kind o.kind (target_count ops)
  where
    by_kind :
        (k : OpKind)
        → length (targets ops) + count_kind dst_width ops ≡ length ops
        → length (target_line k o.text (targets ops))
            + ((if dst_width k == 0 then 1 else 0) + count_kind dst_width ops)
          ≡ suc (length ops)
    by_kind op_equal h = omega arith
    by_kind op_insert h = omega arith
    by_kind op_delete h = omega arith

kinds_edits : (ops : List EditOp) → count_kind src_width ops + count_kind dst_width ops ≡ edits ops
unfolding count_kind src_width dst_width
kinds_edits [] = omega arith
kinds_edits (o ∷ ops) = by_kind o.kind (kinds_edits ops)
  where
    by_kind :
        (k : OpKind)
        → count_kind src_width ops + count_kind dst_width ops ≡ edits ops
        → (if src_width k == 0 then 1 else 0)
            + count_kind src_width ops
            + ((if dst_width k == 0 then 1 else 0) + count_kind dst_width ops)
          ≡ edit_of k + edits ops
    by_kind op_equal h = omega arith
    by_kind op_insert h = omega arith
    by_kind op_delete h = omega arith

-- For any two texts with no null byte `Stat` returns, with the flag not set, numbers that balance: the
-- lines of the first text and the insertions are as many as the lines of the second and the
-- deletions; and there are no more insertions and deletions than in any other edit script from the
-- one to the other.
pub stat-least :
    (a b : Bytes) (other : List EditOp)
    → (is_binary a || is_binary b) ≡ false
    → sources other ≡ lines a
    → targets other ≡ lines b
    → (d : DiffStat) × (stat a b ≡ ok d)
      × (d.binary ≡ false)
      × (length (lines a) + d.insertions ≡ length (lines b) + d.deletions)
      × (d.insertions + d.deletions ≤ edits other)
unfolding stat
stat-least a b other h s' t' =
    let (ops, run, s, t, least) = myers-shortest (lines a) (lines b) other s' t' in
    (
      record {
        insertions = count_kind src_width ops;
        deletions = count_kind dst_width ops;
        binary = false;
      },
      rw (h, run, ◌>>=◌) refl,
      refl,
      omega (arith, source_count ops, target_count ops, ap length s, ap length t),
      omega (arith, kinds_edits ops, least),
    )
