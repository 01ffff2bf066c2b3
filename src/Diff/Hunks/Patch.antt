-- ===== src/Diff/Hunks/Patch.antt =====
-- internal/diff/diff.go: the hunks of an edit script, applied to its first side, give the second.
use libfossil.Base.{
  ℕ, suc, ◌+◌, ◌*◌, ◌-◌, ◌≤◌, ◌<◌, ◌≡◌, ◌∙◌, refl, sym, ap, arith, some, Option, List, [], ◌∷◌,
  ◌++◌, Bytes, length, length-append, get_elem?, take, drop, min,
}
use libfossil.Base.Cuts.{get_elem?-drop, drop_cut, take_sum, drop_all}
use libfossil.Diff.{EditOp, sources, targets}
use libfossil.Diff.Hunks.{
  ChangeRange, Hunk, find_changes, merge_adjacent_changes, src_width, dst_width, positions, count,
  make_hunk, add_hunk, hunk_of, hunks_of, build_hunks,
}
use libfossil.Diff.Hunks.Changes.{Quiet, Regions, merge_adjacent_changes-Regions}
use libfossil.Diff.Hunks.Sides.{
  sources-++, targets-++, count-sources, count-targets, position_at, sides_take,
}

-- What a patch does: from places on the two sides on, lines are kept up to the start that a hunk
-- names on either side, the hunk's lines of the first side are replaced by those of the second, and
-- what is behind the last hunk is kept. The hunk's counts are the numbers of its lines.
pub data Patched : ℕ → ℕ → List Hunk → List Bytes → List Bytes → Type 0 where
  kept_rest : (s d : ℕ) (rest : List Bytes) → Patched s d [] rest rest
  replaced :
      (s d : ℕ) (kept : List Bytes) (h : Hunk) (hs : List Hunk) (rest rest' : List Bytes)
      → h.src_start ≡ suc (s + length kept)
      → h.dst_start ≡ suc (d + length kept)
      → h.src_count ≡ length (sources h.ops)
      → h.dst_count ≡ length (targets h.ops)
      → Patched (s + length kept + h.src_count) (d + length kept + h.dst_count) hs rest rest'
      → Patched s d (h ∷ hs) (kept ++ (sources h.ops ++ rest)) (kept ++ (targets h.ops ++ rest'))

module _ (ops : List EditOp) where
  -- The part of the script from one place up to another.
  abbrev span : ℕ → ℕ → List EditOp
  span p q = take (q - p) (drop p ops)

  span_sides : (p q : ℕ) → Quiet ops p q → sources (span p q) ≡ targets (span p q)
  span_sides p q h =
      sides_take (q - p) (drop p ops)
        (λ i o l e. h (p + i) o (omega arith) (omega arith) (sym (get_elem?-drop p ops i) ∙ e))

  abbrev src_pos : ℕ → ℕ
  src_pos p = length (sources (take p ops))

  abbrev dst_pos : ℕ → ℕ
  dst_pos p = length (targets (take p ops))

  src_pos-span : (p q : ℕ) → p ≤ q → src_pos q ≡ src_pos p + length (sources (span p q))
  src_pos-span p q h =
      let e : p + (q - p) ≡ q = omega arith in
      ap (λ (n : ℕ). src_pos n) (sym e)
      ∙ ap (λ (xs : List EditOp). length (sources xs)) (sym (take_sum p (q - p) ops))
      ∙ ap length (sources-++ (take p ops) (span p q))
      ∙ length-append (sources (take p ops)) (sources (span p q))

  dst_pos-span : (p q : ℕ) → p ≤ q → dst_pos q ≡ dst_pos p + length (targets (span p q))
  dst_pos-span p q h =
      let e : p + (q - p) ≡ q = omega arith in
      ap (λ (n : ℕ). dst_pos n) (sym e)
      ∙ ap (λ (xs : List EditOp). length (targets xs)) (sym (take_sum p (q - p) ops))
      ∙ ap length (targets-++ (take p ops) (span p q))
      ∙ length-append (targets (take p ops)) (targets (span p q))

  sources_cut :
      (p q : ℕ) → p ≤ q → sources (drop p ops) ≡ sources (span p q) ++ sources (drop q ops)
  sources_cut p q h = ap sources (sym (drop_cut p q ops h)) ∙ sources-++ (span p q) (drop q ops)

  targets_cut :
      (p q : ℕ) → p ≤ q → targets (drop p ops) ≡ targets (span p q) ++ targets (drop q ops)
  targets_cut p q h = ap targets (sym (drop_cut p q ops h)) ∙ targets-++ (span p q) (drop q ops)

  -- The hunk from one place up to another, with the numbers in its header.
  abbrev hunk_at : ℕ → ℕ → Hunk
  hunk_at s e = record {
    src_start = suc (src_pos s);
    src_count = length (sources (span s e));
    dst_start = suc (dst_pos s);
    dst_count = length (targets (span s e));
    ops = span s e;
  }

  hunk_of_lem :
      (n : ℕ) (c : ChangeRange)
      → c.start < length ops
      → hunk_of ops n c ≡ some (hunk_at (c.start - n) (min (c.end + n) (length ops)))
  unfolding hunk_of make_hunk
  hunk_of_lem n c h =
      let s : ℕ = c.start - n in
      let e : ℕ = min (c.end + n) (length ops) in
      ap (λ (o : Option ℕ). make_hunk (span s e) o (get_elem? (positions dst_width 0 ops) s))
        (position_at src_width ops s (omega arith))
      ∙ ap (λ (o : Option ℕ). make_hunk (span s e) (some (count src_width (take s ops))) o)
          (position_at dst_width ops s (omega arith))
      ∙ rw
          (
            count-sources (take s ops),
            count-targets (take s ops),
            count-sources (span s e),
            count-targets (span s e),
          )
          refl

  replaced_at :
      (p s e : ℕ) (hs : List Hunk)
      → p ≤ s
      → s ≤ e
      → Quiet ops p s
      → Patched (src_pos e) (dst_pos e) hs (sources (drop e ops)) (targets (drop e ops))
      → Patched
          (src_pos p)
          (dst_pos p)
          (hunk_at s e ∷ hs)
          (sources (drop p ops))
          (targets (drop p ops))
  replaced_at p s e hs a b q h =
      let kept : List Bytes = sources (span p s) in
      let same : sources (span p s) ≡ targets (span p s) = span_sides p s q in
      let from : src_pos s ≡ src_pos p + length kept = src_pos-span p s a in
      let to : dst_pos s ≡ dst_pos p + length kept =
        dst_pos-span p s a ∙ ap (λ (l : List Bytes). dst_pos p + length l) (sym same) in
      let behind : src_pos e ≡ src_pos p + length kept + length (sources (span s e)) =
        src_pos-span s e b ∙ ap (λ (n : ℕ). n + length (sources (span s e))) from in
      let behind' : dst_pos e ≡ dst_pos p + length kept + length (targets (span s e)) =
        dst_pos-span s e b ∙ ap (λ (n : ℕ). n + length (targets (span s e))) to in
      rw (sources_cut p s a, sources_cut s e b, targets_cut p s a, targets_cut s e b, sym same)
        (replaced (src_pos p) (dst_pos p) kept (hunk_at s e) hs (sources (drop e ops))
          (targets (drop e ops)) (ap suc from) (ap suc to) refl refl
          (rw (sym behind, sym behind') h))

  tail_sides :
      (p : ℕ)
      → p ≤ length ops
      → Quiet ops p (length ops)
      → sources (drop p ops) ≡ targets (drop p ops)
  tail_sides p l q =
      sources_cut p (length ops) l
      ∙ rw (span_sides p (length ops) q, drop_all (length ops) ops (omega arith)) refl
      ∙ sym (targets_cut p (length ops) l)

  hunks_of-Patched :
      (n q low p : ℕ) (cs : List ChangeRange)
      → Regions ops (2 * n) q low cs
      → q ≤ p
      → p ≤ low - n
      → p ≤ length ops
      → (hs : List Hunk) × (hunks_of ops n cs ≡ some hs)
        × Patched (src_pos p) (dst_pos p) hs (sources (drop p ops)) (targets (drop p ops))
  unfolding hunks_of add_hunk
  hunks_of-Patched n q low p [] r a b l = (
    [],
    refl,
    rw (tail_sides p l (λ i o x y z. r i o (omega arith) y z))
        (kept_rest (src_pos p) (dst_pos p) (targets (drop p ops))),
  )
  hunks_of-Patched n q low p (c ∷ cs) (f, g, h, k, r) a b l =
      let s : ℕ = c.start - n in
      let e : ℕ = min (c.end + n) (length ops) in
      let (hs, eq, rest) =
        hunks_of-Patched n c.end (suc (c.end + 2 * n)) e cs r (omega arith) (omega arith)
          (omega arith) in
      (
        hunk_at s e ∷ hs,
        ap (λ (o : Option Hunk). add_hunk o (hunks_of ops n cs)) (hunk_of_lem n c (omega arith))
            ∙ ap (λ (o : Option (List Hunk)). add_hunk (some (hunk_at s e)) o) eq,
        replaced_at p s e hs (omega arith) (omega arith)
            (λ i o x y z. k i o (omega arith) (omega arith) z) rest,
      )

-- For every edit script and number of lines of context, `buildHunks` gives hunks that turn the lines
-- of the first side into those of the second: the starts and counts in their headers are right, and
-- what is between them is the same on both sides.
pub build_hunks-Patched :
    (ops : List EditOp) (n : ℕ)
    → (hs : List Hunk) × (build_hunks ops n ≡ some hs) × Patched 0 0 hs (sources ops) (targets ops)
unfolding build_hunks
build_hunks-Patched ops n =
    hunks_of-Patched ops n 0 0 0 (merge_adjacent_changes (find_changes ops) n)
      (merge_adjacent_changes-Regions ops n) (omega arith) (omega arith) (omega arith)
