-- ===== src/Merge/Hunks/Clean.antt =====
-- internal/merge/threeway.go: `merge3` on hunks that stand apart.
use mathlib.Core.List.{Permᴰ}
use libfossil.Base.{
  ℕ, ◌-◌, ◌≤◌, ◌≡◌, refl, ap, ◌∙◌, sym, arith, true, false, List, [], ◌∷◌, ◌++◌, leb, ltb, le→ltb,
  Bytes, length, take, drop, Bool-cases, inl, inr,
}
use libfossil.Merge.Diff.{Hunk, diff_lines}
use libfossil.Merge.Diff.Rebuild.{
  apply_hunks, IsRising, apply_hunks-cons, apply_hunks-diff_lines, diff_lines-IsRising,
}
use libfossil.Base.Cuts.{drop_all}
use libfossil.Merge.Hunks.Apart.{
  interleave, Disjoint, Apart-overlap, Apart-local, Apart-remote, Disjoint-nil, Disjoint-tail,
  interleave-IsRising, interleave-Perm,
}
use libfossil.Merge.Hunks.{Merged, min, after, before, hunks_overlap, merge_loop, merge3}

abbrev pub applied : List Bytes → ℕ → List Hunk → Merged
applied base bi hs = record { lines = apply_hunks base bi hs; conflicts = [] }

pub before-take :
    (base : List Bytes) (bi start : ℕ) → before base bi start ≡ take (start - bi) (drop bi base)
unfolding before
before-take base bi start = elim (Bool-cases (ltb bi start)) [
  | inl y ↦ rw y
  | inr n ↦ rw n (ap (λ k. take k (drop bi base)) (let e : 0 ≡ start - bi = ground arith in e))
]

min_first : (a b : ℕ) → a ≤ b → min a b ≡ a
min_first a b h = ground arith

min_second : (a b : ℕ) → b ≤ a → min a b ≡ b
min_second a b h = ground arith

module _ (base : List Bytes) (bi : ℕ) (h : Hunk) (rest : List Hunk) where
  -- A round that takes a hunk, in front of rounds that apply the others.
  one_round :
      bi ≤ h.base_end
      → after (before base bi h.base_start) (after h.lines (applied base h.base_end rest))
        ≡ applied base bi (h ∷ rest)
  one_round e =
      ap
        (λ t. record { lines = t ++ (h.lines ++ apply_hunks base h.base_end rest); conflicts = [] })
        (before-take base bi h.base_start)
      ∙ ap (λ t. record { lines = t; conflicts = [] }) (sym (apply_hunks-cons base bi h rest e))

module _ (base : List Bytes) (bi : ℕ) (l : Hunk) (ls : List Hunk) (within : bi ≤ length base) where
  local_round :
      l.base_start ≤ length base
      → merge_loop base bi (l ∷ ls) []
        ≡ after (before base bi l.base_start) (after l.lines (merge_loop base l.base_end ls []))
  unfolding merge_loop
  local_round h =
      rw (le→ltb (length base) bi within, merge_loop, min_first l.base_start (length base) h)

  pub remote_round :
      l.base_start ≤ length base
      → merge_loop base bi [] (l ∷ ls)
        ≡ after (before base bi l.base_start) (after l.lines (merge_loop base l.base_end [] ls))
  unfolding merge_loop
  remote_round h =
      rw (le→ltb (length base) bi within, merge_loop, min_first l.base_start (length base) h)

module _ (base : List Bytes) (bi : ℕ) (l r : Hunk) (ls rs : List Hunk) (within : bi ≤ length base)
    (apart : hunks_overlap l r ≡ false) where
  pub local_first :
      l.base_start ≤ length base
      → leb l.base_start r.base_start ≡ true
      → merge_loop base bi (l ∷ ls) (r ∷ rs)
        ≡ after
            (before base bi l.base_start)
            (after l.lines (merge_loop base l.base_end ls (r ∷ rs)))
  unfolding merge_loop
  local_first h first = rw (
    le→ltb (length base) bi within,
    merge_loop,
    apart,
    first,
    min_first l.base_start (length base) h,
    min_second r.base_start l.base_start (ground arith),
  )

  remote_first :
      r.base_start ≤ length base
      → leb l.base_start r.base_start ≡ false
      → merge_loop base bi (l ∷ ls) (r ∷ rs)
        ≡ after
            (before base bi r.base_start)
            (after r.lines (merge_loop base r.base_end (l ∷ ls) rs))
  unfolding merge_loop
  remote_first h second = rw (
    le→ltb (length base) bi within,
    merge_loop,
    apart,
    second,
    min_first r.base_start (min l.base_start (length base)) (ground arith),
  )

interleave-nil : (ls : List Hunk) → interleave ls [] ≡ ls
interleave-nil [] = refl
interleave-nil (l ∷ ls) = refl

-- Behind the last hunk.
pub last_round : (base : List Bytes) (bi : ℕ) → merge_loop base bi [] [] ≡ applied base bi []
unfolding merge_loop
last_round base bi = elim (Bool-cases (ltb bi (length base))) [
  | inl y ↦ rw y
  | inr n ↦
      rw n (ap (λ t. record { lines = t; conflicts = [] }) (sym (drop_all bi base (ground arith))))
]

merge_loop-interleave :
    (base : List Bytes) (bi : ℕ) (ls rs : List Hunk)
    → bi ≤ length base
    → IsRising (length base) bi ls
    → IsRising (length base) bi rs
    → Disjoint ls rs
    → merge_loop base bi ls rs ≡ applied base bi (interleave ls rs)
merge_loop-interleave base bi [] [] w il ir d = last_round base bi
merge_loop-interleave base bi (l ∷ ls) [] w (a, b, c, il) ir (_, d) =
    local_round base bi l ls w (omega arith)
    ∙ rw (merge_loop-interleave base l.base_end ls [] c il tt d)
        (rw (interleave-nil ls) (one_round base bi l ls (omega arith)))
merge_loop-interleave base bi [] (r ∷ rs) w il (a, b, c, ir) d =
    remote_round base bi r rs w (omega arith)
    ∙ rw (merge_loop-interleave base r.base_end [] rs c tt ir tt)
        (one_round base bi r rs (omega arith))
merge_loop-interleave base bi (l ∷ ls) (r ∷ rs) w (a, b, c, il) (a', b', c', ir) ((apart, al), d) =
    elim (Bool-cases (leb l.base_start r.base_start)) [
      | inl y ↦
          local_first base bi l r ls rs w (Apart-overlap l r apart) (omega arith) y
          ∙ rw
              (
                y,
                interleave,
                merge_loop-interleave base l.base_end ls (r ∷ rs) c il
                    (Apart-local l r b apart y, b', c', ir) d,
              )
              (one_round base bi l (interleave ls (r ∷ rs)) (omega arith))
      | inr f ↦
          remote_first base bi l r ls rs w (Apart-overlap l r apart) (omega arith) f
          ∙ rw
              (
                f,
                interleave,
                merge_loop-interleave base r.base_end (l ∷ ls) rs c'
                    (Apart-remote l r b apart f, b, c, il) ir (al, Disjoint-tail r ls rs d),
              )
              (one_round base bi r (interleave (l ∷ ls) rs) (omega arith))
    ]

-- Where the hunks of each side rise within the base, and each two hunks of the local and of the
-- remote side stand apart (the local one ends no later than the remote one starts, or the remote
-- one starts earlier and ends no later than the local one starts), `merge3` finds no conflict, and
-- gives the base with the hunks of both sides applied in the order of their starts, all of them
-- and no other; in this order too each hunk starts no earlier than the one before it ends, so that
-- all are applied at their places.
pub merge3-interleave :
    (base : List Bytes) (ls rs : List Hunk)
    → IsRising (length base) 0 ls
    → IsRising (length base) 0 rs
    → Disjoint ls rs
    → (merge3 base ls rs ≡ record { lines = apply_hunks base 0 (interleave ls rs); conflicts = [] })
      × IsRising (length base) 0 (interleave ls rs)
      × Permᴰ (interleave ls rs) (ls ++ rs)
unfolding merge3
merge3-interleave base ls rs il ir d = (
  merge_loop-interleave base 0 ls rs (omega arith) il ir d,
  interleave-IsRising (length base) 0 ls rs il ir d,
  interleave-Perm ls rs,
)

-- Merged with no change on the other side, the hunks of `diffLines` give the modified lines with no
-- conflict, on either side.
pub merge3-diff_lines :
    (base modified : List Bytes)
    → (merge3 base (diff_lines base modified) [] ≡ record { lines = modified; conflicts = [] })
      × (merge3 base [] (diff_lines base modified) ≡ record { lines = modified; conflicts = [] })
merge3-diff_lines base modified =
    let hs = diff_lines base modified in
    let rising = diff_lines-IsRising base modified in
    let rebuilt : applied base 0 hs ≡ record { lines = modified; conflicts = [] } =
      ap (λ t. record { lines = t; conflicts = [] }) (apply_hunks-diff_lines base modified) in
    (
      (merge3-interleave base hs [] rising tt (Disjoint-nil hs)).0
          ∙ ap (applied base 0) (interleave-nil hs)
          ∙ rebuilt,
      (merge3-interleave base [] hs tt rising tt).0 ∙ rebuilt,
    )
