-- ===== src/Merge/Hunks/Apart.antt =====
-- internal/merge/threeway.go: hunks of two sides that stand apart, in one order.
use mathlib.Core.List.{Permᴰ}
use libfossil.Base.{
  ℕ, ◌≤◌, ◌<◌, ◌≡◌, refl, arith, true, false, List, [], ◌∷◌, ◌++◌, append-nil, leb, All, Bool-cases,
  ◌⊎◌, inl, inr,
}
use libfossil.Merge.Diff.{Hunk}
use libfossil.Merge.Diff.Rebuild.{IsRising}
use libfossil.Merge.Hunks.{hunks_overlap}

-- The hunks of both sides in the order of their starts, the local one first where two start together.
abbrev pub interleave : List Hunk → List Hunk → List Hunk
interleave [] rs = rs
interleave (l ∷ ls) [] = l ∷ ls
interleave (l ∷ ls) (r ∷ rs) = elim (leb l.base_start r.base_start) [
  | true ↦ l ∷ interleave ls (r ∷ rs)
  | false ↦ r ∷ interleave (l ∷ ls) rs
]

-- A local and a remote hunk stand apart: one ends before the other starts, or where it starts. Only
-- a remote hunk that adds lines where a local one replaces some, at its start, is not apart though
-- `hunksOverlap` does not hold.
abbrev pub Apart : Hunk → Hunk → Type 0
Apart l r =
    (l.base_end ≤ r.base_start) ⊎ ((r.base_end ≤ l.base_start) × (r.base_start < l.base_start))

abbrev pub Disjoint : List Hunk → List Hunk → Type 0
Disjoint ls rs = All (λ l. All (λ r. Apart l r) rs) ls

pub Apart-overlap : (l r : Hunk) → Apart l r → hunks_overlap l r ≡ false
unfolding hunks_overlap
Apart-overlap l r (inl h) = ground arith
Apart-overlap l r (inr (h, k)) = ground arith

-- The local hunk starts first exactly where it ends first.
pub Apart-local :
    (l r : Hunk)
    → l.base_start ≤ l.base_end
    → Apart l r
    → leb l.base_start r.base_start ≡ true
    → l.base_end ≤ r.base_start
Apart-local l r w (inl h) e = h
Apart-local l r w (inr (h, k)) e = absurd (ground arith)

pub Apart-remote :
    (l r : Hunk)
    → l.base_start ≤ l.base_end
    → Apart l r
    → leb l.base_start r.base_start ≡ false
    → r.base_end ≤ l.base_start
Apart-remote l r w (inl h) e = absurd (ground arith)
Apart-remote l r w (inr (h, k)) e = h

pub Disjoint-nil : (ls : List Hunk) → Disjoint ls []
Disjoint-nil [] = tt
Disjoint-nil (l ∷ ls) = (tt, Disjoint-nil ls)

pub Disjoint-tail : (r : Hunk) (ls rs : List Hunk) → Disjoint ls (r ∷ rs) → Disjoint ls rs
Disjoint-tail r [] rs d = tt
Disjoint-tail r (l ∷ ls) rs ((h, t), d) = (t, Disjoint-tail r ls rs d)

-- The hunks of both sides, in their order, rise too.
pub interleave-IsRising :
    (n k : ℕ) (ls rs : List Hunk)
    → IsRising n k ls
    → IsRising n k rs
    → Disjoint ls rs
    → IsRising n k (interleave ls rs)
interleave-IsRising n k [] rs il ir d = ir
interleave-IsRising n k (l ∷ ls) [] il ir d = il
interleave-IsRising n k (l ∷ ls) (r ∷ rs) (a, b, c, il) (a', b', c', ir) ((apart, al), d) =
    elim (Bool-cases (leb l.base_start r.base_start)) [
      | inl y ↦
          rw (y, interleave)
            (
              a,
              b,
              c,
              interleave-IsRising n l.base_end ls (r ∷ rs) il
                  (Apart-local l r b apart y, b', c', ir) d,
            )
      | inr f ↦
          rw (f, interleave)
            (
              a',
              b',
              c',
              interleave-IsRising n r.base_end (l ∷ ls) rs (Apart-remote l r b apart f, b, c, il) ir
                  (al, Disjoint-tail r ls rs d),
            )
    ]

Perm_refl : (hs : List Hunk) → Permᴰ hs hs
Perm_refl [] = Permᴰ.nil
Perm_refl (h ∷ hs) = Permᴰ.cons refl (Perm_refl hs)

Perm_middle : (h : Hunk) (ls rs : List Hunk) → Permᴰ (h ∷ (ls ++ rs)) (ls ++ h ∷ rs)
Perm_middle h [] rs = Perm_refl (h ∷ rs)
Perm_middle h (l ∷ ls) rs =
    Permᴰ.trans (Permᴰ.swap refl refl) (Permᴰ.cons refl (Perm_middle h ls rs))

-- It has the hunks of both sides, and no other.
pub interleave-Perm : (ls rs : List Hunk) → Permᴰ (interleave ls rs) (ls ++ rs)
interleave-Perm [] rs = Perm_refl rs
interleave-Perm (l ∷ ls) [] = rw (append-nil (l ∷ ls)) (Perm_refl (l ∷ ls))
interleave-Perm (l ∷ ls) (r ∷ rs) = elim (Bool-cases (leb l.base_start r.base_start)) [
  | inl y ↦ rw (y, interleave) (Permᴰ.cons refl (interleave-Perm ls (r ∷ rs)))
  | inr n ↦
      rw (n, interleave)
        (Permᴰ.trans (Permᴰ.cons refl (interleave-Perm (l ∷ ls) rs)) (Perm_middle r (l ∷ ls) rs))
]
