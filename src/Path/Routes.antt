-- ===== src/Path/Routes.antt =====
-- internal/path/path.go: what a path is, apart from the search.
use libfossil.Base.{ℕ, suc, ◌+◌, ◌≡◌, refl, ap, arith, Bool, true, false, List, [], ◌∷◌, length}
use libfossil.Blob.{has_rid}
use libfossil.Path.{Edge, PathStep, neighbors, reverse_onto, number}

module _ (es : List Edge) (direct : Bool) (skip : List ℕ) where
  -- One edge, in either direction, to a rid that is not skipped.
  abbrev pub CanStep : ℕ → ℕ → Type 0
  CanStep u v = (has_rid (neighbors es direct u) v ≡ true) × (has_rid skip v ≡ false)

  abbrev pub Continues : ℕ → List ℕ → Type 0
  Continues x [] = Unit
  Continues x (y ∷ ys) = CanStep x y × Continues y ys

abbrev pub last_of : ℕ → List ℕ → ℕ
last_of x [] = x
last_of x (y ∷ ys) = last_of y ys

module _ (es : List Edge) (direct : Bool) (skip : List ℕ) (from : ℕ) where
  -- A list of rids that leads along edges from `from` to `to`.
  abbrev pub IsRoute : ℕ → List ℕ → Type 0
  IsRoute to [] = ⊥
  IsRoute to (x ∷ xs) = (x ≡ from) × Continues es direct skip x xs × (last_of x xs ≡ to)

  -- The same, from its end back to `from`.
  abbrev pub IsTrail : List ℕ → Type 0
  IsTrail [] = ⊥
  IsTrail (x ∷ []) = x ≡ from
  IsTrail (v ∷ u ∷ rest) = CanStep es direct skip u v × IsTrail (u ∷ rest)

  pub reverse_onto-IsRoute :
      (v : ℕ) (rest acc : List ℕ)
      → IsTrail (v ∷ rest)
      → Continues es direct skip v acc
      → IsRoute (last_of v acc) (reverse_onto (v ∷ rest) acc)
  unfolding reverse_onto
  reverse_onto-IsRoute v [] acc t c = (t, c, refl)
  reverse_onto-IsRoute v (u ∷ rest) acc (s, t) c = reverse_onto-IsRoute u rest (v ∷ acc) t (s, c)

  -- A route makes a trail of the same length.
  pub IsRoute-IsTrail :
      (x : ℕ) (ys acc : List ℕ)
      → IsTrail (x ∷ acc)
      → Continues es direct skip x ys
      → (rest : List ℕ) × IsTrail (last_of x ys ∷ rest) × (length rest ≡ length acc + length ys)
  IsRoute-IsTrail x [] acc t c = (acc, t, omega arith)
  IsRoute-IsTrail x (y ∷ ys) acc t (s, c) =
      let (rest, t', l) = IsRoute-IsTrail y ys (x ∷ acc) (s, t) c in (rest, t', omega arith)

pub length-reverse_onto : (xs acc : List ℕ) → length (reverse_onto xs acc) ≡ length xs + length acc
unfolding reverse_onto
length-reverse_onto [] acc = omega arith
length-reverse_onto (x ∷ xs) acc = omega (arith, length-reverse_onto xs (x ∷ acc))

-- The rids of the result.
unfoldable pub rids : List PathStep → List ℕ
rids [] = []
rids (s ∷ ss) = s.rid ∷ rids ss

pub rids-number : (i : ℕ) (xs : List ℕ) → rids (number i xs) ≡ xs
unfolding rids number
rids-number i [] = refl
rids-number i (x ∷ xs) = ap (◌∷◌ x) (rids-number (suc i) xs)

pub length-number : (i : ℕ) (xs : List ℕ) → length (number i xs) ≡ length xs
unfolding number
length-number i [] = refl
length-number i (x ∷ xs) = ap suc (length-number (suc i) xs)
