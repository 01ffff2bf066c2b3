-- ===== src/Bisect/Midpoint.antt =====
-- internal/bisect/bisect.go, `Next`: the choice on a path.
use libfossil.Base.{
  ℕ, zero, suc, ◌+◌, ◌-◌, ◌/◌, ◌≤◌, ◌<◌, ◌≡◌, inl, inr, refl, sym, ◌∙◌, subst, arith, Bool, true,
  false, ◌&&◌, none, some, List, [], ◌∷◌, leb, length, get_elem?, ok, err, Bool-cases, Option-cases,
}
use libfossil.Base.Int.{ℤ}
use libfossil.Path.{PathStep}
use libfossil.Bisect.{Result, complete, is_skipped, is_candidate, outward, pick, at_index, next_on}

pub get_elem-below {ℓ} :
    {A : Type ℓ} (xs : List A) (i : ℕ) → i < length xs → (x : A) × (get_elem? xs i ≡ some x)
get_elem-below [] i h = absurd (omega arith)
get_elem-below (x ∷ xs) zero h = (x, refl)
get_elem-below (x ∷ xs) (suc i) h = get_elem-below xs i (omega arith)

-- Strictly inside of the path, and not skipped.
pub record IsChoice (p : List PathStep) (skips : List ℤ) (i : ℕ) (step : PathStep) : Type 0 where
  pub there : get_elem? p i ≡ some step
  pub above : 0 < i
  pub below : suc i < length p
  pub kept : is_skipped skips step.rid ≡ false

candidate-IsChoice :
    (p : List PathStep) (skips : List ℤ) (i : ℕ)
    → is_candidate p skips i ≡ true
    → (step : PathStep) × IsChoice p skips i step
unfolding is_candidate
candidate-IsChoice p skips i h = elim (Option-cases (get_elem? p i)) [
  | inl e ↦ absurd (let h' = rw (e, is_candidate) at h in cc)
  | inr (step, e) ↦
      let h' = rw (e, is_candidate) at h in
      (step, record { there = e; above = ground arith; below = ground arith; kept = ground arith })
]

IsChoice-candidate :
    (p : List PathStep) (skips : List ℤ) (i : ℕ) (step : PathStep)
    → IsChoice p skips i step
    → is_candidate p skips i ≡ true
unfolding is_candidate
IsChoice-candidate p skips i step c =
    rw (c.there, is_candidate)
      (let a = c.above in let b = c.below in let k = c.kept in ground arith)

candidate_at :
    (p : List PathStep) (skips : List ℤ) (j i : ℕ)
    → some j ≡ some i
    → is_candidate p skips j ≡ true
    → is_candidate p skips i ≡ true
candidate_at p skips j i h c = let same : j ≡ i = cc in rw same at c

and_right : (a b : Bool) → (a && b) ≡ true → b ≡ true
and_right true b h = h
and_right false b h = absurd (cc)

and_false : (a b : Bool) → a ≡ true → (a && b) ≡ false → b ≡ false
and_false true b h k = k
and_false false b h k = absurd (cc)

outward-some :
    (p : List PathStep) (skips : List ℤ) (mid d k i : ℕ)
    → outward p skips mid d k ≡ some i
    → is_candidate p skips i ≡ true
unfolding outward
outward-some p skips mid d zero i h = absurd (cc)
outward-some p skips mid d (suc k) i h = elim (Bool-cases (is_candidate p skips (mid + d))) [
  | inl y ↦ candidate_at p skips _ i (rw y at h) y
  | inr n0 ↦ elim (Bool-cases (leb d mid && is_candidate p skips (mid - d))) [
    | inl y ↦ candidate_at p skips _ i (rw (n0, y) at h) (and_right (leb d mid) _ y)
    | inr n1 ↦ outward-some p skips mid (suc d) k i (rw (n0, n1) at h)
  ]
]

-- What is not found was not there.
outward-none :
    (p : List PathStep) (skips : List ℤ) (mid d k j : ℕ)
    → outward p skips mid d k ≡ none
    → d ≤ j
    → j < d + k
    → (is_candidate p skips (mid + j) ≡ false) × (j ≤ mid → is_candidate p skips (mid - j) ≡ false)
unfolding outward
outward-none p skips mid d zero j h a b = absurd (omega arith)
outward-none p skips mid d (suc k) j h a b = elim (Bool-cases (is_candidate p skips (mid + d))) [
  | inl y ↦ absurd (let h' = rw y at h in cc)
  | inr n0 ↦ elim (Bool-cases (leb d mid && is_candidate p skips (mid - d))) [
    | inl y ↦ absurd (let h' = rw (n0, y) at h in cc)
    | inr n1 ↦ elim (Bool-cases (leb j d)) [
      | inl same ↦
          let e : j ≡ d = ground arith in
          (rw e n0, λ l. rw e (and_false (leb d mid) _ (ground arith) n1))
      | inr later ↦
          outward-none p skips mid (suc d) k j (rw (n0, n1) at h) (ground arith) (omega arith)
    ]
  ]
]

pub get_elem-some {ℓ} :
    {A : Type ℓ} (xs : List A) (i : ℕ) (x : A) → get_elem? xs i ≡ some x → i < length xs
get_elem-some [] i x h = absurd (cc)
get_elem-some (y ∷ ys) zero x h = omega arith
get_elem-some (y ∷ ys) (suc i) x h = omega (arith, get_elem-some ys i x h)

-- What `Next` does with a path: it chooses, or says that the search is over when there is no choice.
abbrev pub Picks : ℤ → List PathStep → List ℤ → Result ℕ → Type 0
Picks bad p skips (ok r) = (i : ℕ) × (step : PathStep) × IsChoice p skips i step × (step.rid ≡ r)
Picks bad p skips (err (complete b)) =
    (b ≡ bad) × ((i : ℕ) (step : PathStep) → IsChoice p skips i step → ⊥)
Picks bad p skips _ = ⊥

at_index-Picks :
    (bad : ℤ) (p : List PathStep) (skips : List ℤ) (i : ℕ)
    → is_candidate p skips i ≡ true
    → Picks bad p skips (at_index bad p (some i))
unfolding at_index
at_index-Picks bad p skips i h =
    let (step, c) = candidate-IsChoice p skips i h in rw (c.there, at_index) (i, step, c, refl)

no_choice :
    (p : List PathStep) (id : ℤ) (ids : List ℤ)
    → pick p (id ∷ ids) ≡ none
    → (i : ℕ) (step : PathStep) → IsChoice p (id ∷ ids) i step
    → ⊥
unfolding pick
no_choice p id ids h i step c =
    let yes = IsChoice-candidate p (id ∷ ids) i step c in
    let mid = length p / 2 in
    let inside = get_elem-some p i step c.there in
    elim (Bool-cases (leb mid i)) [
      | inl y ↦
          let e : mid + (i - mid) ≡ i = ground arith in
          let o =
            (outward-none p (id ∷ ids) mid 0 (length p) (i - mid) h (omega arith)
              (omega arith)).0 in
          clash yes (subst (λ j. is_candidate p (id ∷ ids) j ≡ false) e o)
      | inr n0 ↦
          let e : mid - (mid - i) ≡ i = ground arith in
          let o =
            (outward-none p (id ∷ ids) mid 0 (length p) (mid - i) h (omega arith) (omega arith)).1
              (omega arith) in
          clash yes (subst (λ j. is_candidate p (id ∷ ids) j ≡ false) e o)
    ]
  where
    clash : {b : Bool} → b ≡ true → b ≡ false → ⊥
    clash x y = let both : true ≡ false = sym x ∙ y in cc

pick-Picks :
    (bad : ℤ) (p : List PathStep) (skips : List ℤ)
    → 2 < length p
    → Picks bad p skips (at_index bad p (pick p skips))
unfolding pick is_skipped at_index
pick-Picks bad p [] h =
    let (step, e) = get_elem-below p (length p / 2) (omega arith) in
    at_index-Picks bad p [] (length p / 2) (
      IsChoice-candidate p [] _ step
        (record { there = e; above = omega arith; below = omega arith; kept = refl }))
pick-Picks bad p (id ∷ ids) h = elim (Option-cases (pick p (id ∷ ids))) [
  | inl e ↦ rw (e, at_index) (refl, no_choice p id ids e)
  | inr (i, e) ↦ rw e (
      at_index-Picks bad p (id ∷ ids) i (outward-some p (id ∷ ids) (length p / 2) 0 (length p) i e))
]

-- On every path `Next` gives a rid strictly inside of the path that is not skipped; it says that the
-- search is over only where there is none.
pub next_on-Picks :
    (bad : ℤ) (p : List PathStep) (skips : List ℤ) → Picks bad p skips (next_on bad p skips)
unfolding next_on
next_on-Picks bad p skips = elim (Bool-cases (leb (length p) 2)) [
  | inl short ↦
      rw short (refl, λ i step c. let a = c.above in let b = c.below in absurd (ground arith))
  | inr long ↦ rw long (pick-Picks bad p skips (ground arith))
]

-- With no rid skipped it is the one in the middle.
pub next_on-middle :
    (bad : ℤ) (p : List PathStep) (r : ℕ)
    → next_on bad p [] ≡ ok r
    → (step : PathStep) × (get_elem? p (length p / 2) ≡ some step) × (step.rid ≡ r) × (2 < length p)
unfolding next_on pick at_index
next_on-middle bad p r h = elim (Bool-cases (leb (length p) 2)) [
  | inl short ↦ absurd (let h' = rw short at h in cc)
  | inr long ↦
      let h' = rw long at h in
      let (step, e) = get_elem-below p (length p / 2) (ground arith) in
      let h'' = rw (e, at_index) at h' in (step, e, cc, ground arith)
]
