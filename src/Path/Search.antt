-- ===== src/Path/Search.antt =====
-- internal/path/path.go: the invariant of the breadth-first search.
pub mod Level
pub mod Scanned
pub mod Fuel
use libfossil.Base.{
  ℕ, zero, suc, ◌+◌, ◌≤◌, ◌<◌, ◌≡◌, ◌≢◌, ◌⊎◌, ◌==◌, if◌then◌else◌, Bool-cases, inl, inr, refl, ap,
  sym, ◌∙◌, arith, Bool, true, false, List, [], ◌∷◌, ◌++◌, length, All,
}
use libfossil.Blob.{has_rid}
use libfossil.Path.{Edge, PathNode, start, node, rid_of, depth_of, chain}
use libfossil.Path.Routes.{CanStep, IsTrail}

abbrev pub IsQueued : ℕ → List PathNode → Type 0
IsQueued v [] = ⊥
IsQueued v (q ∷ qs) = (rid_of q ≡ v) ⊎ IsQueued v qs

module _ (es : List Edge) (direct : Bool) (skip : List ℕ) (from : ℕ) where
  -- The node's chain leads from the start to it, and its depth is the length of the chain, than which
  -- no trail to its rid is shorter.
  pub record IsBest (q : PathNode) : Type 0 where
    pub leads : IsTrail es direct skip from (chain q)
    pub deep : length (chain q) ≡ suc (depth_of q)
    pub least :
        (rest : List ℕ) → IsTrail es direct skip from (rid_of q ∷ rest) → depth_of q ≤ length rest

  abbrev pub IsAt : ℕ → PathNode → Type 0
  IsAt d q = IsBest q × (depth_of q ≡ d)

  -- All neighbors of `v` that are not skipped have been visited.
  abbrev pub IsDone : List ℕ → ℕ → Type 0
  IsDone visited v = (n : ℕ) → CanStep es direct skip v n → has_rid visited n ≡ true

  -- What does not depend on the queue.
  pub record IsSound (to d : ℕ) (visited : List ℕ) : Type 0 where
    pub near :
        (v : ℕ) (rest : List ℕ)
        → IsTrail es direct skip from (v ∷ rest)
        → length rest ≤ d
        → has_rid visited v ≡ true
    pub skips : (v : ℕ) → has_rid skip v ≡ true → has_rid visited v ≡ true
    pub goal :
        (rest : List ℕ) → IsTrail es direct skip from (to ∷ rest) → has_rid visited to ≡ false

  -- The queue holds nodes of depth `d` and then nodes one deeper; what a trail reaches within `d`
  -- steps is visited; and what is visited is queued or done.
  pub record IsLevel (to d : ℕ) (near_nodes far_nodes : List PathNode) (visited : List ℕ)
      : Type 0 where
    pub sound : IsSound to d visited
    pub nears : All (IsAt d) near_nodes
    pub fars : All (IsAt (suc d)) far_nodes
    pub closed :
        (v : ℕ) (rest : List ℕ)
        → IsTrail es direct skip from (v ∷ rest)
        → has_rid visited v ≡ true
        → IsQueued v (near_nodes ++ far_nodes) ⊎ IsDone visited v

-- Membership in what was visited.
pub has_rid-head : (x : ℕ) (xs : List ℕ) → has_rid (x ∷ xs) x ≡ true
unfolding has_rid
has_rid-head x xs = ground arith

pub has_rid-tail : (x v : ℕ) (xs : List ℕ) → has_rid xs v ≡ true → has_rid (x ∷ xs) v ≡ true
unfolding has_rid
has_rid-tail x v xs h = ground arith

pub has_rid_cons :
    (x v : ℕ) (xs : List ℕ) → has_rid (x ∷ xs) v ≡ true → (x ≡ v) ⊎ (has_rid xs v ≡ true)
unfolding has_rid
has_rid_cons x v xs h = elim (Bool-cases (x == v)) [
  | inl y ↦ inl (ground arith)
  | inr n0 ↦ inr (rw n0 at h)
]

pub has_rid_other :
    (x v : ℕ) (xs : List ℕ) → x ≢ v → has_rid xs v ≡ false → has_rid (x ∷ xs) v ≡ false
unfolding has_rid
has_rid_other x v xs k h = ground arith
