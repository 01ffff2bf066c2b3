-- ===== src/Path.antt =====
-- internal/path/path.go: shortest paths along the edges of the table plink. The queries do not fail.
pub mod Routes
pub mod Search
pub mod Shortest
pub mod Tests
use libfossil.Base.{
  ℕ, zero, suc, ◌+◌, ◌*◌, Bool, true, false, not, ◌&&◌, ◌||◌, List, [], ◌∷◌, ◌++◌, ◌==◌,
  if◌then◌else◌, length, Outcome, ok, err, panicked, stuck,
}
use libfossil.Blob.{has_rid}

pub data Error : Type 0 where
  no_path : Error

abbrev pub Result {ℓ} : Type ℓ → Type ℓ
Result A = Outcome Error A

-- A row of the table plink.
pub record Edge : Type 0 where
  pub pid : ℕ
  pub cid : ℕ
  pub isprim : Bool

-- A node of the search, with its field `From`; the start has none.
pub data PathNode : Type 0 where
  start : ℕ → PathNode
  node : ℕ → PathNode → ℕ → PathNode

unfoldable pub rid_of : PathNode → ℕ
rid_of (start rid) = rid
rid_of (node rid _ _) = rid

unfoldable pub depth_of : PathNode → ℕ
depth_of (start _) = 0
depth_of (node _ _ depth) = depth

-- A node of the result, whose field `From` is nil.
pub record PathStep : Type 0 where
  pub rid : ℕ
  pub depth : ℕ

-- SELECT cid FROM plink WHERE pid=?, with AND isprim=1 if `direct`.
unfoldable pub children : List Edge → Bool → ℕ → List ℕ
children [] direct rid = []
children (e ∷ es) direct rid =
    let rest = children es direct rid in
    if e.pid == rid && (not direct || e.isprim) then e.cid ∷ rest else rest

-- SELECT pid FROM plink WHERE cid=?
unfoldable pub parents : List Edge → Bool → ℕ → List ℕ
parents [] direct rid = []
parents (e ∷ es) direct rid =
    let rest = parents es direct rid in
    if e.cid == rid && (not direct || e.isprim) then e.pid ∷ rest else rest

unfoldable pub neighbors : List Edge → Bool → ℕ → List ℕ
unfolding children parents
neighbors es direct rid = children es direct rid ++ parents es direct rid

-- The rids of a node and of those it comes from, back to the start.
unfoldable pub chain : PathNode → List ℕ
chain (start rid) = rid ∷ []
chain (node rid from _) = rid ∷ chain from

unfoldable pub reverse_onto : List ℕ → List ℕ → List ℕ
reverse_onto [] acc = acc
reverse_onto (x ∷ xs) acc = reverse_onto xs (x ∷ acc)

unfoldable pub number : ℕ → List ℕ → List PathStep
number i [] = []
number i (x ∷ xs) = record { rid = x; depth = i } ∷ number (suc i) xs

unfoldable pub reconstruct : PathNode → List PathStep
unfolding chain reverse_onto number
reconstruct end = number 0 (reverse_onto (chain end) [])

-- What the loop over the neighbors comes to: the goal, or the map `visited` and the queue.
pub data Scan : Type 0 where
  found : PathNode → Scan
  scanned : List ℕ → List PathNode → Scan

unfoldable pub scan : ℕ → PathNode → List ℕ → List ℕ → List PathNode → Scan
unfolding rid_of depth_of
scan to cur [] visited queue = scanned visited queue
scan to cur (nid ∷ nids) visited queue =
    let n = node nid cur (suc (depth_of cur)) in
    let seen = scan to cur nids visited queue in
    let new = scan to cur nids (nid ∷ visited) (queue ++ n ∷ []) in
    if has_rid visited nid then seen else if nid == to then found n else new

unfoldable pub search : List Edge → Bool → ℕ → ℕ → List ℕ → List PathNode → Result PathNode
unfolding scan neighbors
search es direct to zero visited queue = stuck
search es direct to (suc fuel) visited [] = err no_path
search es direct to (suc fuel) visited (cur ∷ queue) =
    elim (scan to cur (neighbors es direct (rid_of cur)) visited queue) [
      | found n ↦ ok n
      | scanned visited' queue' ↦ search es direct to fuel visited' queue'
    ]

-- Each node that is queued is an end of an edge, and is queued once.
unfoldable pub search_fuel : List Edge → ℕ
search_fuel es = 2 + 2 * length es

unfoldable pub reconstructed : Result PathNode → Result (List PathStep)
unfolding reconstruct
reconstructed (ok n) = ok (reconstruct n)
reconstructed (err e) = err e
reconstructed panicked = panicked
reconstructed stuck = stuck

unfoldable pub shortest : List Edge → ℕ → ℕ → Bool → List ℕ → Result (List PathStep)
unfolding search search_fuel reconstructed
shortest es from to direct skip =
    if from == 0 || to == 0
    then panicked
    else if from == to
    then ok (record { rid = from; depth = 0 } ∷ [])
    else reconstructed (search es direct to (search_fuel es) (from ∷ skip) (start from ∷ []))
