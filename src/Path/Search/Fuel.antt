-- ===== src/Path/Search/Fuel.antt =====
-- internal/path/path.go: the search ends, since a node is queued only once.
use libfossil.Base.{
  ℕ, suc, ◌+◌, ◌≤◌, ◌<◌, ◌≡◌, inl, inr, refl, arith, Bool, true, false, ◌||◌, List, [], ◌∷◌, ◌++◌,
  ◌==◌, if◌then◌else◌, length, length-append, Bool-cases,
}
use libfossil.Blob.{has_rid}
use libfossil.Path.{
  Edge, PathNode, node, children, parents, neighbors, depth_of, Scan, found, scanned, scan,
  search_fuel,
}
use libfossil.Path.Search.{has_rid-head, has_rid-tail}

-- The ends of the edges, and how many of a list have not been visited.
unfoldable pub ends : List Edge → List ℕ
ends [] = []
ends (e ∷ es) = e.pid ∷ e.cid ∷ ends es

unfoldable pub unseen : List ℕ → List ℕ → ℕ
unseen visited [] = 0
unseen visited (x ∷ xs) =
    let rest = unseen visited xs in if has_rid visited x then rest else suc rest

unseen-le : (v : ℕ) (visited xs : List ℕ) → unseen (v ∷ visited) xs ≤ unseen visited xs
unfolding unseen has_rid
unseen-le v visited [] = omega arith
unseen-le v visited (x ∷ xs) = ground (arith, unseen-le v visited xs)

unseen-lt :
    (v : ℕ) (visited xs : List ℕ)
    → has_rid visited v ≡ false
    → has_rid xs v ≡ true
    → unseen (v ∷ visited) xs < unseen visited xs
unfolding unseen has_rid
unseen-lt v visited [] h k = absurd (cc)
unseen-lt v visited (x ∷ xs) h k = ground (arith, unseen-le v visited xs, unseen-lt v visited xs)

pub unseen-ends :
    (visited : List ℕ) (es : List Edge) → suc (unseen visited (ends es)) < search_fuel es
unfolding unseen ends search_fuel
unseen-ends visited [] = omega arith
unseen-ends visited (e ∷ es) = ground (arith, unseen-ends visited es)

has_rid-append : (v : ℕ) (xs ys : List ℕ) → has_rid (xs ++ ys) v ≡ (has_rid xs v || has_rid ys v)
unfolding has_rid
has_rid-append v [] ys = refl
has_rid-append v (x ∷ xs) ys = ground (arith, has_rid-append v xs ys)

children-ends :
    (es : List Edge) (direct : Bool) (u v : ℕ)
    → has_rid (children es direct u) v ≡ true
    → has_rid (ends es) v ≡ true
unfolding has_rid children ends
children-ends [] direct u v h = h
children-ends (e ∷ es) direct u v h = ground (arith, children-ends es direct u v)

parents-ends :
    (es : List Edge) (direct : Bool) (u v : ℕ)
    → has_rid (parents es direct u) v ≡ true
    → has_rid (ends es) v ≡ true
unfolding has_rid parents ends
parents-ends [] direct u v h = h
parents-ends (e ∷ es) direct u v h = ground (arith, parents-ends es direct u v)

pub neighbors-ends :
    (es : List Edge) (direct : Bool) (u v : ℕ)
    → has_rid (neighbors es direct u) v ≡ true
    → has_rid (ends es) v ≡ true
unfolding neighbors
neighbors-ends es direct u v h =
    let split = has_rid-append v (children es direct u) (parents es direct u) in
    grind (arith, split, children-ends es direct u v, parents-ends es direct u v)

-- What is queued and what is not visited, together, do not grow.
abbrev pub IsSpent : List ℕ → ℕ → Scan → Type 0
IsSpent xs bound (found n) = Unit
IsSpent xs bound (scanned visited queue) = length queue + unseen visited xs ≤ bound

pub scan-IsSpent :
    (to : ℕ) (cur : PathNode) (ns visited xs : List ℕ) (queue : List PathNode) (bound : ℕ)
    → ((n : ℕ) → has_rid ns n ≡ true → has_rid xs n ≡ true)
    → length queue + unseen visited xs ≤ bound
    → IsSpent xs bound (scan to cur ns visited queue)
unfolding scan
scan-IsSpent to cur [] visited xs queue bound sub h = h
scan-IsSpent to cur (nid ∷ ns) visited xs queue bound sub h =
    let later : (n : ℕ) → has_rid ns n ≡ true → has_rid xs n ≡ true =
      λ n k. sub n (has_rid-tail nid n ns k) in
    elim (Bool-cases (has_rid visited nid)) [
      | inl seen ↦ rw seen (scan-IsSpent to cur ns visited xs queue bound later h)
      | inr new ↦ elim (Bool-cases (nid == to)) [
        | inl goal ↦ rw (new, goal) tt
        | inr other ↦
            rw (new, other)
              (let fewer = unseen-lt nid visited xs new (sub nid (has_rid-head nid ns)) in
                let n = node nid cur (suc (depth_of cur)) in
                scan-IsSpent to cur ns (nid ∷ visited) xs (queue ++ n ∷ []) bound later
                  (omega (arith, length-append queue (n ∷ []))))
      ]
    ]
