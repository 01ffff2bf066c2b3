-- ===== src/Path/Search/Scanned.antt =====
-- internal/path/path.go: the loop over the neighbors of a node.
use libfossil.Base.{
  ℕ, suc, ◌≤◌, ◌≡◌, ◌≢◌, ◌⊎◌, inl, inr, refl, ap, sym, ◌∙◌, subst, arith, Bool, true, false, List,
  [], ◌∷◌, ◌++◌, ◌==◌, length, leb, All, All-append, append_assoc, Bool-cases, ==_iff,
}
use libfossil.Blob.{has_rid}
use libfossil.Path.{
  Edge, PathNode, start, node, rid_of, depth_of, chain, neighbors, Scan, found, scanned, scan,
}
use libfossil.Path.Routes.{CanStep, IsTrail}
use libfossil.Path.Search.{
  IsQueued, IsBest, IsAt, IsDone, IsSound, IsLevel, has_rid-head, has_rid-tail, has_rid_cons,
  has_rid_other,
}

not_both : {b : Bool} → b ≡ true → b ≡ false → ⊥
not_both h k = let both : true ≡ false = sym h ∙ k in cc

IsQueued-append : (v : ℕ) (qs rs : List PathNode) → IsQueued v qs → IsQueued v (qs ++ rs)
IsQueued-append v [] rs q = elim q [ ]
IsQueued-append v (x ∷ qs) rs (inl e) = inl e
IsQueued-append v (x ∷ qs) rs (inr q) = inr (IsQueued-append v qs rs q)

IsQueued-last : (q : PathNode) (qs : List PathNode) → IsQueued (rid_of q) (qs ++ q ∷ [])
IsQueued-last q [] = inl refl
IsQueued-last q (x ∷ qs) = inr (IsQueued-last q qs)

module _ (es : List Edge) (direct : Bool) (skip : List ℕ) (from to d : ℕ) (cur : PathNode) where
  -- The neighbors `ns` of `cur` are still to come.
  pub record IsScanning (nears fars : List PathNode) (visited ns : List ℕ) : Type 0 where
    pub sound : IsSound es direct skip from to d visited
    pub at : IsAt es direct skip from d cur
    pub near_ones : All (IsAt es direct skip from d) nears
    pub far_ones : All (IsAt es direct skip from (suc d)) fars
    pub closed_but :
        (v : ℕ) (rest : List ℕ)
        → IsTrail es direct skip from (v ∷ rest)
        → has_rid visited v ≡ true
        → (rid_of cur ≡ v) ⊎ (IsQueued v (nears ++ fars) ⊎ IsDone es direct skip from visited v)
    pub to_come :
        (n : ℕ)
        → CanStep es direct skip (rid_of cur) n
        → (has_rid visited n ≡ true) ⊎ (has_rid ns n ≡ true)
    pub adjacent :
        (n : ℕ) → has_rid ns n ≡ true → has_rid (neighbors es direct (rid_of cur)) n ≡ true

  abbrev pub IsGood : List PathNode → Scan → Type 0
  IsGood nears (found n) = IsBest es direct skip from n × (rid_of n ≡ to)
  IsGood nears (scanned visited queue) =
      (fars : List PathNode) × (queue ≡ nears ++ fars)
      × IsLevel es direct skip from to d nears fars visited

  IsTrail-node :
      (q : PathNode) (n : ℕ)
      → CanStep es direct skip (rid_of q) n
      → IsTrail es direct skip from (chain q)
      → IsTrail es direct skip from (n ∷ chain q)
  unfolding chain rid_of
  IsTrail-node (start r) n s t = (s, t)
  IsTrail-node (node r f k) n s t = (s, t)

  -- A node for a neighbor that was not visited.
  abbrev next_node : ℕ → PathNode
  unfolding depth_of
  next_node nid = node nid cur (suc (depth_of cur))

  module _ (nears fars : List PathNode) (visited : List ℕ) (nid : ℕ) (ns : List ℕ) where
    next_node-IsBest :
        IsScanning nears fars visited (nid ∷ ns)
        → has_rid visited nid ≡ false
        → IsBest es direct skip from (next_node nid)
    unfolding rid_of depth_of chain
    next_node-IsBest k new = record {
      leads = IsTrail-node cur nid (k.adjacent nid (has_rid-head nid ns), free) k.at.0.leads;
      deep = ap suc k.at.0.deep;
      least = λ rest t. far rest t;
    }
      where
        free : has_rid skip nid ≡ false
        free = elim (Bool-cases (has_rid skip nid)) [
          | inl y ↦ absurd (not_both (k.sound.skips nid y) new)
          | inr n0 ↦ n0
        ]

        far :
            (rest : List ℕ)
            → IsTrail es direct skip from (nid ∷ rest)
            → suc (depth_of cur) ≤ length rest
        far rest t = elim (Bool-cases (leb (length rest) d)) [
          | inl y ↦ absurd (not_both (k.sound.near nid rest t (ground arith)) new)
          | inr n0 ↦ let e = k.at.1 in ground arith
        ]

    seen-IsScanning :
        IsScanning nears fars visited (nid ∷ ns)
        → has_rid visited nid ≡ true
        → IsScanning nears fars visited ns
    seen-IsScanning k seen = record {
      sound = k.sound;
      at = k.at;
      near_ones = k.near_ones;
      far_ones = k.far_ones;
      closed_but = k.closed_but;
      to_come = λ n s. to_come' n (k.to_come n s);
      adjacent = λ n h. k.adjacent n (has_rid-tail nid n ns h);
    }
      where
        to_come' :
            (n : ℕ)
            → (has_rid visited n ≡ true) ⊎ (has_rid (nid ∷ ns) n ≡ true)
            → (has_rid visited n ≡ true) ⊎ (has_rid ns n ≡ true)
        to_come' n (inl h) = inl h
        to_come' n (inr h) = elim (has_rid_cons nid n ns h) [
          | inl same ↦ inl (subst (λ x. has_rid visited x ≡ true) same seen)
          | inr later ↦ inr later
        ]

    new-IsScanning :
        IsScanning nears fars visited (nid ∷ ns)
        → has_rid visited nid ≡ false
        → nid ≢ to
        → IsScanning nears (fars ++ next_node nid ∷ []) (nid ∷ visited) ns
    unfolding depth_of rid_of
    new-IsScanning k new other = record {
      sound = record {
        near = λ v rest t l. has_rid-tail nid v visited (k.sound.near v rest t l);
        skips = λ v h. has_rid-tail nid v visited (k.sound.skips v h);
        goal = λ rest t. has_rid_other nid to visited other (k.sound.goal rest t);
      };
      at = k.at;
      near_ones = k.near_ones;
      far_ones = All-append _ fars _ k.far_ones ((next_node-IsBest k new, ap suc k.at.1), tt);
      closed_but = closed';
      to_come = λ n s. to_come' n (k.to_come n s);
      adjacent = λ n h. k.adjacent n (has_rid-tail nid n ns h);
    }
      where
        to_come' :
            (n : ℕ)
            → (has_rid visited n ≡ true) ⊎ (has_rid (nid ∷ ns) n ≡ true)
            → (has_rid (nid ∷ visited) n ≡ true) ⊎ (has_rid ns n ≡ true)
        to_come' n (inl h) = inl (has_rid-tail nid n visited h)
        to_come' n (inr h) = elim (has_rid_cons nid n ns h) [
          | inl same ↦
              inl (subst (λ x. has_rid (nid ∷ visited) x ≡ true) same (has_rid-head nid visited))
          | inr later ↦ inr later
        ]

        queue' : List PathNode
        queue' = nears ++ (fars ++ next_node nid ∷ [])

        same_queue : (nears ++ fars) ++ next_node nid ∷ [] ≡ queue'
        same_queue = append_assoc nears fars _

        weaken :
            (v : ℕ)
            → (rid_of cur ≡ v) ⊎ (IsQueued v (nears ++ fars) ⊎ IsDone es direct skip from visited v)
            → (rid_of cur ≡ v) ⊎ (IsQueued v queue' ⊎ IsDone es direct skip from (nid ∷ visited) v)
        weaken v (inl h) = inl h
        weaken v (inr (inl q)) =
            inr (inl (subst (IsQueued v) same_queue (IsQueued-append v (nears ++ fars) _ q)))
        weaken v (inr (inr done)) = inr (inr λ n s. has_rid-tail nid n visited (done n s))

        closed' :
            (v : ℕ) (rest : List ℕ)
            → IsTrail es direct skip from (v ∷ rest)
            → has_rid (nid ∷ visited) v ≡ true
            → (rid_of cur ≡ v) ⊎ (IsQueued v queue' ⊎ IsDone es direct skip from (nid ∷ visited) v)
        closed' v rest t h = elim (has_rid_cons nid v visited h) [
          | inl same ↦ inr (
              inl (
                subst (λ x. IsQueued x queue') same
                  (subst (IsQueued nid) same_queue
                    (IsQueued-last (next_node nid) (nears ++ fars)))))
          | inr before ↦ weaken v (k.closed_but v rest t before)
        ]

  all-IsScanning :
      (nears fars : List PathNode) (visited : List ℕ)
      → IsScanning nears fars visited []
      → IsLevel es direct skip from to d nears fars visited
  unfolding has_rid
  all-IsScanning nears fars visited k = record {
    sound = k.sound;
    nears = k.near_ones;
    fars = k.far_ones;
    closed = λ v rest t h. closed' v (k.closed_but v rest t h);
  }
    where
      done : (n : ℕ) → CanStep es direct skip (rid_of cur) n → has_rid visited n ≡ true
      done n s = elim (k.to_come n s) [ inl h ↦ h | inr h ↦ absurd (not_both h refl) ]

      closed' :
          (v : ℕ)
          → (rid_of cur ≡ v) ⊎ (IsQueued v (nears ++ fars) ⊎ IsDone es direct skip from visited v)
          → IsQueued v (nears ++ fars) ⊎ IsDone es direct skip from visited v
      closed' v (inl same) = inr (subst (IsDone es direct skip from visited) same done)
      closed' v (inr h) = h

  -- The loop finds a best node for the goal, or leaves the queue at the same level.
  pub scan-IsGood :
      (nears fars : List PathNode) (visited ns : List ℕ)
      → IsScanning nears fars visited ns
      → IsGood nears (scan to cur ns visited (nears ++ fars))
  unfolding scan
  scan-IsGood nears fars visited [] k = (fars, refl, all-IsScanning nears fars visited k)
  scan-IsGood nears fars visited (nid ∷ ns) k = elim (Bool-cases (has_rid visited nid)) [
    | inl seen ↦
        rw seen
          (scan-IsGood nears fars visited ns (seen-IsScanning nears fars visited nid ns k seen))
    | inr new ↦ elim (Bool-cases (nid == to)) [
      | inl goal ↦
          rw (new, goal) (next_node-IsBest nears fars visited nid ns k new, (==_iff nid to).0 goal)
      | inr other ↦
          rw (new, other, append_assoc nears fars (next_node nid ∷ []))
            (scan-IsGood nears (fars ++ next_node nid ∷ []) (nid ∷ visited) ns (
              new-IsScanning nears fars visited nid ns k new
                λ e. not_both ((==_iff nid to).1 e) other))
    ]
  ]
