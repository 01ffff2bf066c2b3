-- ===== src/Path/Shortest.antt =====
-- internal/path/path.go, `Shortest`: it finds a shortest path, or there is none.
use libfossil.Base.{
  ℕ, zero, suc, ◌+◌, ◌≤◌, ◌<◌, ◌≡◌, ◌≢◌, ◌⊎◌, inl, inr, refl, ap, sym, ◌∙◌, subst, subst⁻¹, arith,
  Bool, true, false, List, [], ◌∷◌, ◌++◌, ◌==◌, length, append-nil, Bool-cases, ok, err, panicked,
  stuck,
}
use libfossil.Blob.{has_rid}
use libfossil.Path.{
  Edge, PathNode, start, node, PathStep, Result, rid_of, chain, neighbors, Scan, found, scanned,
  scan, search, search_fuel, reconstruct, reconstructed, reverse_onto, number, shortest,
}
use libfossil.Path.Routes.{
  IsRoute, IsTrail, reverse_onto-IsRoute, IsRoute-IsTrail, length-reverse_onto, length-number, rids,
  rids-number,
}
use libfossil.Path.Search.{IsQueued, IsBest, IsDone, IsLevel}
use libfossil.Path.Search.Level.{next-IsLevel, first-IsLevel}
use libfossil.Path.Search.Scanned.{IsScanning, IsGood, scan-IsGood}
use libfossil.Path.Search.Fuel.{ends, unseen, unseen-ends, neighbors-ends, IsSpent, scan-IsSpent}

module _ (es : List Edge) (direct : Bool) (skip : List ℕ) (from to : ℕ) where
  -- A best node for the goal, or no trail to it.
  abbrev IsAnswer : Result PathNode → Type 0
  IsAnswer (ok n) = IsBest es direct skip from n × (rid_of n ≡ to)
  IsAnswer (err e) = (rest : List ℕ) → IsTrail es direct skip from (to ∷ rest) → ⊥
  IsAnswer panicked = ⊥
  IsAnswer stuck = ⊥

  -- The node at the front is taken.
  pop-IsScanning :
      (d : ℕ) (cur : PathNode) (nears fars : List PathNode) (visited : List ℕ)
      → IsLevel es direct skip from to d (cur ∷ nears) fars visited
      → IsScanning es direct skip from to d cur nears fars visited
          (neighbors es direct (rid_of cur))
  pop-IsScanning d cur nears fars visited k = record {
    sound = k.sound;
    at = k.nears.0;
    near_ones = k.nears.1;
    far_ones = k.fars;
    closed_but = λ v rest t h. split v (k.closed v rest t h);
    to_come = λ n s. inr s.0;
    adjacent = λ n h. h;
  }
    where
      split :
          (v : ℕ)
          → ((rid_of cur ≡ v) ⊎ IsQueued v (nears ++ fars)) ⊎ IsDone es direct skip from visited v
          → (rid_of cur ≡ v) ⊎ (IsQueued v (nears ++ fars) ⊎ IsDone es direct skip from visited v)
      split v (inl (inl e)) = inl e
      split v (inl (inr q)) = inr (inl q)
      split v (inr h) = inr (inr h)

  -- With nothing queued, every trail stays in what is visited.
  trail-visited :
      (d : ℕ) (visited : List ℕ)
      → IsLevel es direct skip from to d [] [] visited
      → (v : ℕ) (rest : List ℕ) → IsTrail es direct skip from (v ∷ rest)
      → has_rid visited v ≡ true
  trail-visited d visited k v [] t = k.sound.near v [] t (omega arith)
  trail-visited d visited k v (u ∷ rest) (s, t) =
      elim (k.closed u rest t (trail-visited d visited k u rest t)) [
        | inl q ↦ absurd q
        | inr done ↦ done v s
      ]

  search-empty :
      (d : ℕ) (visited : List ℕ)
      → IsLevel es direct skip from to d [] [] visited
      → (rest : List ℕ) → IsTrail es direct skip from (to ∷ rest)
      → ⊥
  search-empty d visited k rest t =
      let both : true ≡ false = sym (trail-visited d visited k to rest t) ∙ k.sound.goal rest t in
      cc

  -- The search with this much fuel finds the answer.
  abbrev Answers : ℕ → Type 0
  Answers fuel =
      (d : ℕ) (nears fars : List PathNode) (visited : List ℕ)
      → IsLevel es direct skip from to d nears fars visited
      → length (nears ++ fars) + unseen visited (ends es) < fuel
      → IsAnswer (search es direct to fuel visited (nears ++ fars))

  search_round :
      (fuel d : ℕ) (cur : PathNode) (nears fars : List PathNode) (visited : List ℕ)
      → Answers fuel
      → IsLevel es direct skip from to d (cur ∷ nears) fars visited
      → length (nears ++ fars) + unseen visited (ends es) < fuel
      → IsAnswer (search es direct to (suc fuel) visited (cur ∷ (nears ++ fars)))
  unfolding search
  search_round fuel d cur nears fars visited ih k h =
      go (scan to cur (neighbors es direct (rid_of cur)) visited (nears ++ fars)) refl
        (scan-IsGood es direct skip from to d cur nears fars visited _
          (pop-IsScanning d cur nears fars visited k))
        (scan-IsSpent to cur (neighbors es direct (rid_of cur)) visited (ends es) (nears ++ fars) _
          (neighbors-ends es direct (rid_of cur)) (omega arith))
    where
      go :
          (s : Scan)
          → scan to cur (neighbors es direct (rid_of cur)) visited (nears ++ fars) ≡ s
          → IsGood es direct skip from to d cur nears s
          → IsSpent (ends es) (length (nears ++ fars) + unseen visited (ends es)) s
          → IsAnswer (search es direct to (suc fuel) visited (cur ∷ (nears ++ fars)))
      go (found n) e good spent = rw (e, search) good
      go (scanned visited' queue) e (fars', q, level) spent =
          rw (e, search, q)
            (ih d nears fars' visited' level
              (omega (arith, ap (λ (x : List PathNode). length x) q)))

  search-IsAnswer : (fuel : ℕ) → Answers fuel
  unfolding search
  search-IsAnswer zero d nears fars visited k h = absurd (omega arith)
  search-IsAnswer (suc fuel) d [] [] visited k h = search-empty d visited k
  search-IsAnswer (suc fuel) d (cur ∷ nears) fars visited k h =
      search_round fuel d cur nears fars visited (search-IsAnswer fuel) k (omega arith)
  search-IsAnswer (suc fuel) d [] (cur ∷ fars) visited k h =
      let same = append-nil fars in
      subst (λ qs. IsAnswer (search es direct to (suc fuel) visited (cur ∷ qs))) same
        (search_round fuel (suc d) cur fars [] visited (search-IsAnswer fuel)
          (next-IsLevel es direct skip from to d (cur ∷ fars) visited k)
          (omega (arith, ap (λ (x : List PathNode). length x) same)))

  search_lem :
      from ≢ to → IsAnswer (search es direct to (search_fuel es) (from ∷ skip) (start from ∷ []))
  search_lem other =
      search-IsAnswer (search_fuel es) 0 (start from ∷ []) [] (from ∷ skip)
        (first-IsLevel es direct skip from to other) (omega (arith, unseen-ends (from ∷ skip) es))

  -- What `Shortest` promises: a route from `from` to `to` that no other is shorter than, with the nodes
  -- numbered from 0, or an error where there is no route.
  abbrev pub IsShortest : Result (List PathStep) → Type 0
  IsShortest (ok p) =
      IsRoute es direct skip from to (rids p)
      × (p ≡ number 0 (rids p))
      × ((q : List ℕ) → IsRoute es direct skip from to q → length p ≤ length q)
  IsShortest (err _) = (q : List ℕ) → IsRoute es direct skip from to q → ⊥
  IsShortest panicked = ⊥
  IsShortest stuck = ⊥

  -- A route is as long as some trail from its end.
  route-least :
      (n : PathNode) (q : List ℕ)
      → IsBest es direct skip from n
      → rid_of n ≡ to
      → IsRoute es direct skip from to q
      → length (chain n) ≤ length q
  route-least n [] b e r = absurd r
  route-least n (x ∷ xs) b e (start_is, c, end_is) =
      let (rest, t, l) = IsRoute-IsTrail es direct skip from x xs [] start_is c in
      let t' = subst⁻¹ (λ z. IsTrail es direct skip from (z ∷ rest)) (e ∙ sym end_is) t in
      omega (arith, b.deep, b.least rest t', l)

  chain-IsRoute :
      (n : PathNode)
      → IsTrail es direct skip from (chain n)
      → IsRoute es direct skip from (rid_of n) (reverse_onto (chain n) [])
  unfolding chain rid_of
  chain-IsRoute (start r) t = reverse_onto-IsRoute es direct skip from r [] [] t tt
  chain-IsRoute (node r f k) t = reverse_onto-IsRoute es direct skip from r (chain f) [] t tt

  no_route :
      ((rest : List ℕ) → IsTrail es direct skip from (to ∷ rest) → ⊥)
      → (q : List ℕ) → IsRoute es direct skip from to q
      → ⊥
  no_route h [] r = r
  no_route h (x ∷ xs) (start_is, c, end_is) =
      let (rest, t, _) = IsRoute-IsTrail es direct skip from x xs [] start_is c in
      h rest (subst (λ z. IsTrail es direct skip from (z ∷ rest)) end_is t)

  -- From a rid to itself.
  single-IsShortest : from ≡ to → IsShortest (ok (record { rid = from; depth = 0 } ∷ []))
  unfolding rids number
  single-IsShortest e = ((refl, tt, e), refl, nonempty)
    where
      nonempty : (q : List ℕ) → IsRoute es direct skip from to q → 1 ≤ length q
      nonempty [] r = absurd r
      nonempty (x ∷ xs) r = omega arith

  reconstructed-IsShortest : (r : Result PathNode) → IsAnswer r → IsShortest (reconstructed r)
  unfolding reconstructed reconstruct
  reconstructed-IsShortest (ok n) (b, e) =
      let p = reverse_onto (chain n) [] in
      let same = rids-number 0 p in
      (
        subst⁻¹ (IsRoute es direct skip from to) same
            (subst (λ z. IsRoute es direct skip from z p) e (chain-IsRoute n b.leads)),
        ap (number 0) (sym same),
        λ q r.
            omega
              (arith, length-number 0 p, length-reverse_onto (chain n) [], route-least n q b e r),
      )
  reconstructed-IsShortest (err _) none_leads = no_route none_leads
  reconstructed-IsShortest panicked h = h
  reconstructed-IsShortest stuck h = h

-- `Shortest` returns for any two positive rids: either the nodes of a route, which leads from the
-- one to the other along edges and past no rid that is skipped, and than which no other route is
-- shorter; or an error, and then there is no route. It neither panics nor runs forever.
pub shortest-IsShortest :
    (es : List Edge) (direct : Bool) (skip : List ℕ) (from to : ℕ)
    → 0 < from
    → 0 < to
    → IsShortest es direct skip from to (shortest es from to direct skip)
unfolding shortest
shortest-IsShortest es direct skip from to hf ht =
    let f0 : (from == 0) ≡ false = ground arith in
    let t0 : (to == 0) ≡ false = ground arith in
    elim (Bool-cases (from == to)) [
      | inl same ↦ rw (f0, t0, same) (single-IsShortest es direct skip from to (ground arith))
      | inr other ↦
          rw (f0, t0, other)
            (reconstructed-IsShortest es direct skip from to _
              (search_lem es direct skip from to (ground arith)))
    ]
