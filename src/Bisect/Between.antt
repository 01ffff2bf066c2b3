-- ===== src/Bisect/Between.antt =====
-- internal/bisect/bisect.go: paths between two rids, and what is left of one at a rid on it.
use libfossil.Base.{
  ℕ, zero, suc, ◌+◌, ◌≤◌, ◌<◌, ◌≡◌, refl, ap, sym, ◌∙◌, subst, arith, true, some, List, [], ◌∷◌,
  length, get_elem?, Outcome, ok, err, panicked, stuck, suc-==-zero,
}
use libfossil.Base.Int.{ℤ, pos, negsuc}
use libfossil.Path.{Edge, PathStep, shortest}
use libfossil.Path.Routes.{Continues, last_of, IsRoute, rids}
use libfossil.Path.Shortest.{IsShortest, shortest-IsShortest}
use libfossil.Bisect.{found_path, path_between}

module _ (es : List Edge) where
  -- The rest of a route, from a rid on it.
  route_behind :
      (x : ℕ) (xs : List ℕ) (k r : ℕ)
      → Continues es true [] x xs
      → get_elem? (x ∷ xs) k ≡ some r
      → (ys : List ℕ) × Continues es true [] r ys
        × (last_of r ys ≡ last_of x xs)
        × (length ys + k ≡ length xs)
  route_behind x xs zero r c h =
      let same : x ≡ r = cc in
      subst
        (λ z.
          (ys : List ℕ) × Continues es true [] z ys
          × (last_of z ys ≡ last_of x xs)
          × (length ys + 0 ≡ length xs))
        same (xs, c, refl, omega arith)
  route_behind x [] (suc k) r c h = absurd (cc)
  route_behind x (y ∷ xs) (suc k) r (s, c) h =
      let (ys, c', l, n) = route_behind y xs k r c h in (ys, c', l, omega arith)

  -- The part of a route up to a rid on it.
  route_before :
      (x : ℕ) (xs : List ℕ) (k r : ℕ)
      → Continues es true [] x xs
      → get_elem? (x ∷ xs) k ≡ some r
      → (ys : List ℕ) × Continues es true [] x ys × (last_of x ys ≡ r) × (length ys ≡ k)
  route_before x xs zero r c h = ([], tt, cc, refl)
  route_before x [] (suc k) r c h = absurd (cc)
  route_before x (y ∷ xs) (suc k) r (s, c) h =
      let (ys, c', l, n) = route_before y xs k r c h in (y ∷ ys, (s, c'), l, omega arith)

  -- Where there is a route, a path is found that is no longer.
  pub path_between-found :
      (g b : ℕ) (q : List ℕ)
      → 0 < g
      → 0 < b
      → IsRoute es true [] g b q
      → (p : List PathStep) × (path_between es (pos g) (pos b) ≡ ok p) × (length p ≤ length q)
  unfolding path_between found_path
  path_between-found g b q hg hb r =
      result (shortest es g b true []) (shortest-IsShortest es true [] g b hg hb)
    where
      result :
          (o : Outcome libfossil.Path.Error (List PathStep))
          → IsShortest es true [] g b o
          → (p : List PathStep) × (found_path o ≡ ok p) × (length p ≤ length q)
      result (ok p) (_, _, least) = (p, refl, least q r)
      result (err _) none_leads = absurd (none_leads q r)
      result panicked h = absurd h
      result stuck h = absurd h

  pub path_between-IsRoute :
      (g b : ℕ) (p : List PathStep)
      → 0 < g
      → 0 < b
      → path_between es (pos g) (pos b) ≡ ok p
      → IsRoute es true [] g b (rids p)
  unfolding path_between found_path
  path_between-IsRoute g b p hg hb h =
      result (shortest es g b true []) (shortest-IsShortest es true [] g b hg hb) h
    where
      result :
          (o : Outcome libfossil.Path.Error (List PathStep))
          → IsShortest es true [] g b o
          → found_path o ≡ ok p
          → IsRoute es true [] g b (rids p)
      result (ok p') (r, _, _) h =
          let same : p' ≡ p = cc in subst (λ z. IsRoute es true [] g b (rids z)) same r
      result (err _) k h = absurd (cc)
      result panicked k h = absurd k
      result stuck k h = absurd k

  pub path_between-least :
      (g b : ℕ) (p : List PathStep) (q : List ℕ)
      → 0 < g
      → 0 < b
      → path_between es (pos g) (pos b) ≡ ok p
      → IsRoute es true [] g b q
      → length p ≤ length q
  path_between-least g b p q hg hb h r =
      let (p', e, l) = path_between-found g b q hg hb r in
      let same : ok p' ≡ ok p = sym e ∙ h in
      let equal : p' ≡ p = cc in subst (λ z. length z ≤ length q) equal l

pub length-rids : (p : List PathStep) → length (rids p) ≡ length p
unfolding rids
length-rids [] = refl
length-rids (s ∷ ss) = ap suc (length-rids ss)

pub get_elem-rids :
    (p : List PathStep) (i : ℕ) (step : PathStep)
    → get_elem? p i ≡ some step
    → get_elem? (rids p) i ≡ some step.rid
unfolding rids
get_elem-rids [] i step h = absurd (cc)
get_elem-rids (s ∷ ss) zero step h =
    let same : s ≡ step = cc in ap (λ (z : PathStep). some z.rid) same
get_elem-rids (s ∷ ss) (suc i) step h = get_elem-rids ss i step h

-- A rid on a route splits it into two.
pub IsRoute-splits :
    (es : List Edge) (g b r i : ℕ) (rs : List ℕ)
    → IsRoute es true [] g b rs
    → get_elem? rs i ≡ some r
    → ((q : List ℕ) × IsRoute es true [] r b q × (length q + i ≡ length rs))
      × ((q : List ℕ) × IsRoute es true [] g r q × (length q ≡ suc i))
IsRoute-splits es g b r i [] route h = absurd route
IsRoute-splits es g b r i (x ∷ xs) (e, c, l) h =
    let (ys, c1, l1, n1) = route_behind es x xs i r c h in
    let (zs, c2, l2, n2) = route_before es x xs i r c h in
    ((r ∷ ys, (refl, c1, l1 ∙ l), omega arith), (x ∷ zs, (e, c2, l2), omega arith))

-- The ends of a path are positive.
pub positive_ends :
    (es : List Edge) (g b : ℤ) (p : List PathStep)
    → path_between es g b ≡ ok p
    → (m : ℕ) × (n : ℕ) × (g ≡ pos (suc m)) × (b ≡ pos (suc n))
unfolding path_between found_path shortest
positive_ends es (pos (suc m)) (pos (suc n)) p h = (m, n, refl, refl)
positive_ends es (pos zero) (pos b) p h = absurd (cc)
positive_ends es (pos (suc m)) (pos zero) p h = absurd (let h' = rw (suc-==-zero m) at h in cc)
positive_ends es (negsuc m) b p h = absurd (cc)
positive_ends es (pos (suc m)) (negsuc n) p h = absurd (cc)
positive_ends es (pos zero) (negsuc n) p h = absurd (cc)
