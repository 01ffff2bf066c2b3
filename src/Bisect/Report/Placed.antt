-- ===== src/Bisect/Report/Placed.antt =====
-- internal/bisect/bisect.go: where the two ends stand on the path between them.
use libfossil.Base.{
  ℕ, zero, suc, ◌+◌, ◌≤◌, ◌<◌, ◌≡◌, sym, ◌∙◌, subst, arith, true, some, List, [], ◌∷◌, length,
  get_elem?, ok,
}
use libfossil.Base.Int.{pos}
use libfossil.Path.{Edge, PathStep}
use libfossil.Path.Routes.{IsRoute, last_of, rids}
use libfossil.Bisect.{path_between}
use libfossil.Bisect.Midpoint.{get_elem-some}
use libfossil.Bisect.Between.{
  path_between-IsRoute, path_between-least, length-rids, get_elem-rids, IsRoute-splits,
}

-- The rids at the two ends of a route.
first_of_route :
    (es : List Edge) (g b r : ℕ) (rs : List ℕ)
    → IsRoute es true [] g b rs
    → get_elem? rs 0 ≡ some r
    → r ≡ g
first_of_route es g b r [] route h = absurd route
first_of_route es g b r (x ∷ xs) (e, _, _) h = cc

last_elem :
    (x : ℕ) (xs : List ℕ) (i r : ℕ)
    → get_elem? (x ∷ xs) i ≡ some r
    → suc i ≡ length (x ∷ xs)
    → r ≡ last_of x xs
last_elem x [] zero r h e = cc
last_elem x [] (suc i) r h e = absurd (cc)
last_elem x (y ∷ xs) zero r h e = absurd (omega arith)
last_elem x (y ∷ xs) (suc i) r h e = last_elem y xs i r h (omega arith)

last_of_route :
    (es : List Edge) (g b r i : ℕ) (rs : List ℕ)
    → IsRoute es true [] g b rs
    → get_elem? rs i ≡ some r
    → suc i ≡ length rs
    → r ≡ b
last_of_route es g b r i [] route h e = absurd route
last_of_route es g b r i (x ∷ xs) (_, _, l) h e = last_elem x xs i r h e ∙ l

-- On a path between two rids the good one stands at its first place only, the bad one at its last.
pub record IsPlaced (g b n i r : ℕ) : Type 0 where
  pub first : i ≡ 0 → r ≡ g
  pub last : suc i ≡ n → r ≡ b
  pub not_first : r ≡ g → i ≡ 0
  pub not_last : r ≡ b → suc i ≡ n

pub path_between-IsPlaced :
    (es : List Edge) (g b : ℕ) (p : List PathStep) (i : ℕ) (step : PathStep)
    → 0 < g
    → 0 < b
    → path_between es (pos g) (pos b) ≡ ok p
    → get_elem? p i ≡ some step
    → IsPlaced g b (length p) i step.rid
path_between-IsPlaced es g b p i step hg hb h there =
    let route = path_between-IsRoute es g b p hg hb h in
    let at = get_elem-rids p i step there in
    let l = length-rids p in
    let ((q, rq, lq), (q', rq', lq')) = IsRoute-splits es g b step.rid i (rids p) route at in
    record {
      first = λ e.
          first_of_route es g b step.rid (rids p) route
            (subst (λ k. get_elem? (rids p) k ≡ some step.rid) e at);
      last = λ e. last_of_route es g b step.rid i (rids p) route at (e ∙ sym l);
      not_first = λ e.
          from_good q lq
            (path_between-least es g b p q hg hb h (subst (λ k. IsRoute es true [] k b q) e rq)) l;
      not_last = λ e.
          to_bad q' lq'
            (path_between-least es g b p q' hg hb h (subst (λ k. IsRoute es true [] g k q') e rq'))
            (inside p i there);
    }
  where
    from_good :
        (q : List ℕ)
        → length q + i ≡ length (rids p)
        → length p ≤ length q
        → length (rids p) ≡ length p
        → i ≡ 0
    from_good q a b c = omega arith

    to_bad : (q : List ℕ) → length q ≡ suc i → length p ≤ length q → i < length p → suc i ≡ length p
    to_bad q a b c = omega arith

    inside : (xs : List PathStep) (k : ℕ) → get_elem? xs k ≡ some step → k < length xs
    inside xs k e = get_elem-some xs k step e
