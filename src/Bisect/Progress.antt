-- ===== src/Bisect/Progress.antt =====
-- internal/bisect/bisect.go over internal/path/path.go: every answer shortens the path.
use libfossil.Base.{
  ℕ, suc, ◌+◌, ◌/◌, ◌^◌, ◌≤◌, ◌<◌, ◌≡◌, ◌⊎◌, inl, inr, ap, ◌∙◌, subst, arith, true, some, List, [],
  length, get_elem?, ok, ◌>>=◌, >>=-ok,
}
use libfossil.Base.Int.{ℤ, pos}
use libfossil.Path.{Edge, PathStep}
use libfossil.Path.Routes.{IsRoute, rids}
use libfossil.Bisect.{
  Session, Result, mark_good, mark_bad, load_endpoints, path_between, parse_skip_set, next_on, next,
}
use libfossil.Bisect.Midpoint.{Picks, next_on-Picks, next_on-middle}
use libfossil.Bisect.Between.{
  path_between-found, path_between-IsRoute, length-rids, get_elem-rids, IsRoute-splits,
  positive_ends,
}
use libfossil.Bisect.Ends.{
  AreEnds, load_endpoints-AreEnds, AreEnds-load_endpoints, mark_good-AreEnds, mark_bad-AreEnds,
}

-- The path that is left, between the two ends of a session.
unfoldable pub remaining : List Edge → Session → Result (List PathStep)
remaining es s = do (g, b) ← load_endpoints s; path_between es g b

-- A shorter path is left.
abbrev pub IsShorter : List Edge → Session → Session → Type 0
IsShorter es s s' =
    (p : List PathStep) × (p' : List PathStep) × (remaining es s ≡ ok p)
    × (remaining es s' ≡ ok p')
    × (length p' < length p)

-- At most half of the path is left, and one node.
abbrev pub IsHalved : List Edge → Session → Session → Type 0
IsHalved es s s' =
    (p : List PathStep) × (p' : List PathStep) × (remaining es s ≡ ok p)
    × (remaining es s' ≡ ok p')
    × (length p' ≤ suc (length p / 2))

remaining-found :
    (es : List Edge) (s : Session) (g b : ℕ) (q : List ℕ)
    → AreEnds s (pos g) (pos b)
    → 0 < g
    → 0 < b
    → IsRoute es true [] g b q
    → (p : List PathStep) × (remaining es s ≡ ok p) × (length p ≤ length q)
unfolding remaining
remaining-found es s g b q e hg hb r =
    let (p, f, l) = path_between-found es g b q hg hb r in
    (p, rw (AreEnds-load_endpoints s (pos g) (pos b) e) f, l)

-- The path with the rid at a place strictly inside of it.
record IsInside (es : List Edge) (s : Session) (r i : ℕ) (p : List PathStep) : Type 0 where
  left : remaining es s ≡ ok p
  there : get_elem? (rids p) i ≡ some r
  above : 0 < i
  below : suc i < length p

-- The ends of a path that is left.
left-AreEnds :
    (es : List Edge) (s : Session) (p : List PathStep)
    → remaining es s ≡ ok p
    → (m : ℕ) × (n : ℕ) × AreEnds s (pos (suc m)) (pos (suc n))
      × IsRoute es true [] (suc m) (suc n) (rids p)
unfolding remaining
left-AreEnds es s p h = let ((g, b), e, k) = >>=-ok (load_endpoints s) _ p h in at_ends g b e k
  where
    at_ends :
        (g b : ℤ)
        → load_endpoints s ≡ ok (g, b)
        → path_between es g b ≡ ok p
        → (m : ℕ) × (n : ℕ) × AreEnds s (pos (suc m)) (pos (suc n))
          × IsRoute es true [] (suc m) (suc n) (rids p)
    at_ends g b e k =
        let (m, n, eg, eb) = positive_ends es g b p k in
        (
          m,
          n,
          load_endpoints-AreEnds s _ _ (rw (eg, eb) at e),
          path_between-IsRoute es (suc m) (suc n) p (omega arith) (omega arith) (rw (eg, eb) at k),
        )

-- An answer leaves the part of the path behind the place, or the part up to it.
answer-leaves :
    (es : List Edge) (s s' : Session) (r i : ℕ) (p : List PathStep)
    → IsInside es s r i p
    → r < 2 ^ 63
    → (mark_good s r ≡ ok s') ⊎ (mark_bad s r ≡ ok s')
    → (p' : List PathStep) × (remaining es s' ≡ ok p')
      × ((length p' + i ≤ length p) ⊎ (length p' ≤ suc i))
answer-leaves es s s' r i p inside f answer =
    let (m, n, ends, route) = left-AreEnds es s p inside.left in
    let l = length-rids p in
    let ((q, rq, lq), (q', rq', lq')) =
      IsRoute-splits es (suc m) (suc n) r i (rids p) route inside.there in
    by_answer m n q q' ends rq rq' (omega arith) lq' answer
  where
    by_answer :
        (m n : ℕ) (q q' : List ℕ)
        → AreEnds s (pos (suc m)) (pos (suc n))
        → IsRoute es true [] r (suc n) q
        → IsRoute es true [] (suc m) r q'
        → length q + i ≡ length p
        → length q' ≡ suc i
        → (mark_good s r ≡ ok s') ⊎ (mark_bad s r ≡ ok s')
        → (p' : List PathStep) × (remaining es s' ≡ ok p')
          × ((length p' + i ≤ length p) ⊎ (length p' ≤ suc i))
    by_answer m n q q' ends rq rq' lq lq' (inl good) =
        let (hr, a) = mark_good-AreEnds s s' r _ _ f good ends in
        let (p', after, l) = remaining-found es s' r (suc n) q a hr (omega arith) rq in
        (p', after, inl (omega arith))
    by_answer m n q q' ends rq rq' lq lq' (inr bad) =
        let (hr, a) = mark_bad-AreEnds s s' r _ _ f bad ends in
        let (p', after, l) = remaining-found es s' (suc m) r q' a (omega arith) hr rq' in
        (p', after, inr (omega arith))

-- What `next` ran through.
pub next-parts :
    (es : List Edge) (s : Session) (r : ℕ)
    → next es s ≡ ok r
    → (b : ℤ) × (p : List PathStep) × (remaining es s ≡ ok p)
      × (next_on b p (parse_skip_set s) ≡ ok r)
unfolding next remaining
next-parts es s r h =
    let ((g, b), e, k) = >>=-ok (load_endpoints s) _ r h in
    let (p, f, o) = >>=-ok (path_between es g b) _ r k in (b, p, rw e f, o)

-- Whatever the answer to the test of the rid that `Next` gives, an int64, the path between the
-- good and the bad end becomes shorter: there is one before, there is one after, and it has fewer
-- nodes.
pub next-IsShorter :
    (es : List Edge) (s s' : Session) (r : ℕ)
    → next es s ≡ ok r
    → r < 2 ^ 63
    → (mark_good s r ≡ ok s') ⊎ (mark_bad s r ≡ ok s')
    → IsShorter es s s'
next-IsShorter es s s' r h f answer =
    let (b, p, left, o) = next-parts es s r h in
    let skips = parse_skip_set s in
    let (i, step, c, same) = subst (Picks b p skips) o (next_on-Picks b p skips) in
    let above = c.above in
    let below = c.below in
    let (p', left', least) =
      answer-leaves es s s' r i p
        (record {
          left = left;
          there = get_elem-rids p i step c.there ∙ ap some same;
          above = above;
          below = below;
        })
        f answer in
    (p, p', left, left', smaller i (length p') (length p) above below least)
  where
    smaller : (i k n : ℕ) → 0 < i → suc i < n → (k + i ≤ n) ⊎ (k ≤ suc i) → k < n
    smaller i k n a b (inl h) = omega arith
    smaller i k n a b (inr h) = omega arith

-- Where the log skips no rid, `Next` gives the one in the middle: whatever the answer to its test,
-- an int64, the path that is left between the ends has at most half of the nodes, and one.
pub next-IsHalved :
    (es : List Edge) (s s' : Session) (r : ℕ)
    → next es s ≡ ok r
    → parse_skip_set s ≡ []
    → r < 2 ^ 63
    → (mark_good s r ≡ ok s') ⊎ (mark_bad s r ≡ ok s')
    → IsHalved es s s'
next-IsHalved es s s' r h none_skipped f answer =
    let (b, p, left, o) = next-parts es s r h in
    let (step, there, same, long) = next_on-middle b p r (rw none_skipped at o) in
    let (p', left', least) =
      answer-leaves es s s' r (length p / 2) p
        (record {
          left = left;
          there = get_elem-rids p (length p / 2) step there ∙ ap some same;
          above = omega arith;
          below = omega arith;
        })
        f answer in
    (p, p', left, left', half (length p') (length p) least)
  where
    half : (k n : ℕ) → (k + n / 2 ≤ n) ⊎ (k ≤ suc (n / 2)) → k ≤ suc (n / 2)
    half k n (inl h) = omega arith
    half k n (inr h) = h
