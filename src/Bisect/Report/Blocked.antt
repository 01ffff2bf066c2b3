-- ===== src/Bisect/Report/Blocked.antt =====
-- internal/bisect/bisect.go: `List` where every path passes a skipped rid.
use libfossil.Base.{
  ℕ, zero, suc, ◌<◌, ◌≡◌, ◌≢◌, refl, sym, ap, ◌∙◌, subst, arith, Bool, true, false, some, List, [],
  ◌==◌, if◌then◌else◌, Bytes, get_elem?, ok, err, panicked, stuck, Outcome, suc-==-zero, ◌>>=◌,
}
use libfossil.Base.Int.{ℤ, pos}
use libfossil.Path.{Edge, PathStep, shortest}
use libfossil.Path.Routes.{IsRoute, rids}
use libfossil.Path.Shortest.{IsShortest, shortest-IsShortest}
use libfossil.Bisect.{
  Session, Result, load_endpoints, parse_skip_set, found_path, is_id, is_skipped, next,
}
use libfossil.Bisect.Report.{
  ListEntry, Tables, good_label, bad_label, current_label, next_label, skip_label, label_of,
  entry_of, entries_of, list, next_rid, path_avoiding, skipped_rids,
}
use libfossil.Bisect.Report.Listed.{get_elem-entries_of}
use libfossil.Bisect.Report.Labels.{initial}
use libfossil.Bisect.Report.Agreed.{next-IsRun}

-- A search that finds no route is an error.
found_path-none :
    (es : List Edge) (skips : List ℤ) (g b : ℕ)
    → 0 < g
    → 0 < b
    → ((q : List ℕ) → IsRoute es true (skipped_rids skips) g b q → ⊥)
    → next_rid (path_avoiding es skips (pos g) (pos b)) ≡ ok 0
unfolding path_avoiding found_path next_rid
found_path-none es skips g b hg hb none_leads =
    result (shortest es g b true (skipped_rids skips))
      (shortest-IsShortest es true (skipped_rids skips) g b hg hb)
  where
    result :
        (o : Outcome libfossil.Path.Error (List PathStep))
        → IsShortest es true (skipped_rids skips) g b o
        → next_rid (found_path o) ≡ ok 0
    result (ok p) (route, _, _) = absurd (none_leads (rids p) route)
    result (err _) _ = refl
    result panicked h = absurd h
    result stuck h = absurd h

label_of-ne :
    (good bad cur : ℤ) (skips : List ℤ) (rid : ℕ)
    → 0 < rid
    → label_of good bad cur 0 skips rid ≢ next_label
unfolding label_of
label_of-ne good bad cur skips zero h = absurd (omega arith)
label_of-ne good bad cur skips (suc n) h =
    by_tests (is_id good (suc n)) (is_id bad (suc n)) (is_id cur (suc n)) (is_skipped skips (suc n))
  where
    by_tests :
        (a b c d : Bool)
        → (if a
            then good_label
            else if b
            then bad_label
            else if c
            then current_label
            else if suc n == 0
            then next_label
            else if d
            then skip_label
            else [])
          ≢ next_label
    by_tests true b c d = λ h. omega (arith, ap initial h)
    by_tests false true c d = λ h. omega (arith, ap initial h)
    by_tests false false true d = λ h. omega (arith, ap initial h)
    by_tests false false false true = λ h. omega (arith, ap initial (rw (suc-==-zero n) at h))
    by_tests false false false false = λ h. omega (arith, ap initial (rw (suc-==-zero n) at h))

-- Where `Next` gives a rid although every route between the ends passes a rid that the log skips,
-- `List` returns and labels no entry NEXT, but for a rid 0.
pub list-unlabelled :
    {Time : Type 0} (date_of : Time → Bytes) (t : Tables Time) (es : List Edge) (s : Session)
    (cur : ℤ) (r g b : ℕ)
    → next es s ≡ ok r
    → load_endpoints s ≡ ok (pos g, pos b)
    → ((q : List ℕ) → IsRoute es true (skipped_rids (parse_skip_set s)) g b q → ⊥)
    → (out : List ListEntry) × (list date_of t es s cur ≡ ok out)
      × ((i : ℕ) (e : ListEntry) → get_elem? out i ≡ some e → 0 < e.rid → e.label ≢ next_label)
unfolding list entry_of
list-unlabelled date_of t es s cur r g b h ends none_leads =
    let (g', b', p, run) = next-IsRun es s r h in
    let both : ◌≡◌ {A = Result (ℤ × ℤ)} (ok (pos g', pos b')) (ok (pos g, pos b)) =
      sym run.ends ∙ ends in
    let eg : g' ≡ g = cc in
    let eb : b' ≡ b = cc in
    let skips = parse_skip_set s in
    let middle =
      found_path-none es skips g b (rw eg at (run.good_pos)) (rw eb at (run.bad_pos)) none_leads in
    let label = label_of (pos g) (pos b) cur 0 skips in
    (
      entries_of date_of t label p,
      rw (ends, ◌>>=◌, rw (eg, eb) at (run.path), middle) refl,
      λ i e there above same.
          let (step, at, is) = get_elem-entries_of date_of t label p i e there in
          label_of-ne (pos g) (pos b) cur skips step.rid
            (subst (λ (z : ListEntry). 0 < z.rid) (sym is) above)
            (ap (λ (z : ListEntry). z.label) is ∙ same),
    )
