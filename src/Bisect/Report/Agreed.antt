-- ===== src/Bisect/Report/Agreed.antt =====
-- internal/bisect/bisect.go: what `List` labels NEXT, and what `Next` gives.
use libfossil.Base.{
  ℕ, zero, suc, ◌/◌, ◌<◌, ◌≡◌, refl, ap, ◌∙◌, arith, Bool, some, List, [], ◌∷◌, ◌==◌, if◌then◌else◌,
  Bytes, length, get_elem?, ok, ◌>>=◌, >>=-ok,
}
use libfossil.Base.Int.{ℤ, pos}
use libfossil.Path.{Edge, PathStep}
use libfossil.Bisect.{
  Session, load_endpoints, parse_skip_set, path_between, is_id, is_skipped, next_on, next,
}
use libfossil.Bisect.Midpoint.{next_on-middle}
use libfossil.Bisect.Between.{positive_ends}
use libfossil.Bisect.Report.{
  ListEntry, Tables, current_label, next_label, skip_label, label_of, entry_of, entries_of, list,
  next_rid, rid_at, path_avoiding, skipped_rids,
}
use libfossil.Bisect.Report.Placed.{path_between-IsPlaced}
use libfossil.Bisect.Report.Labels.{inner_label}

-- What `next` ran through.
pub record IsRun (es : List Edge) (s : Session) (r g b : ℕ) (p : List PathStep) : Type 0 where
  pub ends : load_endpoints s ≡ ok (pos g, pos b)
  pub path : path_between es (pos g) (pos b) ≡ ok p
  pub chosen : next_on (pos b) p (parse_skip_set s) ≡ ok r
  pub good_pos : 0 < g
  pub bad_pos : 0 < b

pub next-IsRun :
    (es : List Edge) (s : Session) (r : ℕ)
    → next es s ≡ ok r
    → (g : ℕ) × (b : ℕ) × (p : List PathStep) × IsRun es s r g b p
unfolding next
next-IsRun es s r h =
    let ((g, b), e, k) = >>=-ok (load_endpoints s) _ r h in
    let (p, f, o) = >>=-ok (path_between es g b) _ r k in at_ends g b p e f o
  where
    at_ends :
        (g b : ℤ) (p : List PathStep)
        → load_endpoints s ≡ ok (g, b)
        → path_between es g b ≡ ok p
        → next_on b p (parse_skip_set s) ≡ ok r
        → (g : ℕ) × (b : ℕ) × (p : List PathStep) × IsRun es s r g b p
    at_ends g b p e f o =
        let (x, y, eg, eb) = positive_ends es g b p f in
        (
          suc x,
          suc y,
          p,
          record {
            ends = rw (eg, eb) at e;
            path = rw (eg, eb) at f;
            chosen = rw eb at o;
            good_pos = omega arith;
            bad_pos = omega arith;
          },
        )

entries_of-get_elem :
    {Time : Type 0} (date_of : Time → Bytes) (t : Tables Time) (label : ℕ → Bytes)
    (p : List PathStep) (i : ℕ) (step : PathStep)
    → get_elem? p i ≡ some step
    → get_elem? (entries_of date_of t label p) i ≡ some (entry_of date_of t label step)
unfolding entries_of
entries_of-get_elem date_of t label [] i step h = absurd (cc)
entries_of-get_elem date_of t label (x ∷ p) zero step h =
    let same : x ≡ step = cc in ap (λ z. some (entry_of date_of t label z)) same
entries_of-get_elem date_of t label (x ∷ p) (suc i) step h =
    entries_of-get_elem date_of t label p i step h

pub path_avoiding-none :
    (es : List Edge) (g b : ℕ)
    → path_avoiding es [] (pos g) (pos b) ≡ path_between es (pos g) (pos b)
unfolding path_avoiding path_between skipped_rids
path_avoiding-none es g b = refl

rid_at-some :
    (p : List PathStep) (i : ℕ) (step : PathStep)
    → get_elem? p i ≡ some step
    → rid_at p i ≡ ok step.rid
unfolding rid_at
rid_at-some p i step e = rw (e, rid_at) refl

next_rid-middle :
    (p : List PathStep) (step : PathStep)
    → get_elem? p (length p / 2) ≡ some step
    → 2 < length p
    → next_rid (ok p) ≡ ok step.rid
unfolding next_rid
next_rid-middle p step e h = ground (arith, rid_at-some p (length p / 2) step e)

chosen_label :
    (cur : Bool) (r : ℕ) (other : Bytes)
    → (if cur then current_label else if r == r then next_label else other)
      ≡ (if cur then current_label else next_label)
chosen_label cur r other = ground arith

-- Where the log skips no rid, `List` returns, and it has an entry for the rid that `Next` gives: it
-- is labelled NEXT, or CURRENT if this is the check-in that is checked out.
pub list-next :
    {Time : Type 0} (date_of : Time → Bytes) (t : Tables Time) (es : List Edge) (s : Session)
    (cur : ℤ) (r : ℕ)
    → next es s ≡ ok r
    → parse_skip_set s ≡ []
    → (out : List ListEntry) × (i : ℕ) × (e : ListEntry) × (list date_of t es s cur ≡ ok out)
      × (get_elem? out i ≡ some e)
      × (e.rid ≡ r)
      × (e.label ≡ (if is_id cur r then current_label else next_label))
unfolding list entry_of
list-next date_of t es s cur r h none_skipped =
    let (g, b, p, run) = next-IsRun es s r h in
    let (step, there, same, long) = next_on-middle (pos b) p r (rw none_skipped at (run.chosen)) in
    let label = label_of (pos g) (pos b) cur r [] in
    let at =
      path_between-IsPlaced es g b p (length p / 2) step run.good_pos run.bad_pos run.path there in
    let middle = next_rid-middle p step there long in
    (
      entries_of date_of t label p,
      length p / 2,
      entry_of date_of t label step,
      rw
          (
            run.ends,
            ◌>>=◌,
            run.path,
            none_skipped,
            path_avoiding-none es g b,
            run.path,
            middle,
            same,
          )
          refl,
      entries_of-get_elem date_of t label p (length p / 2) step there,
      same,
      ap label same
          ∙ inner_label g b r cur r []
              (λ z. let y = at.not_first (same ∙ z) in absurd (omega arith))
              (λ z. let y = at.not_last (same ∙ z) in absurd (omega arith))
          ∙ chosen_label (is_id cur r) r (if is_skipped [] r then skip_label else []),
    )
