-- ===== src/Bisect/Report/Labels.antt =====
-- internal/bisect/bisect.go, `List`: where the labels GOOD and BAD stand.
use libfossil.Base.{
  ℕ, suc, ◌<◌, ◌≡◌, ◌≢◌, ap, ◌∙◌, subst, arith, true, false, some, List, [], ◌∷◌, ◌==◌, Bytes,
  length, get_elem?, if◌then◌else◌, Bool, ok,
}
use libfossil.Base.Int.{ℤ, pos}
use libfossil.Path.{Edge, PathStep}
use libfossil.Path.Routes.{rids}
use libfossil.Bisect.{Session, load_endpoints, parse_skip_set, path_between, is_id, is_skipped}
use libfossil.Bisect.Report.{
  ListEntry, Tables, good_label, bad_label, current_label, next_label, skip_label, label_of,
  entry_of, list,
}
use libfossil.Bisect.Report.Placed.{IsPlaced, path_between-IsPlaced}
use libfossil.Bisect.Report.Listed.{
  list-IsListed, get_elem-entries_of, length-entries_of, rids_of, rids-entries_of,
}

-- The entry at a place of the list, with the rids of the two ends and the number of entries.
pub record IsLabelled (g b n i : ℕ) (e : ListEntry) : Type 0 where
  pub good_first : i ≡ 0 → (e.rid ≡ g) × (e.label ≡ good_label)
  pub bad_last : 0 < i → suc i ≡ n → (e.rid ≡ b) × (e.label ≡ bad_label)
  pub inner : 0 < i → suc i < n → (e.label ≢ good_label) × (e.label ≢ bad_label)

label_of-good :
    (g r : ℕ) (bad cur : ℤ) (next : ℕ) (skips : List ℤ)
    → r ≡ g
    → label_of (pos g) bad cur next skips r ≡ good_label
unfolding label_of is_id
label_of-good g r bad cur next skips h = ground arith

label_of-bad :
    (g b r : ℕ) (cur : ℤ) (next : ℕ) (skips : List ℤ)
    → r ≢ g
    → r ≡ b
    → label_of (pos g) (pos b) cur next skips r ≡ bad_label
unfolding label_of is_id
label_of-bad g b r cur next skips n h = ground arith

pub inner_label :
    (g b r : ℕ) (cur : ℤ) (next : ℕ) (skips : List ℤ)
    → r ≢ g
    → r ≢ b
    → label_of (pos g) (pos b) cur next skips r ≡ (
        if is_id cur r
        then current_label
        else if r == next
        then next_label
        else if is_skipped skips r
        then skip_label
        else [])
unfolding label_of is_id
inner_label g b r cur next skips n m = ground arith

-- The labels differ in their first letters.
abbrev pub initial : Bytes → ℕ
initial [] = 0
initial (c ∷ cs) = c

abbrev neither : (a b c : Bool) → Bytes
neither a b c = if a then current_label else if b then next_label else if c then skip_label else []

neither-ne : (a b c : Bool) → (neither a b c ≢ good_label) × (neither a b c ≢ bad_label)
neither-ne true b c = (λ h. omega (arith, ap initial h), λ h. omega (arith, ap initial h))
neither-ne false true c = (λ h. omega (arith, ap initial h), λ h. omega (arith, ap initial h))
neither-ne false false true = (λ h. omega (arith, ap initial h), λ h. omega (arith, ap initial h))
neither-ne false false false = (λ h. omega (arith, ap initial h), λ h. omega (arith, ap initial h))

entry-IsLabelled :
    {Time : Type 0} (date_of : Time → Bytes) (t : Tables Time) (g b n i next : ℕ) (cur : ℤ)
    (skips : List ℤ) (step : PathStep)
    → IsPlaced g b n i step.rid
    → IsLabelled g b n i (entry_of date_of t (label_of (pos g) (pos b) cur next skips) step)
unfolding entry_of
entry-IsLabelled date_of t g b n i next cur skips step at = record {
  good_first = λ e. (at.first e, label_of-good g step.rid (pos b) cur next skips (at.first e));
  bad_last = λ h e. (
    at.last e,
    label_of-bad g b step.rid cur next skips
        (λ same. let z = at.not_first same in absurd (omega arith)) (at.last e),
  );
  inner = λ h k.
      rw
        (inner_label g b step.rid cur next skips
          (λ same. let z = at.not_first same in absurd (omega arith))
          (λ same. let z = at.not_last same in absurd (omega arith)))
        (neither-ne (is_id cur step.rid) (step.rid == next) (is_skipped skips step.rid));
}

-- The rids of a list's entries are those of the path between the two ends, in its order. The first
-- entry is that of the good end and is labelled GOOD, the last, if it is another, is that of the
-- bad end and is labelled BAD, and none between them has either label.
pub list-IsLabelled :
    {Time : Type 0} (date_of : Time → Bytes) (t : Tables Time) (es : List Edge) (s : Session)
    (cur : ℤ) (out : List ListEntry)
    → list date_of t es s cur ≡ ok out
    → (g : ℕ) × (b : ℕ) × (p : List PathStep) × (load_endpoints s ≡ ok (pos g, pos b))
      × (path_between es (pos g) (pos b) ≡ ok p)
      × (rids_of out ≡ rids p)
      × (length out ≡ length p)
      × ((i : ℕ) (e : ListEntry) → get_elem? out i ≡ some e → IsLabelled g b (length p) i e)
list-IsLabelled date_of t es s cur out h =
    let (g, b, next, p, l) = list-IsListed date_of t es s cur out h in
    let label = label_of (pos g) (pos b) cur next (parse_skip_set s) in
    (
      g,
      b,
      p,
      l.ends,
      l.path,
      ap rids_of l.written ∙ rids-entries_of date_of t label p,
      ap length l.written ∙ length-entries_of date_of t label p,
      λ i e there.
          let (step, at, same) =
            get_elem-entries_of date_of t label p i e
              (subst (λ o. get_elem? o i ≡ some e) l.written there) in
          subst (IsLabelled g b (length p) i) same (
            entry-IsLabelled date_of t g b (length p) i next cur (parse_skip_set s) step
              (path_between-IsPlaced es g b p i step l.good_pos l.bad_pos l.path at)),
    )
