-- ===== src/Bisect/Report/Listed.antt =====
-- internal/bisect/bisect.go, `List`: its parts, and the entries of a path.
use libfossil.Base.{
  ℕ, zero, suc, ◌<◌, ◌≡◌, refl, ap, arith, some, List, [], ◌∷◌, Bytes, length, get_elem?, ok,
  >>=-ok,
}
use libfossil.Base.Int.{ℤ, pos}
use libfossil.Path.{Edge, PathStep}
use libfossil.Path.Routes.{rids}
use libfossil.Bisect.{Session, load_endpoints, parse_skip_set, path_between}
use libfossil.Bisect.Between.{positive_ends}
use libfossil.Bisect.Report.{
  ListEntry, Tables, label_of, entry_of, entries_of, list, next_rid, path_avoiding,
}

pub get_elem-entries_of :
    {Time : Type 0} (date_of : Time → Bytes) (t : Tables Time) (label : ℕ → Bytes)
    (p : List PathStep) (i : ℕ) (e : ListEntry)
    → get_elem? (entries_of date_of t label p) i ≡ some e
    → (step : PathStep) × (get_elem? p i ≡ some step) × (entry_of date_of t label step ≡ e)
unfolding entries_of
get_elem-entries_of date_of t label [] i e h = absurd (cc)
get_elem-entries_of date_of t label (step ∷ p) zero e h = (step, refl, cc)
get_elem-entries_of date_of t label (step ∷ p) (suc i) e h =
    get_elem-entries_of date_of t label p i e h

pub length-entries_of :
    {Time : Type 0} (date_of : Time → Bytes) (t : Tables Time) (label : ℕ → Bytes)
    (p : List PathStep)
    → length (entries_of date_of t label p) ≡ length p
unfolding entries_of
length-entries_of date_of t label [] = refl
length-entries_of date_of t label (step ∷ p) = ap suc (length-entries_of date_of t label p)

abbrev pub rids_of : List ListEntry → List ℕ
rids_of [] = []
rids_of (e ∷ es) = e.rid ∷ rids_of es

pub rids-entries_of :
    {Time : Type 0} (date_of : Time → Bytes) (t : Tables Time) (label : ℕ → Bytes)
    (p : List PathStep)
    → rids_of (entries_of date_of t label p) ≡ rids p
unfolding entries_of entry_of rids
rids-entries_of date_of t label [] = refl
rids-entries_of date_of t label (step ∷ p) = ap (◌∷◌ step.rid) (rids-entries_of date_of t label p)

-- The parts of a list: the two ends, the path between them, and the entries of its nodes.
pub record IsListed {Time : Type 0} (date_of : Time → Bytes) (t : Tables Time) (es : List Edge)
    (s : Session) (cur : ℤ) (out : List ListEntry) (g b next : ℕ) (p : List PathStep) : Type 0 where
  pub ends : load_endpoints s ≡ ok (pos g, pos b)
  pub path : path_between es (pos g) (pos b) ≡ ok p
  pub middle : next_rid (path_avoiding es (parse_skip_set s) (pos g) (pos b)) ≡ ok next
  pub good_pos : 0 < g
  pub bad_pos : 0 < b
  pub written : out ≡ entries_of date_of t (label_of (pos g) (pos b) cur next (parse_skip_set s)) p

pub list-IsListed :
    {Time : Type 0} (date_of : Time → Bytes) (t : Tables Time) (es : List Edge) (s : Session)
    (cur : ℤ) (out : List ListEntry)
    → list date_of t es s cur ≡ ok out
    → (g : ℕ) × (b : ℕ) × (next : ℕ) × (p : List PathStep) × IsListed date_of t es s cur out g b
        next p
unfolding list
list-IsListed date_of t es s cur out h =
    let ((g, b), e, k) = >>=-ok (load_endpoints s) _ out h in
    let (p, f, k') = >>=-ok (path_between es g b) _ out k in
    let (next, m, o) = >>=-ok (next_rid (path_avoiding es (parse_skip_set s) g b)) _ out k' in
    at_ends g b next p e f m (cc)
  where
    at_positive :
        (x y : ℕ) (next : ℕ) (p : List PathStep)
        → load_endpoints s ≡ ok (pos (suc x), pos (suc y))
        → path_between es (pos (suc x)) (pos (suc y)) ≡ ok p
        → next_rid (path_avoiding es (parse_skip_set s) (pos (suc x)) (pos (suc y))) ≡ ok next
        → out
          ≡ entries_of date_of t
              (label_of (pos (suc x)) (pos (suc y)) cur next (parse_skip_set s))
              p
        → (g : ℕ) × (b : ℕ) × (next : ℕ) × (p : List PathStep) × IsListed date_of t es s cur out g b
            next p
    at_positive x y next p e f m o = (
      suc x,
      suc y,
      next,
      p,
      record {
        ends = e;
        path = f;
        middle = m;
        good_pos = omega arith;
        bad_pos = omega arith;
        written = o;
      },
    )

    at_ends :
        (g b : ℤ) (next : ℕ) (p : List PathStep)
        → load_endpoints s ≡ ok (g, b)
        → path_between es g b ≡ ok p
        → next_rid (path_avoiding es (parse_skip_set s) g b) ≡ ok next
        → out ≡ entries_of date_of t (label_of g b cur next (parse_skip_set s)) p
        → (g : ℕ) × (b : ℕ) × (next : ℕ) × (p : List PathStep) × IsListed date_of t es s cur out g b
            next p
    at_ends g b next p e f m o =
        let (x, y, eg, eb) = positive_ends es g b p f in
        at_positive x y next p (rw (eg, eb) at e) (rw (eg, eb) at f) (rw (eg, eb) at m)
          (rw (eg, eb) at o)
