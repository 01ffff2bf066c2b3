-- ===== src/Bisect.antt =====
-- internal/bisect/bisect.go: a bisection and its state in the table vvar. The statements do not fail.
pub mod Midpoint
pub mod Between
pub mod Ends
pub mod Progress
pub mod Log
pub mod Few
pub mod Report
mod Tests
use libfossil.Base.{
  ℕ, zero, suc, ◌+◌, ◌-◌, ◌/◌, Bool, true, false, not, ◌&&◌, ◌||◌, Option, none, some, List, [],
  ◌∷◌, ◌++◌, ltb, leb, ◌==◌, if◌then◌else◌, Bytes, codes, length, get_elem?, Outcome, ok, err,
  panicked, stuck, ◌>>=◌,
}
use libfossil.Base.Int.{ℤ, pos, negsuc}
use libfossil.Text.{format_nat, format_int, parse_int, fields}
use libfossil.Path.{Edge, PathStep, shortest}

pub data Error : Type 0 where
  not_set bad_number not_found : Error
  complete : ℤ → Error

abbrev pub Result {ℓ} : Type ℓ → Type ℓ
Result A = Outcome Error A

-- The values of the variables bisect-good, bisect-bad and bisect-log; one that is not there reads as
-- the empty string.
pub record Session : Type 0 where
  pub good : Bytes
  pub bad : Bytes
  pub log : Bytes

unfoldable pub append_log_entry : Bytes → Bytes → Bytes
append_log_entry cur entry = if length cur == 0 then entry else cur ++ b' ' ∷ entry

unfoldable pub mark_good : Session → ℕ → Result Session
unfolding append_log_entry
mark_good s zero = panicked
mark_good s (suc n) =
    ok (record s { good = format_nat (suc n); log = append_log_entry s.log (format_nat (suc n)) })

unfoldable pub mark_bad : Session → ℕ → Result Session
unfolding append_log_entry
mark_bad s zero = panicked
mark_bad s (suc n) =
    ok (record s { bad = format_nat (suc n); log = append_log_entry s.log (format_int (negsuc n)) })

unfoldable pub skip : Session → ℕ → Result Session
unfolding append_log_entry
skip s zero = panicked
skip s (suc n) = ok (record s { log = append_log_entry s.log (b's' ∷ format_nat (suc n)) })

unfoldable pub reset : Session → Session
reset s = record { good = []; bad = []; log = [] }

unfoldable pub parse_rid : Bytes → Result ℤ
parse_rid s = elim (parse_int s) [ none ↦ err bad_number | some v ↦ ok v ]

unfoldable pub load_endpoints : Session → Result (ℤ × ℤ)
unfolding parse_rid
load_endpoints s =
    if length s.good == 0 || length s.bad == 0
    then err not_set
    else do g ← parse_rid s.good; b ← parse_rid s.bad; ok (g, b)

-- `skip[libfossil.FslID(id)] = true`, if the word is an `s` and a number.
unfoldable pub add_skip : Bytes → List ℤ → List ℤ
add_skip [] ids = ids
add_skip (c ∷ cs) ids =
    if c == b's' then elim (parse_int cs) [ none ↦ ids | some id ↦ id ∷ ids ] else ids

unfoldable pub skips_of : List Bytes → List ℤ
unfolding add_skip
skips_of [] = []
skips_of (w ∷ ws) = add_skip w (skips_of ws)

-- The keys of the map; no key is the map nil.
unfoldable pub parse_skip_set : Session → List ℤ
unfolding skips_of
parse_skip_set s = skips_of (fields s.log)

unfoldable pub is_id : ℤ → ℕ → Bool
is_id (pos n) rid = n == rid
is_id (negsuc _) rid = false

unfoldable pub is_skipped : List ℤ → ℕ → Bool
unfolding is_id
is_skipped [] rid = false
is_skipped (id ∷ ids) rid = if is_id id rid then true else is_skipped ids rid

-- A path between two rids, `Shortest` with no rid skipped; a rid that is not positive is a panic, and
-- any error is one.
unfoldable pub found_path : Outcome libfossil.Path.Error (List PathStep) → Result (List PathStep)
found_path (ok p) = ok p
found_path (err _) = err not_found
found_path panicked = panicked
found_path stuck = stuck

unfoldable pub path_between : List Edge → ℤ → ℤ → Result (List PathStep)
unfolding found_path
path_between es (pos g) (pos b) = found_path (shortest es g b true [])
path_between es _ _ = panicked

-- `idx > 0 && idx < len(p)-1 && !skip[p[idx].RID]`
unfoldable pub is_candidate : List PathStep → List ℤ → ℕ → Bool
unfolding is_skipped
is_candidate p skips idx = elim (get_elem? p idx) [
  | none ↦ false
  | some step ↦ ltb 0 idx && ltb (suc idx) (length p) && not (is_skipped skips step.rid)
]

-- The loop outward from the middle; `k` rounds are left. An index below 0 is no candidate.
unfoldable pub outward : List PathStep → List ℤ → ℕ → ℕ → ℕ → Option ℕ
unfolding is_candidate
outward p skips mid d zero = none
outward p skips mid d (suc k) =
    let later = outward p skips mid (suc d) k in
    if is_candidate p skips (mid + d)
    then some (mid + d)
    else if leb d mid && is_candidate p skips (mid - d)
    then some (mid - d)
    else later

unfoldable pub pick : List PathStep → List ℤ → Option ℕ
unfolding outward
pick p [] = some (length p / 2)
pick p (id ∷ ids) = outward p (id ∷ ids) (length p / 2) 0 (length p)

unfoldable pub at_index : ℤ → List PathStep → Option ℕ → Result ℕ
at_index bad p none = err (complete bad)
at_index bad p (some i) = elim (get_elem? p i) [ none ↦ panicked | some step ↦ ok step.rid ]

unfoldable pub next_on : ℤ → List PathStep → List ℤ → Result ℕ
unfolding pick at_index
next_on bad p skips = if leb (length p) 2 then err (complete bad) else at_index bad p (pick p skips)

unfoldable pub next : List Edge → Session → Result ℕ
unfolding load_endpoints path_between next_on parse_skip_set
next es s = do
  (good, bad) ← load_endpoints s
  p ← path_between es good bad
  next_on bad p (parse_skip_set s)
