-- ===== src/Bisect/Report/Steps.antt =====
-- internal/bisect/bisect.go, `Status`: the number of tests that it says are left.
use libfossil.Base.{
  ℕ, zero, suc, ◌^◌, ◌≤◌, ◌<◌, ◌≡◌, refl, sym, ◌∙◌, false, ◌||◌, arith, List, [], length, ltb,
  if◌then◌else◌, ok, ◌>>=◌,
}
use libfossil.Base.Int.{pos}
use libfossil.Path.{Edge, PathStep}
use libfossil.Bisect.{Session, load_endpoints, parse_skip_set, path_between, next}
use libfossil.Bisect.Midpoint.{next_on-middle}
use libfossil.Bisect.Progress.{remaining}
use libfossil.Bisect.Report.{StatusInfo, status, ends_or_zero, is_unset}
use libfossil.Bisect.Report.Agreed.{next-IsRun, path_avoiding-none}

-- What is used of `math.Log2` and its truncation: the logarithm of a small number is rounded down.
abbrev pub IsLog2 : (ℕ → ℕ) → Type 0
IsLog2 log2 = (n : ℕ) → 0 < n → n < 2 ^ 32 → (2 ^ log2 n ≤ n) × (n < 2 ^ suc (log2 n))

nonzero : (g b : ℕ) → 0 < g → 0 < b → (is_unset (pos g) || is_unset (pos b)) ≡ false
unfolding is_unset
nonzero g b h k = ground arith

above_two : (n k : ℕ) → 2 < n → (if ltb 2 n then k else 0) ≡ k
above_two n k h = ground arith

log2-pos : (n k : ℕ) → 2 < k → k < 2 ^ suc n → 0 < n
log2-pos zero k h l = absurd (omega arith)
log2-pos (suc n) k h l = omega arith

remaining-path :
    (es : List Edge) (s : Session) (g b : ℕ) (p : List PathStep)
    → load_endpoints s ≡ ok (pos g, pos b)
    → path_between es (pos g) (pos b) ≡ ok p
    → remaining es s ≡ ok p
unfolding remaining
remaining-path es s g b p e f = rw (e, ◌>>=◌, f) refl

-- Where the log skips no rid and `Next` gives one, `Status` returns: its ends are those of the
-- session, and its number of steps is the binary logarithm, rounded down, of the number of nodes of
-- the path that is left, at least 1. The path has fewer than 2 ^ 32 nodes.
pub status-steps :
    (log2 : ℕ → ℕ) (es : List Edge) (s : Session) (r : ℕ) (p : List PathStep)
    → IsLog2 log2
    → next es s ≡ ok r
    → parse_skip_set s ≡ []
    → remaining es s ≡ ok p
    → length p < 2 ^ 32
    → (info : StatusInfo) × (status log2 es s ≡ ok info)
      × (load_endpoints s ≡ ok (info.good, info.bad))
      × (0 < info.steps)
      × (2 ^ info.steps ≤ length p)
      × (length p < 2 ^ suc info.steps)
unfolding status ends_or_zero
status-steps log2 es s r p exact h none_skipped left small =
    let (g, b, p', run) = next-IsRun es s r h in
    let (step, there, same, long) = next_on-middle (pos b) p' r (rw none_skipped at (run.chosen)) in
    let one : ok p' ≡ ok p = sym (remaining-path es s g b p' run.ends run.path) ∙ left in
    let equal : p' ≡ p = cc in
    let long' : 2 < length p = rw equal at long in
    let (low, high) = exact (length p) (omega arith) small in
    let n = log2 (length p) in
    (
      record { good = pos g; bad = pos b; log = s.log; steps = n },
      rw
          (
            run.ends,
            ◌>>=◌,
            nonzero g b run.good_pos run.bad_pos,
            none_skipped,
            path_avoiding-none es g b,
            run.path,
            equal,
            above_two (length p) n long',
          )
          refl,
      run.ends,
      log2-pos n (length p) (omega arith) high,
      low,
      high,
    )
