-- ===== src/Bisect/Few.antt =====
-- internal/bisect/bisect.go over internal/path/path.go: a bisection needs few tests.
use libfossil.Base.{
  ℕ, zero, suc, ◌+◌, ◌-◌, ◌*◌, ◌/◌, ◌^◌, ◌≤◌, ◌<◌, ◌≡◌, ◌⊎◌, inl, inr, sym, ap, ◌∙◌, arith, List,
  [], All, Bytes, length, ok,
}
use native.Mathlib.Nat.{mul-le-mul_left, two-pow-succ}
use libfossil.Path.{Edge, PathStep}
use libfossil.Bisect.{Session, Result, mark_good, mark_bad, reset, parse_skip_set, skips_of, next}
use libfossil.Bisect.Midpoint.{next_on-middle}
use libfossil.Bisect.Progress.{remaining, next-parts, next-IsHalved}
use libfossil.Bisect.Log.{Logs, mark_good-Logs, mark_bad-Logs, parse_skip_set-Logs}
use libfossil.Bisect.Log.Told.{Mark, told_rid, skips, tell_all, tell_all-Logs, reset-Logs}

-- So many tests lead from one session to another: each tests the rid that `Next` gives, an int64, and
-- its answer is recorded.
pub data Tried (es : List Edge) (s : Session) : ℕ → Session → Type 0 where
  untried : Tried es s 0 s
  tried :
      {k : ℕ} {s1 s2 : Session} (r : ℕ)
      → Tried es s k s1
      → next es s1 ≡ ok r
      → r < 2 ^ 63
      → (mark_good s1 r ≡ ok s2) ⊎ (mark_bad s1 r ≡ ok s2)
      → Tried es s (suc k) s2

-- The log is made of words, and skips nothing.
abbrev IsPlain : Session → Type 0
IsPlain s = (ws : List Bytes) × Logs s ws × (skips_of ws ≡ [])

answer-IsPlain :
    (s s' : Session) (r : ℕ)
    → IsPlain s
    → (mark_good s r ≡ ok s') ⊎ (mark_bad s r ≡ ok s')
    → IsPlain s'
answer-IsPlain s s' r (ws, l, e) (inl h) =
    let (l', e') = mark_good-Logs s s' ws r l h in (_, l', e' ∙ e)
answer-IsPlain s s' r (ws, l, e) (inr h) =
    let (w, l', e') = mark_bad-Logs s s' ws r l h in (_, l', e' ∙ e)

Tried-IsPlain :
    (es : List Edge) (s : Session) {s' : Session} {k : ℕ} → Tried es s k s' → IsPlain s → IsPlain s'
Tried-IsPlain es s untried p = p
Tried-IsPlain es s {s'} (tried {s1 = s1} r t n f answer) p =
    answer-IsPlain s1 s' r (Tried-IsPlain es s t p) answer

IsPlain-none : (s : Session) → IsPlain s → parse_skip_set s ≡ []
IsPlain-none s (ws, l, e) = parse_skip_set-Logs s ws l ∙ e

twice : (a m : ℕ) → (a + a) * m ≡ a * (2 * m)
twice a m = grind arith

-- A halving more.
halve_again :
    (k n0 n1 n2 : ℕ) → 2 ^ k * (n1 - 2) ≤ n0 - 2 → n2 ≤ suc (n1 / 2) → 2 ^ suc k * (n2 - 2) ≤ n0 - 2
halve_again k n0 n1 n2 h l =
    let less : 2 * (n2 - 2) ≤ n1 - 2 = omega arith in
    let more : 2 ^ k * (2 * (n2 - 2)) ≤ 2 ^ k * (n1 - 2) = mul-le-mul_left (2 ^ k) less in
    let same : 2 ^ suc k * (n2 - 2) ≡ 2 ^ k * (2 * (n2 - 2)) =
      ap (λ (a : ℕ). a * (n2 - 2)) (two-pow-succ k) ∙ twice (2 ^ k) (n2 - 2) in
    omega (arith, same, more)

Tried-shrinks :
    (es : List Edge) (s : Session) {s' : Session} {k : ℕ} (p' : List PathStep)
    → Tried es s k s'
    → IsPlain s
    → remaining es s' ≡ ok p'
    → (p : List PathStep) × (remaining es s ≡ ok p) × (2 ^ k * (length p' - 2) ≤ length p - 2)
Tried-shrinks es s p' untried plain left = (p', left, omega arith)
Tried-shrinks es s {s'} {k = suc k} p' (tried {s1 = s1} r t n f answer) plain left =
    let none_skipped = IsPlain-none s1 (Tried-IsPlain es s t plain) in
    let (p1, p2, left1, left2, half) = next-IsHalved es s1 s' r n none_skipped f answer in
    let both : ◌≡◌ {A = Result (List PathStep)} (ok p2) (ok p') = sym left2 ∙ left in
    let same : p2 ≡ p' = cc in
    let (p, start, bound) = Tried-shrinks es s p1 t plain left1 in
    (
      p,
      start,
      halve_again k (length p) (length p1) (length p') bound (omega (arith, half, ap length same)),
    )

last_test : (k n0 n : ℕ) → 2 ^ k * (n - 2) ≤ n0 - 2 → 2 < n → 2 ^ k + 2 ≤ n0
last_test k n0 n h l =
    let one : 1 ≤ n - 2 = omega arith in
    let more : 2 ^ k * 1 ≤ 2 ^ k * (n - 2) = mul-le-mul_left (2 ^ k) one in
    let some_power : 1 ≤ 2 ^ k = power k in omega (arith, more)
  where
    power : (k : ℕ) → 1 ≤ 2 ^ k
    power zero = omega arith
    power (suc k) = omega (arith, two-pow-succ k, power k)

-- A bisection that skips nothing needs few tests: where `Next` gives one more rid after so many tests,
-- whatever their answers were, the path between the two ends had at the outset at least two nodes more
-- than the power of 2 to this number. The session is one that a reset and any calls led to, with rids
-- that are int64s.
pub few_tests :
    (es : List Edge) (ms : List Mark) (z s s' : Session) (k r : ℕ)
    → All (λ m. told_rid m < 2 ^ 63) ms
    → tell_all ms (reset z) ≡ ok s
    → skips ms ≡ []
    → Tried es s k s'
    → next es s' ≡ ok r
    → (p : List PathStep) × (remaining es s ≡ ok p) × (2 ^ k + 2 ≤ length p)
unfolding skips_of
few_tests es ms z s s' k r b told none t n =
    let (ws, l, e) = tell_all-Logs ms (reset z) s [] b (reset-Logs z) told in
    let plain : IsPlain s = (ws, l, e ∙ none) in
    let (bad, p', left, o) = next-parts es s' r n in
    let (step, there, same, long) =
      next_on-middle bad p' r (rw (IsPlain-none s' (Tried-IsPlain es s t plain)) at o) in
    let (p, start, bound) = Tried-shrinks es s p' t plain left in
    (p, start, last_test k (length p) (length p') bound long)
