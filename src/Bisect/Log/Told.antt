-- ===== src/Bisect/Log/Told.antt =====
-- internal/bisect/bisect.go: what a session is told, in its log.
use libfossil.Base.{
  ℕ, zero, suc, ◌^◌, ◌<◌, ◌≡◌, refl, sym, ap, ◌∙◌, subst, true, false, List, [], ◌∷◌, ◌++◌, ◌==◌,
  if◌then◌else◌, Bool, Option, none, some, append-nil, append_assoc, All, Bytes, ok, ◌>>=◌, >>=-ok,
}
use libfossil.Base.Int.{ℤ, pos}
use libfossil.Text.{format_nat, parse_int}
use libfossil.Bisect.{
  Session, Result, mark_good, mark_bad, skip, reset, add_skip, skips_of, parse_skip_set,
}
use libfossil.Bisect.Log.{
  Logs, mark_good-Logs, mark_bad-Logs, snoc-Logs, add_skip-s, s-IsWord, parse_skip_set-Logs,
}

-- What a session is told about a rid.
pub data Mark : Type 0 where
  said_good said_bad said_skip : ℕ → Mark

unfoldable pub tell : Mark → Session → Result Session
tell (said_good n) s = mark_good s n
tell (said_bad n) s = mark_bad s n
tell (said_skip n) s = skip s n

unfoldable pub tell_all : List Mark → Session → Result Session
unfolding tell
tell_all [] s = ok s
tell_all (m ∷ ms) s = do s' ← tell m s; tell_all ms s'

abbrev pub told_rid : Mark → ℕ
told_rid (said_good n) = n
told_rid (said_bad n) = n
told_rid (said_skip n) = n

-- The rids that are to be skipped, in order.
abbrev pub skips : List Mark → List ℤ
skips [] = []
skips (said_good n ∷ ms) = skips ms
skips (said_bad n ∷ ms) = skips ms
skips (said_skip n ∷ ms) = pos n ∷ skips ms

add_skip-++ : (v : Bytes) (ids xs : List ℤ) → add_skip v (ids ++ xs) ≡ add_skip v ids ++ xs
unfolding add_skip
add_skip-++ [] ids xs = refl
add_skip-++ (c ∷ cs) ids xs = by_tests (c == b's') (parse_int cs)
  where
    by_tests :
        (b : Bool) (o : Option ℤ)
        → (if b then (elim o [ none ↦ ids ++ xs | some id ↦ id ∷ (ids ++ xs) ]) else ids ++ xs)
          ≡ (if b then (elim o [ none ↦ ids | some id ↦ id ∷ ids ]) else ids) ++ xs
    by_tests true none = refl
    by_tests true (some id) = refl
    by_tests false o = refl

skips_of-skip :
    (ws : List Bytes) (n : ℕ)
    → n < 2 ^ 63
    → skips_of (ws ++ (b's' ∷ format_nat n) ∷ []) ≡ skips_of ws ++ pos n ∷ []
unfolding skips_of
skips_of-skip [] n h = add_skip-s n [] h
skips_of-skip (v ∷ ws) n h =
    ap (add_skip v) (skips_of-skip ws n h) ∙ add_skip-++ v (skips_of ws) (pos n ∷ [])

skip-Logs :
    (s s' : Session) (ws : List Bytes) (n : ℕ)
    → Logs s ws
    → skip s n ≡ ok s'
    → Logs s' (ws ++ (b's' ∷ format_nat n) ∷ [])
unfolding skip
skip-Logs s s' ws zero l h = absurd (cc)
skip-Logs s s' ws (suc n) l h =
    snoc-Logs s s' ws (b's' ∷ format_nat (suc n)) l (s-IsWord (suc n)) (cc)

tell-Logs :
    (m : Mark) (s s' : Session) (ws : List Bytes)
    → told_rid m < 2 ^ 63
    → Logs s ws
    → tell m s ≡ ok s'
    → (ws' : List Bytes) × Logs s' ws' × (skips_of ws' ≡ skips_of ws ++ skips (m ∷ []))
unfolding tell
tell-Logs (said_good n) s s' ws b l h =
    let (l', e) = mark_good-Logs s s' ws n l h in
    (ws ++ format_nat n ∷ [], l', e ∙ sym (append-nil (skips_of ws)))
tell-Logs (said_bad n) s s' ws b l h =
    let (w, l', e) = mark_bad-Logs s s' ws n l h in
    (ws ++ w ∷ [], l', e ∙ sym (append-nil (skips_of ws)))
tell-Logs (said_skip n) s s' ws b l h =
    (ws ++ (b's' ∷ format_nat n) ∷ [], skip-Logs s s' ws n l h, skips_of-skip ws n b)

skips-cons : (m : Mark) (ms : List Mark) → skips (m ∷ []) ++ skips ms ≡ skips (m ∷ ms)
skips-cons (said_good n) ms = refl
skips-cons (said_bad n) ms = refl
skips-cons (said_skip n) ms = refl

pub tell_all-Logs :
    (ms : List Mark) (s s' : Session) (ws : List Bytes)
    → All (λ m. told_rid m < 2 ^ 63) ms
    → Logs s ws
    → tell_all ms s ≡ ok s'
    → (ws' : List Bytes) × Logs s' ws' × (skips_of ws' ≡ skips_of ws ++ skips ms)
unfolding tell_all
tell_all-Logs [] s s' ws b l h =
    let same : s ≡ s' = cc in (ws, subst (λ z. Logs z ws) same l, sym (append-nil (skips_of ws)))
tell_all-Logs (m ∷ ms) s s' ws (bm, b) l h =
    let (s1, first, rest) = >>=-ok (tell m s) _ s' h in
    let (ws1, l1, e1) = tell-Logs m s s1 ws bm l first in
    let (ws', l', e) = tell_all-Logs ms s1 s' ws1 b l1 rest in
    (
      ws',
      l',
      e
          ∙ ap (λ x. x ++ skips ms) e1
          ∙ append_assoc (skips_of ws) (skips (m ∷ [])) (skips ms)
          ∙ ap (λ x. skips_of ws ++ x) (skips-cons m ms),
    )

pub reset-Logs : (s : Session) → Logs (reset s) []
unfolding reset
reset-Logs s = (refl, tt)

-- After a reset and any calls of `MarkGood`, `MarkBad` and `Skip` that succeed, with rids that are
-- int64s, `parseSkipSet` reads out of the log the rids that were skipped, and no other.
pub parse_skip_set-tell_all :
    (ms : List Mark) (s s' : Session)
    → All (λ m. told_rid m < 2 ^ 63) ms
    → tell_all ms (reset s) ≡ ok s'
    → parse_skip_set s' ≡ skips ms
unfolding skips_of
parse_skip_set-tell_all ms s s' b h =
    let (ws, l, e) = tell_all-Logs ms (reset s) s' [] b (reset-Logs s) h in
    parse_skip_set-Logs s' ws l ∙ e
