-- ===== src/Delta/Create/Matches.antt =====
-- The matcher of internal/delta/delta.go: what it finds in the source stands in the target.
use libfossil.Base.{
  ℕ, zero, suc, ◌+◌, ◌≤◌, ◌<◌, ◌≡◌, inl, inr, refl, arith, bit_and, List, [], ◌∷◌, ltb, Bytes,
  length, length-drop, take, drop, ok, Bool-cases,
}
use libfossil.Base.Bits.{bit_and-le_right}
use libfossil.Base.Int.{ℤ, pos, negsuc, suc_int}
use libfossil.Delta.Create.{
  n_hash, index, rolling_hash, match_len, HashEntry, Table, Best, improve, chain_loop, best_match,
}
use libfossil.Delta.Create.Chains.{link, Falls, IsTable, index-All}

match_len-le : (a b : Bytes) → (match_len a b ≤ length a) × (match_len a b ≤ length b)
unfolding match_len
match_len-le [] b = omega arith
match_len-le (x ∷ a) [] = omega arith
match_len-le (x ∷ a) (y ∷ b) = ground (arith, match_len-le a b)

take-match_len : (a b : Bytes) → take (match_len a b) a ≡ take (match_len a b) b
unfolding match_len
take-match_len [] b = refl
take-match_len (x ∷ a) [] = refl
take-match_len (x ∷ a) (y ∷ b) = ground (arith, take-match_len a b)

-- The piece of the source at `off` is what the target holds at this place.
pub record IsMatch (source tail : Bytes) (best : Best) : Type 0 where
  pub within : best.off + best.len ≤ length source
  pub length_le : best.len ≤ length tail
  pub same : take best.len (drop best.off source) ≡ take best.len tail

improve-IsMatch :
    (source tail : Bytes) (s_off : ℕ) (best : Best)
    → IsMatch source tail best
    → IsMatch source tail (improve source tail s_off best)
unfolding improve
improve-IsMatch source tail s_off best m = ground (
  arith,
  match_len-le (drop s_off source) tail,
  length-drop s_off source,
  take-match_len (drop s_off source) tail,
)

Falls-index :
    (k : ℕ) (es : List HashEntry) (i : ℕ)
    → Falls k es
    → i < length es
    → (e : HashEntry) × (index es i ≡ ok e) × (link e ≤ k + i)
unfolding index
Falls-index k [] i f h = absurd (omega arith)
Falls-index k (e ∷ es) zero (l, f) h = (e, refl, omega arith)
Falls-index k (e ∷ es) (suc i) (l, f) h =
    let (x, p, q) = Falls-index (suc k) es i f (omega arith) in (x, p, omega arith)

abbrev count_of : ℤ → ℕ
count_of (pos n) = n
count_of (negsuc n) = 0

count_of-link : (e : HashEntry) → count_of (suc_int e.next) ≡ link e
count_of-link e =
    elim e.next as (λ z. count_of (suc_int z) ≡ elim (suc_int z) [ pos n ↦ n | negsuc n ↦ 0 ]) [
      | pos n ↦ refl
      | negsuc zero ↦ refl
      | negsuc (suc n) ↦ refl
    ]

-- A walk along a chain ends, does not panic, and keeps a match.
chain_loop-IsMatch :
    (source tail : Bytes) (es : List HashEntry) (fuel : ℕ) (ei : ℤ) (best : Best)
    → Falls 0 es
    → count_of ei ≤ length es
    → count_of ei < fuel
    → IsMatch source tail best
    → (best' : Best) × (chain_loop source tail es fuel ei best ≡ ok best')
      × IsMatch source tail best'
unfolding chain_loop
chain_loop-IsMatch source tail es zero ei best f n h m = absurd (omega arith)
chain_loop-IsMatch source tail es (suc fuel) (negsuc _) best f n h m = (best, refl, m)
chain_loop-IsMatch source tail es (suc fuel) (pos zero) best f n h m = (best, refl, m)
chain_loop-IsMatch source tail es (suc fuel) (pos (suc i)) best f n h m =
    let (e, at, l) = Falls-index 0 es i f n in
    let (b, r, m') =
      chain_loop-IsMatch source tail es fuel (suc_int e.next) (improve source tail e.offset best) f
        (omega (arith, count_of-link e)) (omega (arith, count_of-link e))
        (improve-IsMatch source tail e.offset best m) in
    (b, rw at r, m')

no-IsMatch : (source tail : Bytes) → IsMatch source tail (record { len = 0; off = 0 })
no-IsMatch source tail = record { within = omega arith; length_le = omega arith; same = refl }

-- With a table that holds the invariant the search for a match returns, for any source and any rest of
-- the target, and what it returns is a match: equal bytes that lie in both, the empty ones at least.
pub best_match-IsMatch :
    (source : Bytes) (t : Table) (tail : Bytes)
    → IsTable t
    → (best : Best) × (best_match source t tail ≡ ok best) × IsMatch source tail best
unfolding best_match
best_match-IsMatch source t tail v = elim (Bool-cases (ltb (length tail) n_hash)) [
  | inl short ↦ (record { len = 0; off = 0 }, rw short, no-IsMatch source tail)
  | inr long ↦
      let hash = rolling_hash (take n_hash tail) in
      let (head, at, h) =
        index-All (λ (h : ℕ). h ≤ length t.entries) t.heads (bit_and hash t.mask) v.heads_known
          (omega (arith, v.masked, bit_and-le_right hash t.mask)) in
      let (b, r, m) =
        chain_loop-IsMatch source tail t.entries (suc (length t.entries)) (pos head) _ v.falls h
          (omega arith) (no-IsMatch source tail) in
      (b, rw (long, at) r, m)
]
