-- ===== src/Diff/Myers.antt =====
-- internal/diff/diff.go: `myers` and `backtrack`. The diagonal k of the code is the index k + max.
pub mod Walk
pub mod Unwind
pub mod Step
pub mod Good
pub mod Round
pub mod Level
pub mod Next
pub mod Furthest
pub mod First
pub mod Total
pub mod Least
use libfossil.Base.{
  ℕ, zero, suc, ◌+◌, ◌*◌, ◌-◌, Bool, true, false, ◌&&◌, none, some, Option, List, [], ◌∷◌, ltb, leb,
  ◌==◌, if◌then◌else◌, Bytes, equal, length, get_elem?, set, drop, replicate, Outcome, ok, panicked,
  ◌>>=◌,
}
use libfossil.Diff.{op_equal, op_insert, op_delete, EditOp, targets}

-- There are no errors.
abbrev pub Result {ℓ} : Type ℓ → Type ℓ
Result A = Outcome ⊥ A

unfoldable pub inserts : List Bytes → List EditOp
inserts [] = []
inserts (l ∷ ls) = record { kind = op_insert; text = l } ∷ inserts ls

unfoldable pub deletes : List Bytes → List EditOp
deletes [] = []
deletes (l ∷ ls) = record { kind = op_delete; text = l } ∷ deletes ls

-- A read of a slice.
unfoldable pub entry {ℓ} : {A : Type ℓ} → List A → ℕ → Result A
entry v i = elim (get_elem? v i) [ none ↦ panicked | some x ↦ ok x ]

-- Whether the step to diagonal `i` in round `d` moves down, from the diagonal behind it.
unfoldable pub moves_down : ℕ → ℕ → ℕ → List ℕ → Result Bool
moves_down max d i v =
    if i + d == max
    then ok true
    else if i == max + d
    then ok false
    else (do left ← entry v (i - 1); right ← entry v (suc i); ok (ltb left right))

unfoldable pub start_x : ℕ → ℕ → ℕ → List ℕ → Result ℕ
start_x max d i v = do
  down ← moves_down max d i v
  if down then entry v (suc i) else (do left ← entry v (i - 1); ok (suc left))

-- The diagonal of equal lines behind `x`, on what is left of the two sides.
unfoldable pub snake : ℕ → List Bytes → List Bytes → ℕ
snake x [] _ = x
snake x (s ∷ ss) [] = x
snake x (s ∷ ss) (t ∷ ts) = let more = snake (suc x) ss ts in if equal s t then more else x

-- The inner loop, over every second diagonal; `none` says that the end was reached. `y` is not below 0.
unfoldable pub round : List Bytes → List Bytes → ℕ → ℕ → ℕ → ℕ → List ℕ → Result (Option (List ℕ))
round src dst max d zero i v = ok (some v)
round src dst max d (suc left) i v = do
  from ← start_x max d i v
  (let x = snake from (drop from src) (drop (from + max - i) dst) in
      if leb (length src) x && leb (length dst) (x + max - i)
      then ok none
      else round src dst max d left (suc (suc i)) (set v i x))

-- The steps back along the diagonal, to where the round's move ended; the operations are in order,
-- the last one first found. `y` is not 0 there.
unfoldable pub walk_back :
    List Bytes → ℕ → ℕ → ℕ → ℕ → ℕ → List EditOp → Result (ℕ × ℕ × List EditOp)
walk_back src max prev_x prev_i zero y ops = ok (0, y, ops)
walk_back src max prev_x prev_i (suc x) zero ops = ok (suc x, 0, ops)
walk_back src max prev_x prev_i (suc x) (suc y) ops =
    let again = walk_back src max prev_x prev_i x y in
    if ltb prev_x (suc x) && ltb (prev_x + max) (suc y + prev_i)
    then (do l ← entry src x; again (record { kind = op_equal; text = l } ∷ ops))
    else ok (suc x, suc y, ops)

-- The move of a round, taken back.
unfoldable pub unmove :
    List Bytes → List Bytes → ℕ → ℕ → ℕ → List EditOp → Result (ℕ × ℕ × List EditOp)
unmove src dst prev_x x y ops =
    if x == prev_x
    then elim y [
      | zero ↦ panicked
      | suc y1 ↦ do l ← entry dst y1; ok (x, y1, record { kind = op_insert; text = l } ∷ ops)
    ]
    else elim x [
      | zero ↦ panicked
      | suc x1 ↦ do l ← entry src x1; ok (x1, y, record { kind = op_delete; text = l } ∷ ops)
    ]

-- The loop over the snapshots, of which the last is in front.
unfoldable pub unwind :
    List Bytes → List Bytes → ℕ → List (List ℕ) → ℕ → ℕ → List EditOp → Result (List EditOp)
unwind src dst max [] x y ops = ok ops
unwind src dst max (v ∷ trace) x y ops =
    let again = unwind src dst max trace in
    let d = length trace in
    let i = x + max - y in
    do
      down ← moves_down max d i v
      prev_x ← entry v (if down then suc i else i - 1)
      (x1, y1, ops1) ← walk_back src max prev_x (if down then suc i else i - 1) x y ops
      if d == 0
          then again x1 y1 ops1
          else (do (x2, y2, ops2) ← unmove src dst prev_x x1 y1 ops1; again x2 y2 ops2)

unfoldable pub same_lines : List Bytes → List Bytes → Bool
same_lines [] [] = true
same_lines (s ∷ ss) (t ∷ ts) = equal s t && same_lines ss ts
same_lines _ _ = false

-- With the check of the postcondition.
unfoldable pub backtrack : List Bytes → List Bytes → ℕ → List (List ℕ) → Result (List EditOp)
backtrack src dst max trace = do
  ops ← unwind src dst max trace (length src) (length dst) []
  if same_lines (targets ops) dst then ok ops else panicked

-- The outer loop, for the rounds that are left; behind the last one the code panics.
unfoldable pub rounds :
    List Bytes → List Bytes → ℕ → ℕ → ℕ → List ℕ → List (List ℕ) → Result (List EditOp)
rounds src dst max zero d v trace = panicked
rounds src dst max (suc left) d v trace =
    let again = rounds src dst max left (suc d) in
    do
      r ← round src dst max d (suc d) (max - d) v
      elim r [ none ↦ backtrack src dst max (v ∷ trace) | some v1 ↦ again v1 (v ∷ trace) ]

unfoldable pub myers : List Bytes → List Bytes → Result (List EditOp)
myers [] dst = ok (inserts dst)
myers (s ∷ ss) [] = ok (deletes (s ∷ ss))
myers (s ∷ ss) (t ∷ ts) =
    let max = length (s ∷ ss) + length (t ∷ ts) in
    rounds (s ∷ ss) (t ∷ ts) max (suc max) 0 (replicate (suc (2 * max)) 0) []
