-- ===== src/Delta/Create/Chains.antt =====
-- The hash table of internal/delta/delta.go: it is built without a panic, and its chains fall.
use libfossil.Base.{
  ℕ, zero, suc, ◌+◌, ◌-◌, ◌*◌, ◌/◌, ◌≤◌, ◌<◌, ◌≡◌, inl, inr, refl, arith, bit_and, false, List, [],
  ◌∷◌, ◌++◌, ltb, ◌==◌, if◌then◌else◌, Bytes, length, length-append, take, drop, length-drop, set,
  replicate, length-replicate, All, ok, Bool-cases,
}
use libfossil.Base.Bits.{bit_and-le_right}
use libfossil.Base.Int.{pos, negsuc, pred_int, suc_int}
use libfossil.Delta.Create.{
  n_hash, index, rolling_hash, HashEntry, Table, clear_low_bits, add_block, table_loop,
  build_hash_table,
}

-- `next + 1`, the value of `ei` behind an entry, as a number.
abbrev pub link : HashEntry → ℕ
link e = elim (suc_int e.next) [ pos n ↦ n | negsuc n ↦ 0 ]

-- Behind `k` entries, each entry links to an earlier one, or to none.
abbrev pub Falls : ℕ → List HashEntry → Type 0
Falls k [] = Unit {0}
Falls k (e ∷ es) = (link e ≤ k) × Falls (suc k) es

-- The invariant of the table: heads lead to entries, and the mask keeps to the heads.
pub record IsTable (t : Table) : Type 0 where
  pub heads_known : All (λ h. h ≤ length t.entries) t.heads
  pub falls : Falls 0 t.entries
  pub masked : t.mask < length t.heads

Falls-append :
    (k : ℕ) (es : List HashEntry) (e : HashEntry)
    → Falls k es
    → link e ≤ k + length es
    → Falls k (es ++ e ∷ [])
Falls-append k [] e f h = (omega arith, tt)
Falls-append k (x ∷ es) e (hx, f) h = (hx, Falls-append (suc k) es e f (omega arith))

All-le : (n m : ℕ) (hs : List ℕ) → n ≤ m → All (λ h. h ≤ n) hs → All (λ h. h ≤ m) hs
All-le n m [] h a = tt
All-le n m (x ∷ hs) h (p, a) = (omega arith, All-le n m hs h a)

All-set :
    (n : ℕ) (hs : List ℕ) (i v : ℕ) → v ≤ n → All (λ h. h ≤ n) hs → All (λ h. h ≤ n) (set hs i v)
All-set n [] i v h a = tt
All-set n (x ∷ hs) zero v h (p, a) = (h, a)
All-set n (x ∷ hs) (suc i) v h (p, a) = (p, All-set n hs i v h a)

length-set : (hs : List ℕ) (i v : ℕ) → length (set hs i v) ≡ length hs
length-set [] i v = refl
length-set (x ∷ hs) zero v = refl
length-set (x ∷ hs) (suc i) v = omega (arith, length-set hs i v)

pub index-All {ℓ} :
    {A : Type ℓ} (P : A → Type 0) (xs : List A) (i : ℕ)
    → All P xs
    → i < length xs
    → (x : A) × (index xs i ≡ ok x) × P x
unfolding index
index-All P [] i a h = absurd (omega arith)
index-All P (x ∷ xs) zero (p, a) h = (x, refl, p)
index-All P (x ∷ xs) (suc i) (p, a) h = index-All P xs i a (omega arith)

link-pred_int : (o h : ℕ) → link (record { offset = o; next = pred_int h }) ≡ h
link-pred_int o zero = refl
link-pred_int o (suc h) = refl

-- Entering a block does not panic and keeps the invariant.
add_block-IsTable :
    (i : ℕ) (block : Bytes) (t : Table)
    → IsTable t
    → (t' : Table) × (add_block i block t ≡ ok t') × IsTable t'
unfolding add_block
add_block-IsTable i block t v =
    let idx = bit_and (rolling_hash block) t.mask in
    let below : idx < length t.heads =
      omega (arith, v.masked, bit_and-le_right (rolling_hash block) t.mask) in
    let (head, e, h) =
      index-All (λ (h : ℕ). h ≤ length t.entries) t.heads idx v.heads_known below in
    let entries = t.entries ++ record { offset = i; next = pred_int head } ∷ [] in
    let grown : length entries ≡ length t.entries + 1 = length-append t.entries _ in
    (
      record { heads = set t.heads idx (length entries); entries = entries; mask = t.mask },
      rw e,
      record {
        heads_known =
            All-set (length entries) t.heads idx (length entries) (omega arith)
              (All-le (length t.entries) (length entries) t.heads (omega arith) v.heads_known);
        falls = Falls-append 0 t.entries _ v.falls (omega (arith, link-pred_int i head));
        masked = omega (arith, length-set t.heads idx (length entries), v.masked);
      },
    )

ltb-false : (a b : ℕ) → ltb a b ≡ false → b ≤ a
ltb-false a b h = ground arith

table_loop-IsTable :
    (fuel i : ℕ) (tail : Bytes) (t : Table)
    → length tail < fuel
    → IsTable t
    → (t' : Table) × (table_loop fuel i tail t ≡ ok t') × IsTable t'
unfolding table_loop
table_loop-IsTable zero i tail t h v = absurd (omega arith)
table_loop-IsTable (suc fuel) i tail t h v = elim (Bool-cases (ltb (length tail) n_hash)) [
  | inl short ↦ (t, rw short, v)
  | inr long ↦
      let (t1, e1, v1) = add_block-IsTable i (take n_hash tail) t v in
      let (t2, e2, v2) =
        table_loop-IsTable fuel (i + n_hash) (drop n_hash tail) t1
          (omega (arith, length-drop 16 tail, ltb-false (length tail) 16 long)) v1 in
      (t2, rw (long, e1) e2, v2)
]

-- Clearing bits of a positive number ends at a positive number.
clear_low_bits-positive :
    (fuel t : ℕ) → 0 < t → t ≤ fuel → (p : ℕ) × (clear_low_bits fuel t ≡ ok p) × (0 < p)
unfolding clear_low_bits
clear_low_bits-positive zero t h f = absurd (omega arith)
clear_low_bits-positive (suc fuel) t h f = elim (Bool-cases (bit_and t (t - 1) == 0)) [
  | inl z ↦ (t, rw (z, clear_low_bits), h)
  | inr nz ↦
      let (p, e, q) =
        clear_low_bits-positive fuel (bit_and t (t - 1)) (ground arith)
          (omega (arith, bit_and-le_right t (t - 1))) in
      (p, rw (nz, clear_low_bits) e, q)
]

All-replicate : (n m : ℕ) → All (λ h. h ≤ m) (replicate n 0)
All-replicate zero m = tt
All-replicate (suc n) m = (omega arith, All-replicate n m)

empty-IsTable :
    (p : ℕ)
    → 0 < p
    → IsTable (record { heads = replicate (p * 2) 0; entries = []; mask = p * 2 - 1 })
empty-IsTable p h = record {
  heads_known = All-replicate (p * 2) 0;
  falls = tt;
  masked = omega (arith, length-replicate (p * 2) (let z : ℕ = 0 in z));
}

-- `buildHashTable` returns on every source, with no panic and no endless loop, a table that holds the
-- invariant: each head and each link of a chain leads to an earlier entry or to none, and the mask
-- stays below the number of heads.
pub build_hash_table-IsTable :
    (source : Bytes) → (t : Table) × (build_hash_table source ≡ ok t) × IsTable t
unfolding build_hash_table
build_hash_table-IsTable source =
    let wanted = length source / n_hash in
    let least = if ltb wanted 64 then 64 else wanted in
    let (p, e, q) = clear_low_bits-positive least least (ground arith) (omega arith) in
    let (t, e', v) =
      table_loop-IsTable (suc (length source)) 0 source _ (omega arith) (empty-IsTable p q) in
    (t, rw e e', v)
