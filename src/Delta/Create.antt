-- ===== src/Delta/Create.antt =====
-- internal/delta/delta.go: `Create`, with the hash table over the source's blocks and the matcher.
-- `none` of `get_elem?` is an index out of range, which panics.
pub mod Chains
pub mod Matches
pub mod RoundTrip
pub mod Tests
use libfossil.Base.{
  ℕ, zero, suc, ◌+◌, ◌-◌, ◌*◌, ◌/◌, ◌%◌, ◌^◌, bit_and, Bool, true, false, ◌&&◌, not, none, some,
  List, [], ◌∷◌, ◌++◌, ltb, leb, ◌==◌, if◌then◌else◌, Bytes, length, take, drop, get_elem?, set,
  replicate, ok, panicked, stuck, ◌>>=◌,
}
use libfossil.Base.Int.{ℤ, pos, negsuc, pred_int, suc_int}
use libfossil.Delta.{Result, checksum, append_int}
use mathlib.Core.List.{foldl}

abbrev pub n_hash : ℕ
n_hash = 16

pub rolling_hash : Bytes → ℕ
rolling_hash = foldl (λ h b. (h * 37 + b) % 2 ^ 32) 0

pub match_len : Bytes → Bytes → ℕ
match_len (a ∷ as') (b ∷ bs) = if a == b then suc (match_len as' bs) else 0
match_len _ _ = 0

pub record HashEntry : Type 0 where
  pub offset : ℕ
  pub next : ℤ

pub record Table : Type 0 where
  pub heads : List ℕ
  pub entries : List HashEntry
  pub mask : ℕ

pub index {ℓ} : {A : Type ℓ} → List A → ℕ → Result A
index xs i = elim (get_elem? xs i) [ none ↦ panicked | some x ↦ ok x ]

-- `for tableSize&(tableSize-1) != 0`: each round clears the lowest bit that is set.
pub clear_low_bits : ℕ → ℕ → Result ℕ
clear_low_bits zero t = stuck
clear_low_bits (suc fuel) t = elim (bit_and t (t - 1) == 0) [
  | true ↦ ok t
  | false ↦ clear_low_bits fuel (bit_and t (t - 1))
]

-- `heads[idx]` before and after the block at `i` is entered.
pub add_block : ℕ → Bytes → Table → Result Table
add_block i block t = do
  let idx = bit_and (rolling_hash block) t.mask
  head ← index t.heads idx
  let entries = t.entries ++ record { offset = i; next = pred_int head } ∷ []
  ok (record { heads = set t.heads idx (length entries); entries = entries; mask = t.mask })

-- `tail` is source[i:].
pub table_loop : ℕ → ℕ → Bytes → Table → Result Table
table_loop zero i tail t = stuck
table_loop (suc fuel) i tail t =
    let again = table_loop fuel (i + n_hash) (drop n_hash tail) in
    if ltb (length tail) n_hash then ok t else do t' ← add_block i (take n_hash tail) t; again t'

pub build_hash_table : Bytes → Result Table
build_hash_table source = do
  let wanted = length source / n_hash
  let least = if ltb wanted 64 then 64 else wanted
  power ← clear_low_bits least least
  let table_size = power * 2
  table_loop (suc (length source)) 0 source
      (record { heads = replicate table_size 0; entries = []; mask = table_size - 1 })

pub record Best : Type 0 where
  pub len : ℕ
  pub off : ℕ

-- The body of the loop over a chain: `tail` is target[tPos:].
pub improve : Bytes → Bytes → ℕ → Best → Best
improve source tail s_off best =
    let ml = match_len (drop s_off source) tail in
    if leb (s_off + n_hash) (length source) && leb n_hash ml
    then (if ltb best.len ml then record { len = ml; off = s_off } else best)
    else best

-- `for ei > 0`.
pub chain_loop : Bytes → Bytes → List HashEntry → ℕ → ℤ → Best → Result Best
chain_loop source tail entries zero ei best = stuck
chain_loop source tail entries (suc fuel) (negsuc _) best = ok best
chain_loop source tail entries (suc fuel) (pos zero) best = ok best
chain_loop source tail entries (suc fuel) (pos (suc i)) best =
    let again = chain_loop source tail entries fuel in
    do e ← index entries i; again (suc_int e.next) (improve source tail e.offset best)

-- The entries of a chain have falling indices: with as many rounds as entries, and one, it ends.
pub best_match : Bytes → Table → Bytes → Result Best
best_match source t tail = if ltb (length tail) n_hash then ok (record { len = 0; off = 0 }) else do
  head ← index t.heads (bit_and (rolling_hash (take n_hash tail)) t.mask)
  chain_loop source tail t.entries (suc (length t.entries)) (pos head) (record { len = 0; off = 0 })

pub flush_insert : Bytes → Bytes → Bytes
flush_insert pending buf =
    if length pending == 0 then buf else append_int buf (length pending) ++ b':' ∷ [] ++ pending

pub append_copy : Bytes → Best → Bytes
append_copy buf best = append_int (append_int buf best.len ++ b'@' ∷ []) best.off ++ b',' ∷ []

pub append_end : Bytes → Bytes → Bytes
append_end buf target = append_int buf (checksum target) ++ b';' ∷ []

-- The loop of `emitMatches` on target[tPos:]; each round takes a byte at least.
pub emit_loop : Bytes → Table → ℕ → Bytes → Bytes → Bytes → Result Bytes
emit_loop source t fuel [] pending buf = ok (flush_insert pending buf)
emit_loop source t zero (c ∷ cs) pending buf = stuck
emit_loop source t (suc fuel) (c ∷ cs) pending buf =
    let again = emit_loop source t fuel in
    do
      best ← best_match source t (c ∷ cs)
      if leb n_hash best.len
          then again (drop best.len (c ∷ cs)) [] (append_copy (flush_insert pending buf) best)
          else again cs (pending ++ c ∷ []) buf

pub emit_matches : Bytes → Bytes → Table → Result Bytes
emit_matches source target t = do
  buf ← emit_loop source t (length target) target [] (append_int [] (length target) ++ b'\n' ∷ [])
  ok (append_end buf target)

pub create_insert_all : Bytes → Result Bytes
create_insert_all target =
    if length target == 0
    then panicked
    else ok (
        append_end
          (append_int (append_int [] (length target) ++ b'\n' ∷ []) (length target)
            ++ b':' ∷ []
            ++ target)
          target)

pub create : Bytes → Bytes → Result Bytes
create source target =
    if length target == 0
    then ok (append_end (append_int [] 0 ++ b'\n' ∷ []) target)
    else if ltb (length source) 16
    then create_insert_all target
    else do t ← build_hash_table source; emit_matches source target t
