-- ===== src/Delta/Create/Tests.antt =====
-- A run of `Create` of internal/delta/delta.go, and the theorems about it at concrete inputs.
use libfossil.Base.{
  ℕ, ◌+◌, ◌^◌, ◌≤◌, ◌<◌, ◌≡◌, refl, arith, [], ◌∷◌, List, Bytes, codes, length, ok, replicate,
}
use libfossil.Delta.{append_int, int_digits, digit_of, checksum, apply}
use libfossil.Delta.Commands.{InMemory}
use libfossil.Delta.Create.{
  create, build_hash_table, table_loop, add_block, clear_low_bits, index, rolling_hash, match_len,
  improve, chain_loop, best_match, flush_insert, append_copy, append_end, emit_loop, emit_matches,
  create_insert_all, Table,
}
use libfossil.Delta.Create.RoundTrip.{apply-create}

abbrev pub old_text : Bytes
old_text = codes "the quick brown fox jumps over the lazy dog"

abbrev pub new_text : Bytes
new_text = codes "say: the quick brown fox jumps over a log"

pub create_run : create old_text new_text ≡ ok (codes "e\n5:say: V@0,5:a log1uvyAw;")
unfolding create build_hash_table table_loop add_block clear_low_bits index rolling_hash match_len
    improve chain_loop best_match flush_insert append_copy append_end emit_loop emit_matches
    create_insert_all append_int int_digits digit_of checksum
create_run = refl

pub created_InMemory : (d : Bytes) → create old_text new_text ≡ ok d → InMemory d
created_InMemory d h =
    let same : codes "e\n5:say: V@0,5:a log1uvyAw;" ≡ d = grind (arith, create_run) in
    rw (← same) (omega arith)

apply-create_example :
    (d : Bytes) × (create old_text new_text ≡ ok d) × (apply 1000 old_text d ≡ ok new_text)
apply-create_example =
    apply-create 1000 old_text new_text (omega arith) (omega arith) (omega arith) created_InMemory

abbrev one_block : Table
one_block = record {
  heads = 1 ∷ 1 ∷ [];
  entries = record { offset = 0; next = libfossil.Base.Int.ℤ.negsuc 0 } ∷ [];
  mask = 1;
}
