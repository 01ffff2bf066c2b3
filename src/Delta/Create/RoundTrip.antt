-- ===== src/Delta/Create/RoundTrip.antt =====
-- `Create` of internal/delta/delta.go spells commands that build the target, and `Apply` runs them.
use libfossil.Base.{
  ℕ, zero, suc, ◌≤◌, ◌≡◌, inl, inr, refl, sym, ◌∙◌, ap, arith, true, List, [], ◌∷◌, ◌++◌,
  append-nil, append_assoc, ltb, leb, Bytes, length, length-drop, take, drop, take-append-drop,
  suc-==-zero, ok, Bool-cases,
}
use libfossil.Delta.{apply, append_int}
use libfossil.Delta.Ints.{int_text, append_int-int_text}
use libfossil.Delta.Commands.{Command, copy, insert, render, InMemory}
use libfossil.Delta.Builds.{Builds, Builds-append, render-append}
use libfossil.Delta.Apply.{end_text, delta_text, apply-delta_text}
use libfossil.Delta.Create.{
  n_hash, Table, Best, flush_insert, append_copy, append_end, emit_loop, emit_matches,
  create_insert_all, create,
}
use libfossil.Delta.Create.Chains.{IsTable, build_hash_table-IsTable}
use libfossil.Delta.Create.Matches.{IsMatch, best_match-IsMatch}

flush_insert-render :
    (source pending buf : Bytes)
    → (cmds : List Command) × (flush_insert pending buf ≡ buf ++ render cmds)
      × Builds source cmds pending
unfolding flush_insert
flush_insert-render source [] buf = ([], sym (append-nil buf), record { fits = tt; text_is = refl })
flush_insert-render source (c ∷ cs) buf = (
  insert (c ∷ cs) ∷ [],
  rw (suc-==-zero (length cs)) (simp (append_int-int_text, append_assoc, append-nil)),
  record { fits = (omega arith, tt); text_is = append-nil (c ∷ cs) },
)

append_copy-render :
    (buf : Bytes) (best : Best) → append_copy buf best ≡ buf ++ render (copy best.len best.off ∷ [])
unfolding append_copy
append_copy-render buf best = simp (append_int-int_text, append_assoc, append-nil)

append_end-end_text : (buf target : Bytes) → append_end buf target ≡ buf ++ end_text target
unfolding append_end
append_end-end_text buf target = simp (append_int-int_text, append_assoc)

copy-Builds :
    (source tail : Bytes) (best : Best)
    → IsMatch source tail best
    → Builds source (copy best.len best.off ∷ []) (take best.len tail)
copy-Builds source tail best m = record { fits = (m.within, tt); text_is = append-nil _ ∙ m.same }

-- The pending text is flushed, a match is copied, and `later` builds what follows it.
after_match :
    (source : Bytes) (first later : List Command) (best : Best) (tail pending buf : Bytes)
    → IsMatch source tail best
    → flush_insert pending buf ≡ buf ++ render first
    → Builds source first pending
    → Builds source later (drop best.len tail)
    → (append_copy (flush_insert pending buf) best ++ render later
        ≡ buf ++ render (first ++ (copy best.len best.off ∷ [] ++ later)))
      × Builds source (first ++ (copy best.len best.off ∷ [] ++ later)) (pending ++ tail)
after_match source first later best tail pending buf m e b1 b2 = (
  simp (append_copy-render, e, render-append, append_assoc, append-nil),
  Builds-append source first _ pending tail b1 (
      rw (take-append-drop best.len tail) at (
        Builds-append source (copy best.len best.off ∷ []) later _ _
          (copy-Builds source tail best m) b2)),
)

le_of_leb : (n : ℕ) → leb n_hash n ≡ true → n_hash ≤ n
le_of_leb n h = ground arith

module _ (source : Bytes) (t : Table) (v : IsTable t) where
  -- The loop of `emitMatches` appends commands that build the pending text and the rest.
  emit_loop-render :
      (fuel : ℕ) (tail pending buf : Bytes)
      → length tail ≤ fuel
      → (cmds : List Command) × (emit_loop source t fuel tail pending buf ≡ ok (buf ++ render cmds))
        × Builds source cmds (pending ++ tail)
  unfolding emit_loop
  emit_loop-render fuel [] pending buf h =
      let (cmds, e, b) = flush_insert-render source pending buf in (cmds, ap ok e, rw append-nil b)
  emit_loop-render zero (c ∷ cs) pending buf h = absurd (omega arith)
  emit_loop-render (suc fuel) (c ∷ cs) pending buf h =
      let (best, e, m) = best_match-IsMatch source t (c ∷ cs) v in
      elim (Bool-cases (leb n_hash best.len)) [
        | inl found ↦
            let (first, e1, b1) = flush_insert-render source pending buf in
            let (later, e2, b2) =
              emit_loop-render fuel (drop best.len (c ∷ cs)) []
                (append_copy (flush_insert pending buf) best)
                (omega (arith, length-drop best.len (c ∷ cs), le_of_leb best.len found)) in
            let (joined, b) = after_match source first later best (c ∷ cs) pending buf m e1 b1 b2 in
            (first ++ (copy best.len best.off ∷ [] ++ later), rw (e, found) (e2 ∙ ap ok joined), b)
        | inr not_found ↦
            let (later, e2, b2) = emit_loop-render fuel cs (pending ++ c ∷ []) buf (omega arith) in
            (later, rw (e, not_found) e2, rw append_assoc at b2)
      ]

-- Header, commands and end, as the buffer is filled.
framed :
    (target commands : Bytes)
    → append_end (append_int [] (length target) ++ b'\n' ∷ [] ++ commands) target
      ≡ int_text (length target) ++ b'\n' ∷ (commands ++ end_text target)
framed target commands = simp (append_end-end_text, append_int-int_text, append_assoc)

insert_all :
    (target : Bytes)
    → append_end
        (append_int (append_int [] (length target) ++ b'\n' ∷ []) (length target)
          ++ b':' ∷ []
          ++ target)
        target
      ≡ delta_text (insert target ∷ []) target
insert_all target = simp (append_end-end_text, append_int-int_text, append_assoc, append-nil)

-- `Create` returns on every source and target, and what it returns spells commands that build the
-- target from the source.
pub create-delta_text :
    (source target : Bytes)
    → (cmds : List Command) × (create source target ≡ ok (delta_text cmds target))
      × Builds source cmds target
unfolding create create_insert_all emit_matches
create-delta_text source [] = (
  [],
  ap ok (simp (append_end-end_text, append_int-int_text, append_assoc)),
  record { fits = tt; text_is = refl },
)
create-delta_text source (c ∷ cs) = elim (Bool-cases (ltb (length source) 16)) [
  | inl short ↦ (
    insert (c ∷ cs) ∷ [],
    rw (suc-==-zero (length cs), short) (ap ok (insert_all (c ∷ cs))),
    record { fits = (omega arith, tt); text_is = append-nil (c ∷ cs) },
  )
  | inr long ↦
      let target = c ∷ cs in
      let (t, e, v) = build_hash_table-IsTable source in
      let (cmds, e', b) =
        emit_loop-render source t v (length target) target []
          (append_int [] (length target) ++ b'\n' ∷ []) (omega arith) in
      (cmds, rw (suc-==-zero (length cs), long, e, e') (ap ok (framed target (render cmds))), b)
]

-- For a source and a target in memory, `Create` returns a delta, and `Apply` turns the source and this
-- delta back into the target, where the target's length can be allocated and what `Create` returns is
-- in memory too.
pub apply-create :
    (max_cap : ℕ) (source target : Bytes)
    → InMemory source
    → InMemory target
    → length target ≤ max_cap
    → ((d : Bytes) → create source target ≡ ok d → InMemory d)
    → (d : Bytes) × (create source target ≡ ok d) × (apply max_cap source d ≡ ok target)
apply-create max_cap source target ms mt cap md =
    let (cmds, e, b) = create-delta_text source target in
    let built = apply-delta_text max_cap source cmds b.fits ms in
    let d = delta_text cmds target in (d, e, (rw b.text_is at built) mt (md d e) cap)
