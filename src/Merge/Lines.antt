-- ===== src/Merge/Lines.antt =====
-- internal/merge/threeway.go: `splitLines`.
use libfossil.Base.{
  suc-==-zero, ℕ, ◌≡◌, refl, ap, ◌∙◌, arith, List, [], ◌∷◌, ◌++◌, ◌==◌, if◌then◌else◌, Bytes,
  length,
}

-- The byte goes in front of the first piece.
abbrev pub with_byte : ℕ → List Bytes → List Bytes
with_byte c [] = (c ∷ []) ∷ []
with_byte c (piece ∷ pieces) = (c ∷ piece) ∷ pieces

-- `strings.SplitAfter(s, "\n")`: the last piece is empty when the text ends with a line break.
unfoldable pub split_after : Bytes → List Bytes
split_after [] = [] ∷ []
split_after (c ∷ cs) =
    let pieces = split_after cs in if c == b'\n' then (c ∷ []) ∷ pieces else with_byte c pieces

unfoldable pub drop_last_empty : List Bytes → List Bytes
drop_last_empty [] = []
drop_last_empty ([] ∷ []) = []
drop_last_empty (piece ∷ pieces) = piece ∷ drop_last_empty pieces

unfoldable pub split_lines : Bytes → List Bytes
unfolding split_after drop_last_empty
split_lines text = if length text == 0 then [] else drop_last_empty (split_after text)

-- The loop that writes the lines to a buffer, and `strings.Join(lines, "")`.
unfoldable pub join : List Bytes → Bytes
join [] = []
join (line ∷ lines) = line ++ join lines

join-with_byte : (c : ℕ) (pieces : List Bytes) → join (with_byte c pieces) ≡ c ∷ join pieces
unfolding join
join-with_byte c [] = refl
join-with_byte c (piece ∷ pieces) = refl

join-split_after : (s : Bytes) → join (split_after s) ≡ s
unfolding split_after join
join-split_after [] = refl
join-split_after (c ∷ cs) = ground (arith, join-with_byte c (split_after cs), join-split_after cs)

join-drop_last_empty : (pieces : List Bytes) → join (drop_last_empty pieces) ≡ join pieces
unfolding drop_last_empty join
join-drop_last_empty [] = refl
join-drop_last_empty ([] ∷ []) = refl
join-drop_last_empty ([] ∷ p ∷ ps) = ap (λ s. [] ++ s) (join-drop_last_empty (p ∷ ps))
join-drop_last_empty ((c ∷ cs) ∷ ps) = ap (λ s. (c ∷ cs) ++ s) (join-drop_last_empty ps)

-- The lines of a text, written one after the other, are the text.
pub join-split_lines : (s : Bytes) → join (split_lines s) ≡ s
unfolding split_lines join
join-split_lines [] = refl
join-split_lines (c ∷ cs) =
    rw (suc-==-zero (length cs))
      (join-drop_last_empty (split_after (c ∷ cs)) ∙ join-split_after (c ∷ cs))
