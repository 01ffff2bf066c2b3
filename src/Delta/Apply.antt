-- ===== src/Delta/Apply.antt =====
-- `Apply` of internal/delta/delta.go on a delta that is spelled from a list of commands.
use libfossil.Base.{
  ℕ, zero, suc, ◌^◌, ◌≤◌, ◌<◌, ◌≡◌, refl, sym, ◌∙◌, arith, true, List, [], ◌∷◌, ◌++◌, append-nil,
  append_assoc, le→ltb, ◌==◌, false, Bytes, length, length-append, All, ok,
}
use libfossil.Delta.{get_char, checksum, has_more, apply_loop, apply}
use libfossil.Delta.Ints.{int_text, get_int-int_text}
use libfossil.Delta.Commands.{
  Command, copy, insert, render_command, render, piece, expand, InMemory, Fits, reader, not_digit,
  apply_round-render_command, apply_round-end,
}

has_more-append : (s : Bytes) (c : ℕ) (t : Bytes) → has_more (s ++ c ∷ t) ≡ true
unfolding has_more
has_more-append [] c t = refl
has_more-append (x ∷ s) c t = refl

has_more-render_command : (c : Command) (t : Bytes) → has_more (render_command c ++ t) ≡ true
has_more-render_command (copy cnt off) t = rw (append_assoc, has_more-append)
has_more-render_command (insert text) t = rw (append_assoc, has_more-append)

-- The last command and the delta's end.
abbrev pub end_text : Bytes → Bytes
end_text text = int_text (checksum text) ++ b';' ∷ []

-- The whole delta of a text: its length, the commands, its checksum.
abbrev pub delta_text : List Command → Bytes → Bytes
delta_text cmds text = int_text (length text) ++ b'\n' ∷ (render cmds ++ end_text text)

module _ (source : Bytes) (size n : ℕ) (m : InMemory source) (s : size < 2 ^ 62) where
  loop_step :
      (fuel : ℕ) (c : Command) (out rest : Bytes)
      → Fits source c
      → length (render_command c ++ rest) ≤ size
      → apply_loop source n (suc fuel) out (reader size (render_command c ++ rest))
        ≡ apply_loop source n fuel (out ++ piece source c) (reader size rest)
  unfolding apply_loop
  loop_step fuel c out rest f h =
      rw (
        has_more-render_command c rest,
        apply_round-render_command source n out size rest c m f s h,
      )

  loop_end :
      (fuel : ℕ) (out : Bytes)
      → n ≡ length out
      → apply_loop source n (suc fuel) out (reader size (end_text out)) ≡ ok out
  unfolding apply_loop
  loop_end fuel out e =
      rw (has_more-append (int_text (checksum out)) b';' [], apply_round-end source n out size [] e)

  -- The loop runs through the commands and returns the text that they build.
  apply_loop-render :
      (cmds : List Command) (fuel : ℕ) (out text : Bytes)
      → All (Fits source) cmds
      → out ++ expand source cmds ≡ text
      → n ≡ length text
      → length cmds < fuel
      → length (render cmds ++ end_text text) ≤ size
      → apply_loop source n fuel out (reader size (render cmds ++ end_text text)) ≡ ok text
  apply_loop-render cmds zero out text f b e l h = absurd (omega arith)
  apply_loop-render [] (suc fuel) out text f b e l h =
      let b' : out ≡ text = sym (append-nil out) ∙ b in rw b' (loop_end fuel text e)
  apply_loop-render (c ∷ cmds) (suc fuel) out text (f, fs) b e l h =
      let h' : length (render_command c ++ (render cmds ++ end_text text)) ≤ size =
        rw (← append_assoc) h in
      rw append_assoc (
        loop_step fuel c out _ f h'
        ∙ apply_loop-render cmds fuel (out ++ piece source c) text fs
            (append_assoc out (piece source c) (expand source cmds) ∙ b) e (omega arith)
            (omega (arith, h', length-append (render_command c) (render cmds ++ end_text text))))

length-render_command : (c : Command) → 0 < length (render_command c)
length-render_command (copy cnt off) = rw length-append (omega arith)
length-render_command (insert text) = rw length-append (omega arith)

length-le-render : (cmds : List Command) → length cmds ≤ length (render cmds)
length-le-render [] = omega arith
length-le-render (c ∷ cmds) = omega (
  arith,
  length-le-render cmds,
  length-render_command c,
  length-append (render_command c) (render cmds),
)

length-render-lt :
    (cmds : List Command) (text : Bytes) → length cmds < suc (length (delta_text cmds text))
length-render-lt cmds text = omega (
  arith,
  length-le-render cmds,
  length-append (render cmds) (end_text text),
  length-append (int_text (length text)) (b'\n' ∷ (render cmds ++ end_text text)),
)

pub length-header : (n : ℕ) (rest : Bytes) → (length (int_text n ++ b'\n' ∷ rest) == 0) ≡ false
length-header n rest = ground (arith, length-append (int_text n) (b'\n' ∷ rest))

apply_header :
    (max_cap : ℕ) (source : Bytes) (n : ℕ) (rest : Bytes)
    → n < 2 ^ 64
    → n ≤ max_cap
    → apply max_cap source (int_text n ++ b'\n' ∷ rest)
      ≡ apply_loop source n
          (suc (length (int_text n ++ b'\n' ∷ rest)))
          []
          (reader (length (int_text n ++ b'\n' ∷ rest)) rest)
unfolding apply get_char
apply_header max_cap source n rest h cap =
    rw (length-header n rest, get_int-int_text _ n (b'\n' ∷ rest) h not_digit.4)
      (rw (le→ltb max_cap n cap))

-- `Apply` builds exactly what the commands of a delta say, where the copies lie in the source, the
-- source, the delta and the text are in memory, and the text's length can be allocated.
pub apply-delta_text :
    (max_cap : ℕ) (source : Bytes) (cmds : List Command)
    → All (Fits source) cmds
    → InMemory source
    → InMemory (expand source cmds)
    → InMemory (delta_text cmds (expand source cmds))
    → length (expand source cmds) ≤ max_cap
    → apply max_cap source (delta_text cmds (expand source cmds)) ≡ ok (expand source cmds)
apply-delta_text max_cap source cmds f m me md cap =
    let text = expand source cmds in
    let rest = render cmds ++ end_text text in
    apply_header max_cap source (length text) rest (omega arith) cap
    ∙ apply_loop-render source _ (length text) m md cmds _ [] text f refl refl
        (length-render-lt cmds text)
        (omega (arith, length-append (int_text (length text)) (b'\n' ∷ rest)))
