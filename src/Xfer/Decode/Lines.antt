-- ===== src/Xfer/Decode/Lines.antt =====
-- internal/xfer/decode.go: the first line of the input is read and handed to the parser of its command.
use libfossil.Base.{
  ◌<◌, ◌≡◌, refl, ◌∙◌, arith, false, List, [], ◌∷◌, ◌++◌, Bytes, length, length-append, All, err,
}
use libfossil.Text.{trim_right}
use libfossil.Text.Words.{IsWord, NotBreak, spaced, fields-spaced, trim_right_line, spaced-NotBreak}
use libfossil.Xfer.Wire.{Machine, eof}
use libfossil.Xfer.Encode.{is_empty}
use libfossil.Xfer.Decode.{
  command_type, parse_typed, parse_fields, parse_line, read_string, is_comment, decode_loop,
  decode_card,
}

read_string_line :
    (s r : Bytes)
    → All NotBreak s
    → read_string (s ++ b'\n' ∷ r) ≡ record { text = s ++ b'\n' ∷ []; at_end = false; rest = r }
unfolding read_string
read_string_line [] r h = refl
read_string_line (c ∷ s) r (hc, h) = rw (read_string_line s r h) (ground arith)

not_empty : (w s : Bytes) → 0 < length w → (is_empty (w ++ s)) ≡ false
not_empty w s h = ground (arith, length-append w s)

is_comment-append :
    (w s : Bytes) → 0 < length w → is_comment w ≡ false → is_comment (w ++ s) ≡ false
unfolding is_comment
is_comment-append [] s h k = absurd (omega arith)
is_comment-append (c ∷ w) s h k = k

-- A line with a text that is no comment is read whole, and handed to the parser.
pub decode_card_line :
    (m : Machine) (line r : Bytes)
    → All NotBreak line
    → is_empty line ≡ false
    → is_comment line ≡ false
    → decode_card m (line ++ b'\n' ∷ r) ≡ parse_line m r line
unfolding decode_card decode_loop
decode_card_line m line r nb t k = rw (read_string_line line r nb, trim_right_line line nb, t, k)

-- A line of words is read whole, and the parser of its first word is given the others.
pub decode_card-spaced :
    (m : Machine) (cmd : Bytes) (args : List Bytes) (r : Bytes)
    → IsWord cmd
    → is_comment cmd ≡ false
    → All IsWord args
    → decode_card m ((cmd ++ spaced args) ++ b'\n' ∷ r)
      ≡ parse_typed m r cmd args (command_type cmd)
unfolding parse_line parse_fields
decode_card-spaced m cmd args r w k ws =
    decode_card_line m (cmd ++ spaced args) r (spaced-NotBreak cmd args w.1 ws)
      (not_empty cmd (spaced args) w.0) (is_comment-append cmd (spaced args) w.0 k)
    ∙ rw (fields-spaced cmd args w ws)

-- At the end of the input.
pub decode_card-nil : (m : Machine) → decode_card m [] ≡ err eof
unfolding decode_card decode_loop read_string trim_right
decode_card-nil m = refl
