-- ===== src/Delta/Tests.antt =====
-- Runs of internal/delta/delta.go, and the theorems at concrete inputs.
use libfossil.Base.{ℕ, ◌^◌, ◌≤◌, ◌<◌, ◌≡◌, arith, [], ◌∷◌, List, codes, length, ok, Returns}
use libfossil.Delta.{
  digits, get_int, get_int_loop, append_int, int_digits, digit_of, checksum, apply,
}
use libfossil.Delta.Ints.{int_text}
use libfossil.Delta.Commands.{Command, copy, insert, expand}
use libfossil.Delta.Apply.{delta_text, apply-delta_text}
use libfossil.Delta.Safety.{HeaderSays, apply-Returns}

header_of : (n : ℕ) → HeaderSays (codes "3\n3@1,0;") n → n ≤ 100
unfolding get_int get_int_loop digits
header_of n (r, e) = ground arith

apply-Returns_example :
    Returns
      (λ text. HeaderSays (codes "3\n3@1,0;") (length text))
      (apply 100 (codes "abcdef") (codes "3\n3@1,0;"))
apply-Returns_example =
    apply-Returns 100 (codes "abcdef") (codes "3\n3@1,0;") (omega arith) (omega arith) header_of

abbrev two_commands : List Command
two_commands = copy 3 1 ∷ insert (codes "xyz") ∷ []

two_commands_fit :
    (length (expand (codes "abcdef") two_commands) < 2 ^ 62)
    × (length (delta_text two_commands (expand (codes "abcdef") two_commands)) < 2 ^ 62)
unfolding int_text append_int int_digits digit_of checksum
two_commands_fit = (omega arith, omega arith)

apply-delta_text_example :
    apply 100 (codes "abcdef") (delta_text two_commands (codes "bcdxyz")) ≡ ok (codes "bcdxyz")
apply-delta_text_example =
    apply-delta_text 100 (codes "abcdef") two_commands (omega arith) (omega arith)
      two_commands_fit.0 two_commands_fit.1 (omega arith)
