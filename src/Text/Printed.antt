-- ===== src/Text/Printed.antt =====
-- A number that was printed, as a word for `strings.Fields`.
use libfossil.Base.{ℕ, suc, refl, arith, [], ◌∷◌, Bytes, All}
use libfossil.Base.Int.{ℤ, pos, negsuc}
use libfossil.Text.{format_int, format_nat, is_space, starts_wide_space}
use libfossil.Text.Decimal.{IsDigit, format_nat-IsDigit}
use libfossil.Text.Words.{IsWord, IsWordByte}

digit-IsWordByte : (c : ℕ) → IsDigit c → IsWordByte c
unfolding is_space starts_wide_space
digit-IsWordByte c h = ground arith

digits-IsWordByte : (s : Bytes) → All IsDigit s → All IsWordByte s
digits-IsWordByte [] h = tt
digits-IsWordByte (c ∷ s) (hc, h) = (digit-IsWordByte c hc, digits-IsWordByte s h)

-- A printed number is a word.
pub format_nat-IsWord : (n : ℕ) → IsWord (format_nat n)
format_nat-IsWord n = let (d, l) = format_nat-IsDigit n in (l, digits-IsWordByte (format_nat n) d)

pub format_int-IsWord : (z : ℤ) → IsWord (format_int z)
unfolding format_int is_space starts_wide_space
format_int-IsWord (pos n) = format_nat-IsWord n
format_int-IsWord (negsuc n) = (omega arith, ((refl, refl), (format_nat-IsWord (suc n)).1))
