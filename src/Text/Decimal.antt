-- ===== src/Text/Decimal.antt =====
-- Decimal numbers: what `%d` prints, `strconv.Atoi` and `strconv.ParseInt` read.
use native.Mathlib.Nat.{pow-suc}
use libfossil.Base.{
  ℕ, zero, suc, ◌+◌, ◌*◌, ◌/◌, ◌%◌, ◌^◌, ◌≤◌, ◌<◌, ◌≡◌, inl, inr, refl, ◌∙◌, arith, false, some, [],
  ◌∷◌, lt→ltb, ◌==◌, Bytes, length, All, Bool-cases,
}
use libfossil.Base.Int.{ℤ, pos, negsuc}
use libfossil.Text.{
  decimal_digits, format_nat, format_int, is_digit, digits_value, parse_digits, positive_int,
  negative_int, parse_int,
}

pow_step : (k : ℕ) → 10 ^ suc k ≡ 10 * 10 ^ k
pow_step k = omega (arith, pow-suc 10 k)

decimal_digits-zero : (k : ℕ) (out : Bytes) → decimal_digits k 0 out ≡ out
unfolding decimal_digits
decimal_digits-zero zero out = refl
decimal_digits-zero (suc k) out = refl

digits_value-digit :
    (v d : ℕ) (cs : Bytes)
    → d < 10
    → digits_value v ((b'0' + d) ∷ cs) ≡ digits_value (v * 10 + d) cs
unfolding digits_value is_digit
digits_value-digit v d cs h = ground arith

digits_value-decimal_digits :
    (k v : ℕ) (out : Bytes)
    → v < 10 ^ k
    → digits_value 0 (decimal_digits k v out) ≡ digits_value v out
unfolding decimal_digits
digits_value-decimal_digits zero v out h = let e : v ≡ 0 = omega arith in rw e
digits_value-decimal_digits (suc k) v out h = ground (
  arith,
  pow_step k,
  digits_value-digit (v / 10) (v % 10) out,
  digits_value-decimal_digits k (v / 10) ((b'0' + v % 10) ∷ out),
)

abbrev pub IsDigit : ℕ → Type 0
IsDigit c = (b'0' ≤ c) × (c ≤ b'9')

decimal_digits-IsDigit :
    (k v : ℕ) (out : Bytes) → All IsDigit out → All IsDigit (decimal_digits k v out)
unfolding decimal_digits
decimal_digits-IsDigit zero v out h = h
decimal_digits-IsDigit (suc k) v out h = elim (Bool-cases (v == 0)) [
  | inl z ↦ rw (z, decimal_digits) h
  | inr p ↦
      rw (p, decimal_digits)
        (decimal_digits-IsDigit k (v / 10) ((b'0' + v % 10) ∷ out) (omega arith, h))
]

decimal_digits-length : (k v : ℕ) (out : Bytes) → length out ≤ length (decimal_digits k v out)
unfolding decimal_digits
decimal_digits-length zero v out = omega arith
decimal_digits-length (suc k) v out =
    ground (arith, decimal_digits-length k (v / 10) ((b'0' + v % 10) ∷ out))

decimal_digits_positive : (k v : ℕ) → (v == 0) ≡ false → 0 < length (decimal_digits (suc k) v [])
unfolding decimal_digits
decimal_digits_positive k v p =
    ground (arith, decimal_digits-length k (v / 10) ((b'0' + v % 10) ∷ []))

-- A printed number is one or more digits.
pub format_nat-IsDigit : (v : ℕ) → All IsDigit (format_nat v) × (0 < length (format_nat v))
unfolding format_nat
format_nat-IsDigit v = elim (Bool-cases (v == 0)) [
  | inl z ↦ rw z (omega arith)
  | inr p ↦ rw p (decimal_digits-IsDigit 20 v [] tt, decimal_digits_positive 19 v p)
]

parse_digits-value : (s : Bytes) → 0 < length s → parse_digits s ≡ digits_value 0 s
unfolding parse_digits
parse_digits-value [] h = absurd (omega arith)
parse_digits-value (c ∷ cs) h = refl

digits_value-format_nat : (v : ℕ) → v < 2 ^ 64 → digits_value 0 (format_nat v) ≡ some v
unfolding format_nat digits_value is_digit
digits_value-format_nat v h = elim (Bool-cases (v == 0)) [
  | inl z ↦ ground arith
  | inr p ↦ rw (p, digits_value-decimal_digits 20 v [] (omega arith))
]

pub parse_digits-format_nat : (v : ℕ) → v < 2 ^ 64 → parse_digits (format_nat v) ≡ some v
parse_digits-format_nat v h =
    parse_digits-value (format_nat v) (format_nat-IsDigit v).1 ∙ digits_value-format_nat v h

-- Without a sign.
parse_int_digits :
    (s : Bytes) → All IsDigit s → 0 < length s → parse_int s ≡ positive_int (parse_digits s)
unfolding parse_int
parse_int_digits [] a h = absurd (omega arith)
parse_int_digits (c ∷ cs) (d, a) h = ground arith

-- Within the range of an int64.
abbrev pub InInt64 : ℤ → Type 0
InInt64 (pos n) = n < 2 ^ 63
InInt64 (negsuc n) = n < 2 ^ 63

-- Every int64 is read back from its print.
pub parse_int-format_int : (z : ℤ) → InInt64 z → parse_int (format_int z) ≡ some z
unfolding format_int
parse_int-format_int (pos n) h =
    let (d, l) = format_nat-IsDigit n in
    rw (parse_int_digits (format_nat n) d l, parse_digits-format_nat n (omega arith))
      (unfold positive_int in rw (lt→ltb n (2 ^ 63) h))
parse_int-format_int (negsuc n) h =
    unfold parse_int in
    rw (parse_digits-format_nat (suc n) (omega arith))
      (unfold negative_int in rw (lt→ltb n (2 ^ 63) h))
