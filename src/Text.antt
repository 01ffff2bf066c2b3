-- ===== src/Text.antt =====
-- What the repository uses of Go's packages strings and strconv, on strings as lists of bytes.
pub mod Decimal
pub mod Words
pub mod Split
pub mod Printed
use libfossil.Base.{
  ℕ, zero, suc, ◌+◌, ◌-◌, ◌*◌, ◌/◌, ◌%◌, ◌^◌, ◌≤◌, ◌<◌, Bool, true, false, ◌&&◌, ◌||◌, not, Option,
  none, some, List, [], ◌∷◌, ◌++◌, ltb, leb, ◌==◌, if◌then◌else◌, Bytes, codes, length,
}
use libfossil.Base.Int.{ℤ, pos, negsuc}

-- The loop of the decimal print of a number, the digits written last in front. Twenty digits hold
-- every uint64.
unfoldable pub decimal_digits : ℕ → ℕ → Bytes → Bytes
decimal_digits zero v out = out
decimal_digits (suc k) v out = elim (v == 0) [
  | true ↦ out
  | false ↦ decimal_digits k (v / 10) ((b'0' + v % 10) ∷ out)
]

unfoldable pub format_nat : ℕ → Bytes
format_nat v = if v == 0 then b'0' ∷ [] else decimal_digits 20 v []

-- `%d` of an int or an int64.
unfoldable pub format_int : ℤ → Bytes
format_int (pos n) = format_nat n
format_int (negsuc n) = b'-' ∷ format_nat (suc n)

unfoldable pub is_digit : ℕ → Bool
is_digit c = leb b'0' c && leb c b'9'

unfoldable pub digits_value : ℕ → Bytes → Option ℕ
digits_value v [] = some v
digits_value v (c ∷ cs) = elim (is_digit c) [
  | true ↦ digits_value (v * 10 + (c - b'0')) cs
  | false ↦ none
]

unfoldable pub parse_digits : Bytes → Option ℕ
parse_digits [] = none
parse_digits (c ∷ cs) = digits_value 0 (c ∷ cs)

-- An int64, from the number behind its sign; out of range is an error.
unfoldable pub positive_int : Option ℕ → Option ℤ
positive_int none = none
positive_int (some n) = if ltb n (2 ^ 63) then some (pos n) else none

unfoldable pub negative_int : Option ℕ → Option ℤ
negative_int none = none
negative_int (some zero) = some (pos 0)
negative_int (some (suc n)) = if ltb n (2 ^ 63) then some (negsuc n) else none

-- `strconv.Atoi` and `strconv.ParseInt(s, 10, 64)`.
unfoldable pub parse_int : Bytes → Option ℤ
parse_int [] = none
parse_int (c ∷ cs) =
    if c == b'-'
    then negative_int (parse_digits cs)
    else if c == b'+'
    then positive_int (parse_digits cs)
    else positive_int (parse_digits (c ∷ cs))

-- White space in ASCII.
unfoldable pub is_space : ℕ → Bool
is_space c = (leb 9 c && leb c 13) || c == b' '

-- The bytes that begin the UTF-8 form of the other characters that `unicode.IsSpace` accepts.
unfoldable pub starts_wide_space : ℕ → Bool
starts_wide_space c = c == 0xc2 || c == 0xe1 || c == 0xe2 || c == 0xe3

-- The bytes behind the first of such a form: U+0085, U+00A0, U+1680, U+2000 to U+200A, U+2028,
-- U+2029, U+202F, U+205F and U+3000. No other form holds one of the four first bytes further on.
unfoldable pub wide_space : ℕ → Bytes → ℕ
wide_space c (d ∷ e ∷ _) =
    if c == 0xc2 && (d == 0x85 || d == 0xa0)
    then 2
    else if c == 0xe1 && d == 0x9a && e == 0x80
    then 3
    else if c == 0xe2
        && d == 0x80
        && ((leb 0x80 e && leb e 0x8a) || e == 0xa8 || e == 0xa9 || e == 0xaf)
    then 3
    else if c == 0xe2 && d == 0x81 && e == 0x9f
    then 3
    else if c == 0xe3 && d == 0x80 && e == 0x80
    then 3
    else 0
wide_space c (d ∷ []) = if c == 0xc2 && (d == 0x85 || d == 0xa0) then 2 else 0
wide_space c [] = 0

-- The length of the white space character at the front, 0 if there is none.
unfoldable pub space_width : ℕ → Bytes → ℕ
unfolding wide_space
space_width c cs = if is_space c then 1 else if starts_wide_space c then wide_space c cs else 0

unfoldable pub add_word : Bytes → List Bytes → List Bytes
add_word [] ws = ws
add_word (c ∷ cs) ws = (c ∷ cs) ∷ ws

-- `strings.Fields`: the word so far, and the bytes of a white space character still to be passed.
unfoldable pub fields_loop : ℕ → Bytes → Bytes → List Bytes
fields_loop skip word [] = add_word word []
fields_loop (suc k) word (c ∷ cs) = fields_loop k word cs
fields_loop zero word (c ∷ cs) = elim (space_width c cs) [
  | zero ↦ fields_loop zero (word ++ c ∷ []) cs
  | suc k ↦ add_word word (fields_loop k [] cs)
]

unfoldable pub fields : Bytes → List Bytes
fields s = fields_loop 0 [] s

-- `strings.TrimRight(s, "\n\r")`.
unfoldable pub trim_right : Bytes → Bytes
trim_right [] = []
trim_right (c ∷ cs) =
    let rest = trim_right cs in
    if length rest == 0 && (c == b'\n' || c == b'\r') then [] else c ∷ rest
