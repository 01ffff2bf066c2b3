-- ===== src/Deck/Tests.antt =====
-- The theorems on internal/deck at concrete decks.
use mathlib.Core.List.{Permᴰ}
use libfossil.Base.{
  ap, ℕ, ◌-◌, ◌+◌, ◌%◌, ◌^◌, ◌<◌, ◌≡◌, ◌↔◌, ◌==◌, refl, inr, arith, true, Option, none, some, [],
  ◌∷◌, ◌++◌, Bytes, codes, length, replicate, length-replicate, take, ok, panicked, Ends, Returns,
  if◌then◌else◌,
}
use libfossil.Base.Int.{negsuc}
use libfossil.Text.{
  format_nat, parse_digits, parse_int, negative_int, digits_value, is_digit, is_space,
  starts_wide_space, space_width, fields,
}
use libfossil.Text.Split.{trim_space, trim_start, trim_end, all_space}
use libfossil.Text.Decimal.{parse_digits-format_nat}
use libfossil.Text.Printed.{format_nat-IsWord}
use libfossil.Text.Words.{IsWord, IsWordByte}
use libfossil.Deck.Encode.{fossil_encode, encode_byte}
use libfossil.Deck.Artifact.{Deck, Environment}
use libfossil.Deck.Marshal.{marshal, marshal_cards, z_card, f_args}
use libfossil.Deck.Checksum.{verify_z, verify_z_iff}
use libfossil.Deck.Parse.{parse, empty_deck, file_of}
use libfossil.Deck.Parse.Safety.{parse-Ends}
use libfossil.Deck.Parse.Calm.{parse-Returns, NoCardW}
use libfossil.Deck.Carried.{IsCarried, IsReordered, canonical}
use libfossil.Deck.RoundTrip.{parse-marshal, parse-reordered}
use libfossil.Deck.Refused.{parse-w_panics, file_of-renamed, sealed}
use libfossil.Deck.Hash.{compute_r, compute_r-canonical}

-- A time is a number of seconds, and its two layouts differ in their first letter.
unfoldable milli : ℕ → Bytes
milli x = b'm' ∷ format_nat x

unfoldable second : ℕ → Bytes
second x = b's' ∷ format_nat x

unfoldable read_milli : Bytes → Option ℕ
read_milli [] = none
read_milli (c ∷ s) = if c == b'm' then parse_digits s else none

unfoldable read_second : Bytes → Option ℕ
read_second [] = none
read_second (c ∷ s) = if c == b's' then parse_digits s else none

letter-IsWord : (c : ℕ) (x : ℕ) → IsWordByte c → IsWord (c ∷ format_nat x)
letter-IsWord c x h = (omega arith, (h, (format_nat-IsWord x).1))

milli-IsWord : (x : ℕ) → IsWord (milli x)
unfolding milli is_space starts_wide_space
milli-IsWord x = letter-IsWord b'm' x (refl, refl)

second-IsWord : (x : ℕ) → IsWord (second x)
unfolding second is_space starts_wide_space
second-IsWord x = letter-IsWord b's' x (refl, refl)

read_milli-milli : (x : ℕ) → x < 2 ^ 64 → read_milli (milli x) ≡ some x
unfolding milli read_milli
read_milli-milli x h = parse_digits-format_nat x h

read_milli-second : (x : ℕ) → read_milli (second x) ≡ none
unfolding second read_milli
read_milli-second x = refl

read_second-second : (x : ℕ) → x < 2 ^ 64 → read_second (second x) ≡ some x
unfolding second read_second
read_second-second x h = parse_digits-format_nat x h

-- A sum that depends on the length alone.
unfoldable sum : Bytes → Bytes
sum s = replicate 32 (b'0' + length s % 10)

length-sum : (s : Bytes) → length (sum s) ≡ 32
unfolding sum
length-sum s = length-replicate 32 (b'0' + length s % 10)

abbrev environment : Environment ℕ
environment = record {
  md5_hex = sum;
  max_len = 2 ^ 47;
  zero_time = 0;
  is_zero = λ x. x == 0;
  format_milli = milli;
  format_second = second;
  parse_milli = read_milli;
  parse_second = read_second;
  IsMilli = λ x. x < 2 ^ 64;
  IsSecond = λ x. x < 2 ^ 64;
  length-md5_hex = length-sum;
  is_zero-zero_time = refl;
  format_milli-IsWord = milli-IsWord;
  format_second-IsWord = second-IsWord;
  parse_milli-format_milli = read_milli-milli;
  parse_milli-format_second = read_milli-second;
  parse_second-format_second = read_second-second;
}

-- A check-in of two files, with a comment, a date, parents, a tag and a text.
abbrev a_checkin : Deck ℕ
a_checkin = record (empty_deck environment) {
  c = codes "two words";
  d = 7;
  f =
      record { name = codes "b c"; uuid = codes "aa"; perm = codes "x"; old_name = codes "z" }
      ∷ record { name = codes "a"; uuid = codes "bb"; perm = []; old_name = [] }
      ∷ [];
  p = codes "p1" ∷ codes "p2" ∷ [];
  q = record { is_backout = true; target = codes "t"; baseline = [] } ∷ [];
  t = record { tag_type = b'*'; name = codes "branch"; uuid = codes "*"; value = codes "a b" } ∷ [];
  u = codes "me";
  w = codes "W\nZ 1\n";
}

words :
    IsWord (codes "aa")
    × IsWord (codes "bb")
    × IsWord (codes "x")
    × IsWord (codes "p1")
    × IsWord (codes "p2")
unfolding is_space starts_wide_space
words = ground arith

names :
    IsWord (fossil_encode (codes "b c"))
    × IsWord (fossil_encode (codes "a"))
    × IsWord (fossil_encode (codes "z"))
unfolding fossil_encode encode_byte is_space starts_wide_space
names = ground arith

a_checkin-IsCarried : IsCarried environment a_checkin
unfolding fossil_encode
a_checkin-IsCarried = record {
  a = tt;
  b = tt;
  d = inr (refl, omega arith);
  e = tt;
  g = tt;
  i = tt;
  j = tt;
  k = tt;
  m = tt;
  n = tt;
  r = tt;
  f = (
    (names.0, words.0.1, words.2.1, names.2.1, ground arith, ground arith),
    ((names.1, words.1.1, tt, tt, ground arith, ground arith), tt),
  );
  p = (words.3, (words.4, tt));
  q = ((ground arith, omega arith, tt), tt);
  t = ((omega arith, omega arith, ground arith, ground arith, ground arith), tt);
  w_int = omega arith;
  w_max = omega arith;
}

parse-marshal_example : parse environment (marshal environment a_checkin) ≡ ok (canonical a_checkin)
parse-marshal_example = parse-marshal environment a_checkin a_checkin-IsCarried

abbrev files_swapped : Deck ℕ
files_swapped = record a_checkin {
  f =
      record { name = codes "a"; uuid = codes "bb"; perm = []; old_name = [] }
      ∷ record { name = codes "b c"; uuid = codes "aa"; perm = codes "x"; old_name = codes "z" }
      ∷ [];
  z = codes "0";
}

files_swapped-IsReordered : IsReordered a_checkin files_swapped
files_swapped-IsReordered = record {
  same = refl;
  f = Permᴰ.swap refl refl;
  m = Permᴰ.nil;
  t = Permᴰ.cons refl Permᴰ.nil;
  one_f = (
    (λ e. refl, (λ e. absurd (omega (arith, ap length e)), tt)),
    ((λ e. absurd (omega (arith, ap length e)), (λ e. refl, tt)), tt),
  );
  one_t = ((λ e. refl, tt), tt);
}

parse-reordered_example :
    (marshal environment files_swapped ≡ marshal environment a_checkin)
    × (parse environment (marshal environment files_swapped) ≡ ok (canonical a_checkin))
parse-reordered_example =
    parse-reordered environment a_checkin files_swapped a_checkin-IsCarried
      files_swapped-IsReordered

abbrev a_body : Bytes
a_body = codes "B abc\n"

verify_z_iff_example :
    (verify_z environment (a_body ++ z_card environment a_body) ≡ none)
    ↔ ((body : Bytes) × (a_body ++ z_card environment a_body ≡ body ++ z_card environment body))
verify_z_iff_example = verify_z_iff environment (a_body ++ z_card environment a_body)

parse-Ends_example :
    Ends (λ (x : Deck ℕ). Unit) (parse environment (a_body ++ z_card environment a_body))
parse-Ends_example = parse-Ends environment (a_body ++ z_card environment a_body)

calm_text : NoCardW true (
    take
      (length (a_body ++ codes "Z 66666666666666666666666666666666\n") - 35)
      (a_body ++ codes "Z 66666666666666666666666666666666\n"))
calm_text = ground arith

parse-Returns_example :
    Returns
      (λ (x : Deck ℕ). Unit)
      (parse environment (a_body ++ codes "Z 66666666666666666666666666666666\n"))
parse-Returns_example =
    parse-Returns environment (a_body ++ codes "Z 66666666666666666666666666666666\n") calm_text

minus_one : parse_int (trim_space (codes "-1")) ≡ some (negsuc 0)
unfolding parse_int trim_space trim_start trim_end all_space space_width is_space starts_wide_space
    negative_int parse_digits digits_value is_digit
minus_one = refl

parse-w_panics_example :
    parse environment (
      sealed environment
        (marshal_cards environment a_checkin ++ ((b'W' ∷ codes " -1") ++ b'\n' ∷ codes "more\n")))
    ≡ panicked
parse-w_panics_example =
    parse-w_panics environment a_checkin (codes " -1") (codes "more\n") a_checkin-IsCarried
      (ground arith) (inr (b' ', codes "-1", 0, refl, minus_one))

file_of-renamed_example :
    file_of (
      fields
        (f_args (record { name = codes "a"; uuid = codes "aa"; perm = []; old_name = codes "z" })))
    ≡ ok (record {
      name = codes "a";
      uuid = codes "aa";
      perm = fossil_encode (codes "z");
      old_name = [];
    })
file_of-renamed_example =
    file_of-renamed (codes "a") b'a' (codes "a") b'z' [] names.1 words.0 names.2.1

abbrev get_content : Bytes → Option Bytes
get_content uuid = some uuid

compute_r-canonical_example :
    compute_r environment get_content (canonical a_checkin)
    ≡ compute_r environment get_content a_checkin
compute_r-canonical_example = compute_r-canonical environment get_content a_checkin
