-- ===== src/Delta/Ints.antt =====
-- The base-64 integers of internal/delta/delta.go: `getInt` reads what `appendInt` writes.
use libfossil.Base.{
  ℕ, zero, suc, ◌+◌, ◌*◌, ◌/◌, ◌%◌, ◌^◌, ◌<◌, ◌≡◌, inl, inr, refl, ◌∙◌, arith, Bool, true, false,
  none, some, [], ◌∷◌, ◌++◌, ◌==◌, Bytes, ok, Bool-cases,
}
use native.Mathlib.Nat.{pow-suc}
use libfossil.Base.Bits.{passes_to, passes_to_lem}
use libfossil.Delta.{digits, get_int_loop, get_int, digit_of, int_digits, append_int}

-- The two tables are inverse to one another.
digit_test : ℕ → Bool
digit_test d = elim (digits (digit_of d)) [ none ↦ false | some e ↦ e == d ]

digit_test_sound : (d : ℕ) → digit_test d ≡ true → digits (digit_of d) ≡ some d
unfolding digit_test
digit_test_sound d h = ground arith

digits-digit_of : (d : ℕ) → d < 64 → digits (digit_of d) ≡ some d
unfolding digit_test digits digit_of passes_to
digits-digit_of d h = digit_test_sound d (passes_to_lem digit_test 64 d h refl)

int_digits-append :
    (k v : ℕ) (out rest : Bytes) → int_digits k v out ++ rest ≡ int_digits k v (out ++ rest)
unfolding int_digits
int_digits-append zero v out rest = refl
int_digits-append (suc k) v out rest =
    ground (arith, int_digits-append k (v / 64) (digit_of (v % 64) ∷ out) rest)

-- Reading one digit behind the value so far.
get_int_loop-digit :
    (size d : ℕ) (cs : Bytes) (v : ℕ) (started : Bool)
    → d < 64
    → get_int_loop size (digit_of d ∷ cs) v started
      ≡ get_int_loop size cs ((v * 64 + d) % 2 ^ 64) true
unfolding get_int_loop
get_int_loop-digit size d cs v started h = rw (digits-digit_of d h, get_int_loop)

int_digits-zero : (k : ℕ) (out : Bytes) → int_digits k 0 out ≡ out
unfolding int_digits
int_digits-zero zero out = refl
int_digits-zero (suc k) out = refl

pow_step : (k : ℕ) → 64 ^ suc k ≡ 64 * 64 ^ k
pow_step k = omega (arith, pow-suc 64 k)

-- The digits of `v` bring the loop to the value `v`.
get_int_loop-int_digits :
    (k size v : ℕ) (out : Bytes)
    → 0 < v
    → v < 64 ^ k
    → v < 2 ^ 64
    → get_int_loop size (int_digits k v out) 0 false ≡ get_int_loop size out v true
unfolding int_digits
get_int_loop-int_digits zero size v out positive h w = absurd (omega arith)
get_int_loop-int_digits (suc k) size v out positive h w = ground (
  arith,
  pow_step k,
  int_digits-zero k (digit_of (v % 64) ∷ out),
  get_int_loop-digit size (v % 64) out 0 false (omega arith),
  get_int_loop-digit size (v % 64) out (v / 64) true (omega arith),
  get_int_loop-int_digits k size (v / 64) (digit_of (v % 64) ∷ out),
)

-- What `appendInt` puts behind `buf`.
unfoldable pub int_text : ℕ → Bytes
int_text v = append_int [] v

pub append_int-int_text : (buf : Bytes) (v : ℕ) → append_int buf v ≡ buf ++ int_text v
unfolding append_int int_text
append_int-int_text buf v = ground arith

-- No digit comes next, so that an integer ends here.
abbrev pub EndsInt : Bytes → Type 0
EndsInt [] = Unit {0}
EndsInt (c ∷ cs) = digits c ≡ none

get_int_loop_end :
    (size : ℕ) (rest : Bytes) (v : ℕ)
    → EndsInt rest
    → get_int_loop size rest v true ≡ ok (v, record { size = size; rest = rest })
unfolding get_int_loop
get_int_loop_end size [] v h = refl
get_int_loop_end size (c ∷ cs) v h = rw (h, get_int_loop)

int_text-zero : int_text 0 ≡ b'0' ∷ []
unfolding int_text append_int
int_text-zero = refl

digit_of_zero : digit_of 0 ≡ b'0'
unfolding digit_of
digit_of_zero = refl

int_text-positive : (v : ℕ) → (v == 0) ≡ false → int_text v ≡ int_digits 13 v []
unfolding int_text append_int
int_text-positive v p = rw p

-- Every uint64 is read back from its base-64 text, where what follows does not begin with a digit, and
-- the reader then stands behind it.
pub get_int-int_text :
    (size v : ℕ) (rest : Bytes)
    → v < 2 ^ 64
    → EndsInt rest
    → get_int (record { size = size; rest = int_text v ++ rest })
      ≡ ok (v, record { size = size; rest = rest })
unfolding get_int
get_int-int_text size v rest h e = elim (Bool-cases (v == 0)) [
  | inl z ↦ ground (
    arith,
    int_text-zero,
    get_int_loop_end size rest v e,
    get_int_loop-digit size 0 rest 0 false (omega arith),
    digit_of_zero,
  )
  | inr p ↦
      rw (int_text-positive v p, int_digits-append 13 v [] rest)
        (get_int_loop-int_digits 13 size v rest (ground arith) (omega arith) h
          ∙ get_int_loop_end size rest v e)
]
