-- ===== src/Text/Split.antt =====
-- `strings.SplitN` at spaces and `strings.TrimSpace`.
use libfossil.Base.{
  ℕ, zero, suc, ◌≡◌, ◌≢◌, refl, arith, Bool, true, false, List, [], ◌∷◌, ◌++◌, ◌==◌, if◌then◌else◌,
  Bytes, All,
}
use libfossil.Text.{space_width}
use libfossil.Text.Words.{IsWordByte, space_width_word}

unfoldable pub begin_first : ℕ → List Bytes → List Bytes
begin_first c [] = (c ∷ []) ∷ []
begin_first c (w ∷ ws) = (c ∷ w) ∷ ws

-- `strings.SplitN(s, " ", n)` for a positive `n`.
unfoldable pub split_n : ℕ → Bytes → List Bytes
split_n zero s = []
split_n (suc zero) s = s ∷ []
split_n (suc (suc n)) [] = [] ∷ []
split_n (suc (suc n)) (c ∷ cs) =
    let here = split_n (suc (suc n)) cs in
    let behind = split_n (suc n) cs in if c == b' ' then [] ∷ behind else begin_first c here

-- The text is white space from here on; the first number counts the bytes of a character to be passed.
unfoldable pub all_space : ℕ → Bytes → Bool
all_space zero [] = true
all_space (suc k) [] = false
all_space (suc k) (c ∷ cs) = all_space k cs
all_space zero (c ∷ cs) = elim (space_width c cs) [ zero ↦ false | suc k ↦ all_space k cs ]

unfoldable pub trim_end : Bytes → Bytes
trim_end [] = []
trim_end (c ∷ cs) = let rest = trim_end cs in if all_space 0 (c ∷ cs) then [] else c ∷ rest

unfoldable pub trim_start : ℕ → Bytes → Bytes
trim_start k [] = []
trim_start (suc k) (c ∷ cs) = trim_start k cs
trim_start zero (c ∷ cs) = elim (space_width c cs) [ zero ↦ c ∷ cs | suc k ↦ trim_start k cs ]

unfoldable pub trim_space : Bytes → Bytes
trim_space s = trim_end (trim_start 0 s)

abbrev pub NoSpace : ℕ → Type 0
NoSpace c = c ≢ b' '

-- The first piece ends at the first space.
pub split_n_space :
    (n : ℕ) (w rest : Bytes)
    → All NoSpace w
    → split_n (suc (suc n)) (w ++ b' ' ∷ rest) ≡ w ∷ split_n (suc n) rest
unfolding split_n begin_first
split_n_space n [] rest h = refl
split_n_space n (c ∷ w) rest (hc, h) = rw (split_n_space n w rest h) (ground arith)

pub split_n_one : (n : ℕ) (w : Bytes) → All NoSpace w → split_n (suc n) w ≡ w ∷ []
unfolding split_n begin_first
split_n_one zero w h = refl
split_n_one (suc n) [] h = refl
split_n_one (suc n) (c ∷ w) (hc, h) = rw (split_n_one (suc n) w h) (ground arith)

all_space_word : (c : ℕ) (cs : Bytes) → IsWordByte c → all_space 0 (c ∷ cs) ≡ false
unfolding all_space
all_space_word c cs h = rw (space_width_word c cs h, all_space) refl

trim_end_word : (w : Bytes) → All IsWordByte w → trim_end w ≡ w
unfolding trim_end
trim_end_word [] h = refl
trim_end_word (c ∷ w) (hc, h) = rw (trim_end_word w h, all_space_word c w hc) refl

trim_start_word : (w : Bytes) → All IsWordByte w → trim_start 0 w ≡ w
unfolding trim_start
trim_start_word [] h = refl
trim_start_word (c ∷ w) (hc, h) = rw (space_width_word c w hc, trim_start) refl

-- A word has nothing to trim.
pub trim_space_word : (w : Bytes) → All IsWordByte w → trim_space w ≡ w
unfolding trim_space
trim_space_word w h = rw (trim_start_word w h) (trim_end_word w h)
