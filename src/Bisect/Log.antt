-- ===== src/Bisect/Log.antt =====
-- internal/bisect/bisect.go: the log in the table vvar, and what `parseSkipSet` reads out of it.
pub mod Told
use libfossil.Base.{
  ℕ, zero, suc, ◌+◌, ◌^◌, ◌≤◌, ◌<◌, ◌≡◌, refl, sym, ap, ◌∙◌, subst, arith, true, false, List, [],
  ◌∷◌, ◌++◌, ◌==◌, if◌then◌else◌, Bool, Option, none, some, append-nil, append_assoc, All,
  All-append, Bytes, length, ok, ◌>>=◌, >>=-ok, suc-==-zero, suc-==-zero,
}
use libfossil.Base.Int.{ℤ, pos, negsuc}
use libfossil.Text.{
  is_space, starts_wide_space, format_nat, format_int, parse_int, fields, fields_loop, add_word,
}
use libfossil.Text.Words.{IsWordByte, IsWord, spaced, fields-spaced}
use libfossil.Text.Decimal.{IsDigit, format_nat-IsDigit, parse_int-format_int}
use libfossil.Text.Printed.{format_nat-IsWord, format_int-IsWord}
use libfossil.Bisect.{
  Session, Result, append_log_entry, mark_good, mark_bad, skip, reset, add_skip, skips_of,
  parse_skip_set,
}

-- The words of a log, joined.
abbrev pub log_text : List Bytes → Bytes
log_text [] = []
log_text (w ∷ ws) = w ++ spaced ws

-- The log of a session is made of these words.
abbrev pub Logs : Session → List Bytes → Type 0
Logs s ws = (s.log ≡ log_text ws) × All IsWord ws

spaced-snoc : (ws : List Bytes) (w : Bytes) → spaced ws ++ b' ' ∷ w ≡ spaced (ws ++ w ∷ [])
spaced-snoc [] w = ap (λ x. b' ' ∷ x) (sym (append-nil w))
spaced-snoc (v ∷ ws) w =
    ap (λ x. b' ' ∷ x) (append_assoc v (spaced ws) (b' ' ∷ w) ∙ ap (λ x. v ++ x) (spaced-snoc ws w))

append_log_entry-log_text :
    (ws : List Bytes) (w : Bytes)
    → All IsWord ws
    → append_log_entry (log_text ws) w ≡ log_text (ws ++ w ∷ [])
unfolding append_log_entry
append_log_entry-log_text [] w h = sym (append-nil w)
append_log_entry-log_text ([] ∷ ws) w h = absurd (omega (arith, h.0.0))
append_log_entry-log_text ((c ∷ v) ∷ ws) w h =
    rw (suc-==-zero (length (v ++ spaced ws)))
      (append_assoc (c ∷ v) (spaced ws) (b' ' ∷ w) ∙ ap (λ x. (c ∷ v) ++ x) (spaced-snoc ws w))

-- The words of a log are read back.
pub parse_skip_set-Logs :
    (s : Session) (ws : List Bytes) → Logs s ws → parse_skip_set s ≡ skips_of ws
unfolding parse_skip_set fields fields_loop add_word
parse_skip_set-Logs s ws (e, h) = ap (λ t. skips_of (fields t)) e ∙ ap skips_of (read ws h)
  where
    read : (ws : List Bytes) → All IsWord ws → fields (log_text ws) ≡ ws
    read [] h = refl
    read (w ∷ ws) (hw, hs) = fields-spaced w ws hw hs

-- The word of a number that is not to be skipped.
IsQuiet : Bytes → Type 0
IsQuiet w = (ids : List ℤ) → add_skip w ids ≡ ids

skips_of-snoc : (ws : List Bytes) (w : Bytes) → IsQuiet w → skips_of (ws ++ w ∷ []) ≡ skips_of ws
unfolding skips_of IsQuiet
skips_of-snoc [] w q = q []
skips_of-snoc (v ∷ ws) w q = ap (add_skip v) (skips_of-snoc ws w q)

digits-IsQuiet : (w : Bytes) → All IsDigit w → IsQuiet w
unfolding IsQuiet add_skip
digits-IsQuiet [] h ids = refl
digits-IsQuiet (c ∷ cs) h ids = let other : (c == b's') ≡ false = ground arith in rw other refl

minus-IsQuiet : (w : Bytes) → IsQuiet (b'-' ∷ w)
unfolding IsQuiet add_skip
minus-IsQuiet w ids = refl

pub add_skip-s :
    (n : ℕ) (ids : List ℤ) → n < 2 ^ 63 → add_skip (b's' ∷ format_nat n) ids ≡ pos n ∷ ids
unfolding add_skip format_int
add_skip-s n ids h = rw (parse_int-format_int (pos n) h) refl

-- One word more in the log.
pub snoc-Logs :
    (s s' : Session) (ws : List Bytes) (w : Bytes)
    → Logs s ws
    → IsWord w
    → s'.log ≡ append_log_entry s.log w
    → Logs s' (ws ++ w ∷ [])
snoc-Logs s s' ws w (e, h) hw g = (
  g ∙ ap (λ t. append_log_entry t w) e ∙ append_log_entry-log_text ws w h,
  All-append IsWord ws (w ∷ []) h (hw, tt),
)

pub s-IsWord : (n : ℕ) → IsWord (b's' ∷ format_nat n)
unfolding is_space starts_wide_space
s-IsWord n = (omega arith, ((refl, refl), (format_nat-IsWord n).1))

pub mark_good-Logs :
    (s s' : Session) (ws : List Bytes) (n : ℕ)
    → Logs s ws
    → mark_good s n ≡ ok s'
    → Logs s' (ws ++ format_nat n ∷ []) × (skips_of (ws ++ format_nat n ∷ []) ≡ skips_of ws)
unfolding mark_good
mark_good-Logs s s' ws zero l h = absurd (cc)
mark_good-Logs s s' ws (suc n) l h = (
  snoc-Logs s s' ws (format_nat (suc n)) l (format_nat-IsWord (suc n)) (log_of h),
  skips_of-snoc ws (format_nat (suc n)) (digits-IsQuiet _ (format_nat-IsDigit (suc n)).0),
)
  where
    log_of :
        ◌≡◌ {A = Result Session}
          (ok (record s {
            good = format_nat (suc n);
            log = append_log_entry s.log (format_nat (suc n));
          }))
          (ok s')
        → s'.log ≡ append_log_entry s.log (format_nat (suc n))
    log_of h = cc

pub mark_bad-Logs :
    (s s' : Session) (ws : List Bytes) (n : ℕ)
    → Logs s ws
    → mark_bad s n ≡ ok s'
    → (w : Bytes) × Logs s' (ws ++ w ∷ []) × (skips_of (ws ++ w ∷ []) ≡ skips_of ws)
unfolding mark_bad format_int
mark_bad-Logs s s' ws zero l h = absurd (cc)
mark_bad-Logs s s' ws (suc n) l h = (
  format_int (negsuc n),
  snoc-Logs s s' ws (format_int (negsuc n)) l (format_int-IsWord (negsuc n)) (cc),
  skips_of-snoc ws (format_int (negsuc n)) (minus-IsQuiet _),
)
