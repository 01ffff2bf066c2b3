-- ===== src/Text/Words.antt =====
-- `strings.Fields` on words that are joined by single spaces, and `strings.TrimRight` behind them.
use libfossil.Base.{
  ℕ, ◌<◌, ◌≡◌, ◌≢◌, refl, sym, ◌∙◌, ap, arith, false, List, [], ◌∷◌, ◌++◌, append-nil, append_assoc,
  Bytes, length, All, All-append,
}
use libfossil.Text.{
  is_space, starts_wide_space, space_width, add_word, fields_loop, fields, trim_right,
}

-- No white space begins with this byte.
abbrev pub IsWordByte : ℕ → Type 0
IsWordByte c = (is_space c ≡ false) × (starts_wide_space c ≡ false)

-- A word that `strings.Fields` keeps whole.
abbrev pub IsWord : Bytes → Type 0
IsWord s = (0 < length s) × All IsWordByte s

pub space_width_word : (c : ℕ) (cs : Bytes) → IsWordByte c → space_width c cs ≡ 0
unfolding space_width
space_width_word c cs (h, k) = rw (h, k)

space_width_space : (cs : Bytes) → space_width b' ' cs ≡ 1
unfolding space_width is_space
space_width_space cs = refl

fields_loop_byte :
    (word : Bytes) (c : ℕ) (cs : Bytes)
    → IsWordByte c
    → fields_loop 0 word (c ∷ cs) ≡ fields_loop 0 (word ++ c ∷ []) cs
unfolding fields_loop
fields_loop_byte word c cs h = rw (space_width_word c cs h, fields_loop)

fields_loop_space :
    (word cs : Bytes) → fields_loop 0 word (b' ' ∷ cs) ≡ add_word word (fields_loop 0 [] cs)
unfolding fields_loop
fields_loop_space word cs = rw (space_width_space cs, fields_loop)

fields_loop_word :
    (word s rest : Bytes)
    → All IsWordByte s
    → fields_loop 0 word (s ++ rest) ≡ fields_loop 0 (word ++ s) rest
fields_loop_word word [] rest h = rw append-nil
fields_loop_word word (c ∷ s) rest (hc, h) =
    fields_loop_byte word c (s ++ rest) hc
    ∙ fields_loop_word (word ++ c ∷ []) s rest h
    ∙ rw append_assoc

add_word_lem : (s : Bytes) (ws : List Bytes) → 0 < length s → add_word s ws ≡ s ∷ ws
unfolding add_word
add_word_lem [] ws h = absurd (omega arith)
add_word_lem (c ∷ cs) ws h = refl

-- Each word behind a space.
abbrev pub spaced : List Bytes → Bytes
spaced [] = []
spaced (w ∷ ws) = b' ' ∷ (w ++ spaced ws)

fields_loop-spaced :
    (w : Bytes) (ws : List Bytes)
    → IsWord w
    → All IsWord ws
    → fields_loop 0 [] (w ++ spaced ws) ≡ w ∷ ws
fields_loop-spaced w [] h hs =
    fields_loop_word [] w [] h.1 ∙ unfold fields_loop in add_word_lem w [] h.0
fields_loop-spaced w (v ∷ ws) h (hv, hs) =
    fields_loop_word [] w (spaced (v ∷ ws)) h.1
    ∙ fields_loop_space w (v ++ spaced ws)
    ∙ rw (fields_loop-spaced v ws hv hs, add_word_lem w (v ∷ ws) h.0)

-- Words joined by single spaces are taken apart into these words.
pub fields-spaced :
    (w : Bytes) (ws : List Bytes) → IsWord w → All IsWord ws → fields (w ++ spaced ws) ≡ w ∷ ws
unfolding fields
fields-spaced = fields_loop-spaced

fields_loop_tab :
    (word cs : Bytes) → fields_loop 0 word (b'\t' ∷ cs) ≡ add_word word (fields_loop 0 [] cs)
unfolding fields_loop space_width is_space
fields_loop_tab word cs = refl

fields_loop_one : (b : Bytes) → IsWord b → fields_loop 0 [] b ≡ b ∷ []
fields_loop_one b h = ap (fields_loop 0 []) (sym (append-nil b)) ∙ fields_loop-spaced b [] h tt

-- A tab separates words as a space does.
pub fields-tab :
    (w a b : Bytes)
    → IsWord w
    → IsWord a
    → IsWord b
    → fields (w ++ b' ' ∷ (a ++ b'\t' ∷ b)) ≡ w ∷ a ∷ b ∷ []
unfolding fields
fields-tab w a b hw ha hb =
    fields_loop_word [] w (b' ' ∷ (a ++ b'\t' ∷ b)) hw.1
    ∙ fields_loop_space w (a ++ b'\t' ∷ b)
    ∙ rw (fields_loop_word [] a (b'\t' ∷ b) ha.1, fields_loop_tab a b)
        (rw (fields_loop_one b hb, add_word_lem a (b ∷ []) ha.0) (add_word_lem w (a ∷ b ∷ []) hw.0))

abbrev pub NotBreak : ℕ → Type 0
NotBreak c = (c ≢ b'\n') × (c ≢ b'\r')

-- A line break behind a text without one is all that is trimmed.
pub trim_right_line : (s : Bytes) → All NotBreak s → trim_right (s ++ b'\n' ∷ []) ≡ s
unfolding trim_right
trim_right_line [] h = refl
trim_right_line (c ∷ s) (hc, h) = rw (trim_right_line s h) (ground arith)

IsWordByte-NotBreak : (c : ℕ) → IsWordByte c → NotBreak c
unfolding is_space
IsWordByte-NotBreak c h = ground arith

pub word-NotBreak : (s : Bytes) → All IsWordByte s → All NotBreak s
word-NotBreak [] h = tt
word-NotBreak (c ∷ s) (hc, h) = (IsWordByte-NotBreak c hc, word-NotBreak s h)

pub spaced-NotBreak :
    (w : Bytes) (ws : List Bytes) → All IsWordByte w → All IsWord ws → All NotBreak (w ++ spaced ws)
spaced-NotBreak w [] h hs = rw append-nil (word-NotBreak w h)
spaced-NotBreak w (v ∷ ws) h (hv, hs) =
    All-append NotBreak w (spaced (v ∷ ws)) (word-NotBreak w h)
      (ground arith, spaced-NotBreak v ws hv.1 hs)
