-- ===== src/Deck/Refused.antt =====
-- internal/deck: manifests that make `Parse` panic, and a file card that is not read back.
use libfossil.Base.{
  ℕ, suc, ◌+◌, ◌-◌, ◌≤◌, ◌≡◌, refl, arith, ◌∙◌, some, [], ◌∷◌, ◌++◌, append-nil, le→ltb, Bytes,
  length, length-append, All, panicked, ok, ap, ◌⊎◌, inl, inr,
}
use libfossil.Base.Int.{negsuc}
use libfossil.Text.{parse_int, fields}
use libfossil.Text.Split.{trim_space}
use libfossil.Text.Words.{IsWord, IsWordByte, fields-spaced}
use libfossil.Deck.Encode.{fossil_encode}
use libfossil.Deck.Encode.RoundTrip.{fossil_decode-fossil_encode}
use libfossil.Deck.Artifact.{Deck, Environment}
use libfossil.Deck.Marshal.{marshal_cards, z_card, f_args, optional}
use libfossil.Deck.Parse.{parse_w, parse_line, parse_cards, parse, empty_deck, file_of}
use libfossil.Deck.Parse.Lines.{NotNewline, read_line_lem}
use libfossil.Deck.Parse.WordCards.{length-fossil_encode}
use libfossil.Deck.RoundTrip.{parse-z_card}
use libfossil.Deck.RoundTrip.Chain.{marshal_cards-Reads}
use libfossil.Deck.Carried.{IsCarried, sorted_deck}

-- What is behind the letter W: nothing, or a byte and a negative number.
abbrev pub IsBareOrNegative : Bytes → Type 0
IsBareOrNegative line =
    (line ≡ [])
    ⊎ ((c : ℕ) × (s : Bytes) × (n : ℕ) × (line ≡ c ∷ s)
        × (parse_int (trim_space s) ≡ some (negsuc n)))

module _ {T : Type 0} (env : Environment T) where
  -- Cards with the card Z of their checksum behind them.
  abbrev pub sealed : Bytes → Bytes
  sealed body = body ++ z_card env body

  -- A line of the card W that makes its parser panic, whatever follows.
  abbrev PanicsW : Bytes → Type 0
  PanicsW line = (x : Deck T) (r : Bytes) → parse_w env x (b'W' ∷ line) r ≡ panicked

  parse_cards_panics :
      (line rest : Bytes) (last fuel : ℕ) (x : Deck T)
      → All NotNewline line
      → PanicsW line
      → last ≤ b'W'
      → parse_cards env (suc fuel) ((b'W' ∷ line) ++ b'\n' ∷ rest) last x ≡ panicked
  unfolding parse_cards parse_line
  parse_cards_panics line rest last fuel x h p l =
      rw
        (
          read_line_lem (b'W' ∷ line) rest (ground arith, h),
          le→ltb b'W' last l,
          read_line_lem (b'W' ∷ line) rest (ground arith, h),
          p x rest,
        )
        refl

  parse_panics :
      (x : Deck T) (line rest : Bytes)
      → IsCarried env x
      → All NotNewline line
      → PanicsW line
      → parse env (sealed (marshal_cards env x ++ ((b'W' ∷ line) ++ b'\n' ∷ rest))) ≡ panicked
  parse_panics x line rest h a p =
      let tail : Bytes = (b'W' ∷ line) ++ b'\n' ∷ rest in
      let body : Bytes = marshal_cards env x ++ tail in
      let (last, n, l, k, e) = marshal_cards-Reads env x h 0 (omega arith) in
      let f : suc (length body) ≡ n + suc (length body - n) =
        omega (arith, length-append (marshal_cards env x) tail) in
      let run : parse_cards env (suc (length body)) body 0 (empty_deck env) ≡ panicked =
        ap (λ (i : ℕ). parse_cards env i body 0 (empty_deck env)) f
        ∙ e (suc (length body - n)) tail
        ∙ parse_cards_panics line rest last (length body - n) (sorted_deck x) a p l in
      parse-z_card env body ∙ rw run refl

  bare_PanicsW : PanicsW []
  unfolding parse_w
  bare_PanicsW x r = refl

  negative_PanicsW :
      (c : ℕ) (s : Bytes) (n : ℕ) → parse_int (trim_space s) ≡ some (negsuc n) → PanicsW (c ∷ s)
  unfolding parse_w
  negative_PanicsW c s n e x r = rw (le→ltb (length (b'W' ∷ c ∷ s)) 2 (omega arith), e) refl

  negative_PanicsLine : (line : Bytes) → IsBareOrNegative line → PanicsW line
  negative_PanicsLine line (inl e) = rw e bare_PanicsW
  negative_PanicsLine line (inr (c, s, n, e, k)) = rw e (negative_PanicsW c s n k)

-- A line with just the letter W, or with a negative size behind it, makes `Parse` panic on an input
-- whose checksum is right: behind the cards of any deck that the format can carry, whatever follows.
pub parse-w_panics :
    {T : Type 0} (env : Environment T) (x : Deck T) (line rest : Bytes)
    → IsCarried env x
    → All NotNewline line
    → IsBareOrNegative line
    → parse env (sealed env (marshal_cards env x ++ ((b'W' ∷ line) ++ b'\n' ∷ rest))) ≡ panicked
parse-w_panics env x line rest h a p =
    parse_panics env x line rest h a (negative_PanicsLine env line p)

renamed_words :
    (a b c : Bytes)
    → IsWord a
    → IsWord b
    → IsWord c
    → fields (a ++ ((b' ' ∷ (b ++ [])) ++ b' ' ∷ c)) ≡ a ∷ b ∷ c ∷ []
renamed_words a b c ha hb hc =
    simp append-nil (simp append-nil at (fields-spaced a (b ∷ c ∷ []) ha (hb, (hc, tt))))

-- A file card with a former name and no permission is written, and read back with the former name, in
-- its escaped form, as its permission, and with no former name.
pub file_of-renamed :
    (n : Bytes) (u0 : ℕ) (u : Bytes) (o0 : ℕ) (o : Bytes)
    → IsWord (fossil_encode n)
    → IsWord (u0 ∷ u)
    → All IsWordByte (fossil_encode (o0 ∷ o))
    → file_of (fields (f_args (record { name = n; uuid = u0 ∷ u; perm = []; old_name = o0 ∷ o })))
      ≡ ok (record { name = n; uuid = u0 ∷ u; perm = fossil_encode (o0 ∷ o); old_name = [] })
unfolding f_args optional file_of
file_of-renamed n u0 u o0 o hn hu ho =
    rw
      (
        renamed_words (fossil_encode n) (u0 ∷ u) (fossil_encode (o0 ∷ o)) hn hu
            (length-fossil_encode o0 o, ho),
        fossil_decode-fossil_encode n,
      )
      refl
