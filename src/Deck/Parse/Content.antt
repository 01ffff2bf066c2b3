-- ===== src/Deck/Parse/Content.antt =====
-- internal/deck: the card W, whose content follows its line, read back.
use libfossil.Base.{
  ℕ, suc, ◌≤◌, ◌<◌, ◌^◌, ◌≡◌, refl, arith, ◌∙◌, some, [], ◌∷◌, ◌++◌, append_assoc, le→ltb, Bytes,
  length, length-append, take_append_length, drop_append_length, ok, ap,
}
use libfossil.Base.Int.{pos}
use libfossil.Text.{format_nat, format_int, parse_int}
use libfossil.Text.Decimal.{parse_int-format_int}
use libfossil.Text.Split.{trim_space, trim_space_word}
use libfossil.Deck.Artifact.{Deck, Environment}
use libfossil.Deck.Parse.{parse_w, parse_line, parse_cards, read_content}
use libfossil.Deck.Parse.Lines.{Reads, nil_Reads}
use libfossil.Text.Printed.{format_nat-IsWord}
use libfossil.Deck.Marshal.{w_card}
use libfossil.Deck.Parse.Lines.{read_line_lem, parse_cards_round, one_plus}
use libfossil.Deck.Parse.OneLine.{word-IsLine}

module _ {T : Type 0} (env : Environment T) where
  read_content-++ :
      (x : Deck T) (s rest : Bytes)
      → length s ≤ env.max_len
      → read_content env x (s ++ b'\n' ∷ rest) (length s) ≡ ok (record x { w = s }, rest)
  unfolding read_content
  read_content-++ x s rest h =
      rw
        (
          le→ltb env.max_len (length s) h,
          le→ltb (length (s ++ b'\n' ∷ rest)) (length s)
              (omega (arith, length-append s (b'\n' ∷ rest))),
          take_append_length s (b'\n' ∷ rest),
          drop_append_length s (b'\n' ∷ rest),
        )
        refl

  length_written :
      (s : Bytes)
      → length s < 2 ^ 63
      → parse_int (trim_space (format_nat (length s))) ≡ some (pos (length s))
  unfolding format_int
  length_written s h =
      rw (trim_space_word (format_nat (length s)) (format_nat-IsWord (length s)).1)
        (parse_int-format_int (pos (length s)) h)

  parse_w_written :
      (x : Deck T) (s rest : Bytes)
      → length s < 2 ^ 63
      → length s ≤ env.max_len
      → parse_line env x b'W' (b' ' ∷ format_nat (length s)) (s ++ b'\n' ∷ rest)
        ≡ ok (record x { w = s }, rest)
  unfolding parse_line parse_w
  parse_w_written x s rest h k =
      rw (le→ltb (length (b'W' ∷ b' ' ∷ format_nat (length s))) 2 (omega arith), length_written s h)
        (read_content-++ x s rest k)

  parse_cards_w :
      (x : Deck T) (s rest : Bytes) (last fuel : ℕ)
      → length s < 2 ^ 63
      → length s ≤ env.max_len
      → last ≤ b'W'
      → parse_cards env
          (suc fuel)
          ((b'W' ∷ b' ' ∷ (format_nat (length s) ++ b'\n' ∷ (s ++ b'\n' ∷ []))) ++ rest)
          last
          x
        ≡ parse_cards env fuel rest b'W' (record x { w = s })
  parse_cards_w x s rest last fuel h k l =
      rw (append_assoc (format_nat (length s)), append_assoc s)
        (parse_cards_round env b'W' b'W'
          (b' ' ∷ (format_nat (length s) ++ b'\n' ∷ (s ++ b'\n' ∷ rest)))
          (b' ' ∷ format_nat (length s)) (s ++ b'\n' ∷ rest) rest x (record x { w = s }) last fuel
          (read_line_lem (b'W' ∷ b' ' ∷ format_nat (length s)) (s ++ b'\n' ∷ rest) (
            ground arith,
            (ground arith, word-IsLine (format_nat (length s)) (format_nat-IsWord (length s)).1),
          ))
          l (parse_w_written x s rest h k))

  w_text_Reads :
      (x : Deck T) (s : Bytes)
      → length s < 2 ^ 63
      → length s ≤ env.max_len
      → Reads env b'W' b'W'
          (b'W' ∷ b' ' ∷ (format_nat (length s) ++ b'\n' ∷ (s ++ b'\n' ∷ [])))
          x
          (record x { w = s })
  w_text_Reads x s h k last l = (
    b'W',
    1,
    omega arith,
    omega arith,
    λ fuel rest.
        ap
          (λ (i : ℕ).
            parse_cards env i
              ((b'W' ∷ b' ' ∷ (format_nat (length s) ++ b'\n' ∷ (s ++ b'\n' ∷ []))) ++ rest) last x)
          (one_plus fuel)
        ∙ parse_cards_w x s rest last fuel h k l,
  )

  pub w_card-Reads :
      (x : Deck T) (s : Bytes)
      → length s < 2 ^ 63
      → length s ≤ env.max_len
      → Reads env b'W' b'W' (w_card s) (record x { w = [] }) (record x { w = s })
  unfolding w_card
  w_card-Reads x [] h k = nil_Reads env b'W' (record x { w = [] })
  w_card-Reads x (c ∷ s) h k = w_text_Reads (record x { w = [] }) (c ∷ s) h k
