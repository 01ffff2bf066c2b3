-- ===== src/Deck/Parse/Segments.antt =====
-- internal/deck: the loop of `Parse` on what `marshalCards` writes for one kind of card.
use libfossil.Base.{
  ℕ, ◌≡◌, ◌≢◌, refl, inl, inr, arith, ◌∙◌, false, Option, none, some, List, [], ◌∷◌, ◌++◌, ◌==◌,
  Bytes, All, ok, ap,
}
use libfossil.Text.Words.{IsWord, IsWordByte}
use libfossil.Text.Split.{trim_space, trim_space_word}
use libfossil.Deck.Encode.{fossil_encode, fossil_decode}
use libfossil.Deck.Encode.RoundTrip.{fossil_decode-fossil_encode}
use libfossil.Deck.Artifact.{
  Deck, Environment, AttachmentCard, EventCard, FileCard, TicketField, CherryPick, TagCard,
}
use libfossil.Deck.Marshal.{
  plain_card, escaped_card, a_args, a_cards, f_args, j_args, q_args, t_args, join_words, p_cards,
  d_card, e_card, cards_of,
}
use libfossil.Deck.Parse.{parse_card}
use libfossil.Deck.Parse.Lines.{Reads, nil_Reads, line_of-Reads, cards_of-Reads}
use libfossil.Deck.Parse.Cards.{
  attachment_of-a_args, field_of-j_args, parse_q-q_args, parse_t-t_args,
}
use libfossil.Deck.Carried.{IsAttachment, IsField, IsPick, IsTag, IsEvent, IsDate}
use libfossil.Deck.Parse.WordCards.{
  IsFile, file_of-f_args, fields-join_words, parse_timestamp_milli, event_written,
}
use libfossil.Deck.Parse.OneLine.{
  word-IsLine, word-IsPiece, encoded-IsLine, spaced-IsLine, a_args-IsLine, j_args-IsLine,
  f_args-IsLine, join_words-IsLine, q_args-IsLine, t_args-IsLine,
}

module _ {T : Type 0} (env : Environment T) where
  pub plain_card-Reads :
      (card : ℕ) (s : Bytes) (set : Bytes → Deck T)
      → (card == b'W') ≡ false
      → card ≢ b'\n'
      → ((args : Bytes) → parse_card env (set []) card args ≡ ok (set (trim_space args)))
      → All IsWordByte s
      → Reads env card card (plain_card card s) (set []) (set s)
  unfolding plain_card
  plain_card-Reads card [] set w k e h = nil_Reads env card (set [])
  plain_card-Reads card (c ∷ s) set w k e h =
      line_of-Reads env card (c ∷ s) (set []) (set (c ∷ s)) w k (word-IsLine (c ∷ s) h)
        (e (c ∷ s) ∙ ap (λ (v : Bytes). ok (set v)) (trim_space_word (c ∷ s) h))

  pub escaped_card-Reads :
      (card : ℕ) (s : Bytes) (set : Bytes → Deck T)
      → (card == b'W') ≡ false
      → card ≢ b'\n'
      → ((args : Bytes) → parse_card env (set []) card args ≡ ok (set (fossil_decode args)))
      → Reads env card card (escaped_card card s) (set []) (set s)
  unfolding escaped_card
  escaped_card-Reads card [] set w k e = nil_Reads env card (set [])
  escaped_card-Reads card (c ∷ s) set w k e =
      line_of-Reads env card (fossil_encode (c ∷ s)) (set []) (set (c ∷ s)) w k
        (encoded-IsLine (c ∷ s))
        (e (fossil_encode (c ∷ s))
          ∙ ap (λ (v : Bytes). ok (set v)) (fossil_decode-fossil_encode (c ∷ s)))

  pub a_cards-Reads :
      (x : Deck T) (a : Option AttachmentCard)
      → IsAttachment a
      → Reads env b'A' b'A' (a_cards a) (record x { a = none }) (record x { a = a })
  unfolding a_cards parse_card
  a_cards-Reads x none h = nil_Reads env b'A' (record x { a = none })
  a_cards-Reads x (some y) (h, k) =
      line_of-Reads env b'A' (a_args y) (record x { a = none }) (record x { a = some y }) refl
        (ground arith) (a_args-IsLine y h k) (rw (attachment_of-a_args y h) refl)

  pub d_card-Reads :
      (x : Deck T) (d : T)
      → IsDate env d
      → Reads env b'D' b'D' (d_card env d) (record x { d = env.zero_time }) (record x { d = d })
  unfolding d_card parse_card
  d_card-Reads x d (inl e) =
      rw (e, env.is_zero-zero_time) (nil_Reads env b'D' (record x { d = env.zero_time }))
  d_card-Reads x d (inr (e, h)) = rw e (
      line_of-Reads env b'D' (env.format_milli d) (record x { d = env.zero_time })
        (record x { d = d }) refl (ground arith)
        (word-IsLine (env.format_milli d) (env.format_milli-IsWord d).1)
        (rw (parse_timestamp_milli env d h) refl))

  pub e_card-Reads :
      (x : Deck T) (e : Option (EventCard T))
      → IsEvent env e
      → Reads env b'E' b'E' (e_card env e) (record x { e = none }) (record x { e = e })
  unfolding e_card parse_card
  e_card-Reads x none h = nil_Reads env b'E' (record x { e = none })
  e_card-Reads x (some y) (h, k) =
      let word : All IsWordByte (env.format_second y.date) = (env.format_second-IsWord y.date).1 in
      line_of-Reads env b'E' (env.format_second y.date ++ b' ' ∷ y.uuid) (record x { e = none })
        (record x { e = some y }) refl (ground arith)
        (spaced-IsLine (env.format_second y.date) y.uuid
          (word-IsLine (env.format_second y.date) word) k)
        (rw (event_written env y h (word-IsPiece (env.format_second y.date) word)) refl)

  pub f_args-Reads :
      (x : Deck T) (f : List FileCard)
      → All IsFile f
      → Reads env b'F' b'F' (cards_of b'F' f_args f) (record x { f = [] }) (record x { f = f })
  unfolding parse_card
  f_args-Reads x f h =
      cards_of-Reads env IsFile b'F' f_args (λ (l : List FileCard). record x { f = l }) refl
        (ground arith) f_args-IsLine (λ done y k. rw (file_of-f_args y k) refl) [] f h

  pub j_args-Reads :
      (x : Deck T) (j : List TicketField)
      → All IsField j
      → Reads env b'J' b'J' (cards_of b'J' j_args j) (record x { j = [] }) (record x { j = j })
  unfolding parse_card
  j_args-Reads x j h =
      cards_of-Reads env IsField b'J' j_args (λ (l : List TicketField). record x { j = l }) refl
        (ground arith) j_args-IsLine (λ done y k. rw (field_of-j_args y) refl) [] j h

  pub m_Reads :
      (x : Deck T) (m : List Bytes)
      → All (All IsWordByte) m
      → Reads env b'M' b'M' (cards_of b'M' (λ s. s) m) (record x { m = [] }) (record x { m = m })
  unfolding parse_card
  m_Reads x m h =
      cards_of-Reads env (All IsWordByte) b'M' (λ s. s) (λ (l : List Bytes). record x { m = l })
        refl (ground arith) word-IsLine (λ done y k. rw (trim_space_word y k) refl) [] m h

  pub p_cards-Reads :
      (x : Deck T) (p : List Bytes)
      → All IsWord p
      → Reads env b'P' b'P' (p_cards p) (record x { p = [] }) (record x { p = p })
  unfolding p_cards parse_card
  p_cards-Reads x [] h = nil_Reads env b'P' (record x { p = [] })
  p_cards-Reads x (w ∷ ws) h =
      line_of-Reads env b'P' (join_words (w ∷ ws)) (record x { p = [] }) (record x { p = w ∷ ws })
        refl (ground arith) (join_words-IsLine (w ∷ ws) h) (rw (fields-join_words w ws h) refl)

  pub q_args-Reads :
      (x : Deck T) (q : List CherryPick)
      → All IsPick q
      → Reads env b'Q' b'Q' (cards_of b'Q' q_args q) (record x { q = [] }) (record x { q = q })
  unfolding parse_card
  q_args-Reads x q h =
      cards_of-Reads env IsPick b'Q' q_args (λ (l : List CherryPick). record x { q = l }) refl
        (ground arith) (λ y k. q_args-IsLine y k.0 k.2)
        (λ done y k. rw (parse_q-q_args y k.0 k.1) refl) [] q h

  pub t_args-Reads :
      (x : Deck T) (t : List TagCard)
      → All IsTag t
      → Reads env b'T' b'T' (cards_of b'T' t_args t) (record x { t = [] }) (record x { t = t })
  unfolding parse_card
  t_args-Reads x t h =
      cards_of-Reads env IsTag b'T' t_args (λ (l : List TagCard). record x { t = l }) refl
        (ground arith) (λ y k. t_args-IsLine y k.0 k.1 k.2 k.3 k.4)
        (λ done y k. rw (parse_t-t_args y k.0 k.2 k.3) refl) [] t h
