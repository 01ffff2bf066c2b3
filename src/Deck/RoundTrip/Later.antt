-- ===== src/Deck/RoundTrip/Later.antt =====
-- internal/deck: the loop of `Parse` on the cards M to W of a deck.
use libfossil.Base.{All, refl, arith, ◌++◌, Bytes}
use libfossil.Base.Sort.{less_bytes, sort, sort-All}
use libfossil.Text.Words.{IsWordByte}
use libfossil.Deck.Artifact.{Deck, Environment}
use libfossil.Deck.Marshal.{
  plain_card, escaped_card, q_args, t_args, p_cards, w_card, cards_of, tag_less,
}
use libfossil.Deck.Parse.{parse_card}
use libfossil.Deck.Parse.Lines.{Reads, Reads-++}
use libfossil.Deck.Parse.Segments.{
  plain_card-Reads, escaped_card-Reads, m_Reads, p_cards-Reads, q_args-Reads, t_args-Reads,
}
use libfossil.Deck.Parse.Content.{w_card-Reads}
use libfossil.Deck.Carried.{IsCarried, sorted_deck, IsTag}
use libfossil.Deck.RoundTrip.Stages.{to_l, to_m, to_n, to_p, to_q, to_r, to_t, to_u}

module _ {T : Type 0} (env : Environment T) where
  abbrev pub from_w : Deck T → Bytes
  from_w x = w_card x.w

  pub from_w-Reads :
      (x : Deck T) → IsCarried env x → Reads env b'W' b'W' (from_w x) (to_u env x) (sorted_deck x)
  from_w-Reads x h = w_card-Reads env (to_u env x) x.w h.w_int h.w_max

  abbrev pub from_u : Deck T → Bytes
  from_u x = escaped_card b'U' x.u ++ from_w x

  pub from_u-Reads :
      (x : Deck T) → IsCarried env x → Reads env b'U' b'W' (from_u x) (to_t env x) (sorted_deck x)
  unfolding parse_card
  from_u-Reads x h =
      Reads-++ env b'U' b'U' b'W' b'W' (escaped_card b'U' x.u) (from_w x) (to_t env x) (to_u env x)
        (sorted_deck x) (omega arith)
        (escaped_card-Reads env b'U' x.u (λ (s : Bytes). record (to_t env x) { u = s }) refl
          (ground arith) (λ args. refl))
        (from_w-Reads x h)

  abbrev pub from_t : Deck T → Bytes
  from_t x = cards_of b'T' t_args (sort tag_less x.t) ++ from_u x

  pub from_t-Reads :
      (x : Deck T) → IsCarried env x → Reads env b'T' b'W' (from_t x) (to_r env x) (sorted_deck x)
  from_t-Reads x h =
      Reads-++ env b'T' b'T' b'U' b'W' (cards_of b'T' t_args (sort tag_less x.t)) (from_u x)
        (to_r env x) (to_t env x) (sorted_deck x) (omega arith)
        (t_args-Reads env (to_r env x) (sort tag_less x.t) (sort-All IsTag tag_less x.t h.t))
        (from_u-Reads x h)

  abbrev pub from_r : Deck T → Bytes
  from_r x = plain_card b'R' x.r ++ from_t x

  pub from_r-Reads :
      (x : Deck T) → IsCarried env x → Reads env b'R' b'W' (from_r x) (to_q env x) (sorted_deck x)
  unfolding parse_card
  from_r-Reads x h =
      Reads-++ env b'R' b'R' b'T' b'W' (plain_card b'R' x.r) (from_t x) (to_q env x) (to_r env x)
        (sorted_deck x) (omega arith)
        (plain_card-Reads env b'R' x.r (λ (s : Bytes). record (to_q env x) { r = s }) refl
          (ground arith) (λ args. refl) h.r)
        (from_t-Reads x h)

  abbrev pub from_q : Deck T → Bytes
  from_q x = cards_of b'Q' q_args x.q ++ from_r x

  pub from_q-Reads :
      (x : Deck T) → IsCarried env x → Reads env b'Q' b'W' (from_q x) (to_p env x) (sorted_deck x)
  from_q-Reads x h =
      Reads-++ env b'Q' b'Q' b'R' b'W' (cards_of b'Q' q_args x.q) (from_r x) (to_p env x)
        (to_q env x) (sorted_deck x) (omega arith) (q_args-Reads env (to_p env x) x.q h.q)
        (from_r-Reads x h)

  abbrev pub from_p : Deck T → Bytes
  from_p x = p_cards x.p ++ from_q x

  pub from_p-Reads :
      (x : Deck T) → IsCarried env x → Reads env b'P' b'W' (from_p x) (to_n env x) (sorted_deck x)
  from_p-Reads x h =
      Reads-++ env b'P' b'P' b'Q' b'W' (p_cards x.p) (from_q x) (to_n env x) (to_p env x)
        (sorted_deck x) (omega arith) (p_cards-Reads env (to_n env x) x.p h.p) (from_q-Reads x h)

  abbrev pub from_n : Deck T → Bytes
  from_n x = plain_card b'N' x.n ++ from_p x

  pub from_n-Reads :
      (x : Deck T) → IsCarried env x → Reads env b'N' b'W' (from_n x) (to_m env x) (sorted_deck x)
  unfolding parse_card
  from_n-Reads x h =
      Reads-++ env b'N' b'N' b'P' b'W' (plain_card b'N' x.n) (from_p x) (to_m env x) (to_n env x)
        (sorted_deck x) (omega arith)
        (plain_card-Reads env b'N' x.n (λ (s : Bytes). record (to_m env x) { n = s }) refl
          (ground arith) (λ args. refl) h.n)
        (from_p-Reads x h)

  abbrev pub from_m : Deck T → Bytes
  from_m x = cards_of b'M' (λ s. s) (sort less_bytes x.m) ++ from_n x

  pub from_m-Reads :
      (x : Deck T) → IsCarried env x → Reads env b'M' b'W' (from_m x) (to_l env x) (sorted_deck x)
  from_m-Reads x h =
      Reads-++ env b'M' b'M' b'N' b'W' (cards_of b'M' (λ s. s) (sort less_bytes x.m)) (from_n x)
        (to_l env x) (to_m env x) (sorted_deck x) (omega arith)
        (m_Reads env (to_l env x) (sort less_bytes x.m)
          (sort-All (All IsWordByte) less_bytes x.m h.m))
        (from_n-Reads x h)
