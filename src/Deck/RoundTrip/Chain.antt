-- ===== src/Deck/RoundTrip/Chain.antt =====
-- internal/deck: the loop of `Parse` on the cards of a deck.
use libfossil.Base.{
  ◌<◌, ℕ, zero, suc, ◌+◌, ◌-◌, ◌≡◌, refl, sym, arith, ◌∙◌, [], ◌++◌, append-nil, Bytes, length, ok,
  ap,
}
use libfossil.Base.Sort.{sort, sort-All}
use libfossil.Deck.Artifact.{Deck, Environment}
use libfossil.Deck.Marshal.{
  plain_card, escaped_card, a_cards, f_args, j_args, d_card, e_card, cards_of, file_less,
  marshal_cards,
}
use libfossil.Deck.Parse.{parse_card, parse_cards, empty_deck}
use libfossil.Deck.Parse.Lines.{Reads, Reads-++}
use libfossil.Deck.Parse.Segments.{
  plain_card-Reads, escaped_card-Reads, a_cards-Reads, d_card-Reads, e_card-Reads, f_args-Reads,
  j_args-Reads,
}
use libfossil.Deck.Parse.WordCards.{IsFile}
use libfossil.Deck.Carried.{IsCarried, sorted_deck}
use libfossil.Deck.RoundTrip.Stages.{
  to_a, to_b, to_c, to_d, to_e, to_f, to_g, to_h, to_i, to_j, to_k, to_l,
}
use libfossil.Deck.RoundTrip.Later.{from_m, from_m-Reads}

module _ {T : Type 0} (env : Environment T) where
  abbrev from_l : Deck T → Bytes
  from_l x = escaped_card b'L' x.l ++ from_m env x

  from_l-Reads :
      (x : Deck T) → IsCarried env x → Reads env b'L' b'W' (from_l x) (to_k env x) (sorted_deck x)
  unfolding parse_card
  from_l-Reads x h =
      Reads-++ env b'L' b'L' b'M' b'W' (escaped_card b'L' x.l) (from_m env x) (to_k env x)
        (to_l env x) (sorted_deck x) (omega arith)
        (escaped_card-Reads env b'L' x.l (λ (s : Bytes). record (to_k env x) { l = s }) refl
          (ground arith) (λ args. refl))
        (from_m-Reads env x h)

  abbrev from_k : Deck T → Bytes
  from_k x = plain_card b'K' x.k ++ from_l x

  from_k-Reads :
      (x : Deck T) → IsCarried env x → Reads env b'K' b'W' (from_k x) (to_j env x) (sorted_deck x)
  unfolding parse_card
  from_k-Reads x h =
      Reads-++ env b'K' b'K' b'L' b'W' (plain_card b'K' x.k) (from_l x) (to_j env x) (to_k env x)
        (sorted_deck x) (omega arith)
        (plain_card-Reads env b'K' x.k (λ (s : Bytes). record (to_j env x) { k = s }) refl
          (ground arith) (λ args. refl) h.k)
        (from_l-Reads x h)

  abbrev from_j : Deck T → Bytes
  from_j x = cards_of b'J' j_args x.j ++ from_k x

  from_j-Reads :
      (x : Deck T) → IsCarried env x → Reads env b'J' b'W' (from_j x) (to_i env x) (sorted_deck x)
  from_j-Reads x h =
      Reads-++ env b'J' b'J' b'K' b'W' (cards_of b'J' j_args x.j) (from_k x) (to_i env x)
        (to_j env x) (sorted_deck x) (omega arith) (j_args-Reads env (to_i env x) x.j h.j)
        (from_k-Reads x h)

  abbrev from_i : Deck T → Bytes
  from_i x = plain_card b'I' x.i ++ from_j x

  from_i-Reads :
      (x : Deck T) → IsCarried env x → Reads env b'I' b'W' (from_i x) (to_h env x) (sorted_deck x)
  unfolding parse_card
  from_i-Reads x h =
      Reads-++ env b'I' b'I' b'J' b'W' (plain_card b'I' x.i) (from_j x) (to_h env x) (to_i env x)
        (sorted_deck x) (omega arith)
        (plain_card-Reads env b'I' x.i (λ (s : Bytes). record (to_h env x) { i = s }) refl
          (ground arith) (λ args. refl) h.i)
        (from_j-Reads x h)

  abbrev from_h : Deck T → Bytes
  from_h x = escaped_card b'H' x.h ++ from_i x

  from_h-Reads :
      (x : Deck T) → IsCarried env x → Reads env b'H' b'W' (from_h x) (to_g env x) (sorted_deck x)
  unfolding parse_card
  from_h-Reads x h =
      Reads-++ env b'H' b'H' b'I' b'W' (escaped_card b'H' x.h) (from_i x) (to_g env x) (to_h env x)
        (sorted_deck x) (omega arith)
        (escaped_card-Reads env b'H' x.h (λ (s : Bytes). record (to_g env x) { h = s }) refl
          (ground arith) (λ args. refl))
        (from_i-Reads x h)

  abbrev from_g : Deck T → Bytes
  from_g x = plain_card b'G' x.g ++ from_h x

  from_g-Reads :
      (x : Deck T) → IsCarried env x → Reads env b'G' b'W' (from_g x) (to_f env x) (sorted_deck x)
  unfolding parse_card
  from_g-Reads x h =
      Reads-++ env b'G' b'G' b'H' b'W' (plain_card b'G' x.g) (from_h x) (to_f env x) (to_g env x)
        (sorted_deck x) (omega arith)
        (plain_card-Reads env b'G' x.g (λ (s : Bytes). record (to_f env x) { g = s }) refl
          (ground arith) (λ args. refl) h.g)
        (from_h-Reads x h)

  abbrev from_f : Deck T → Bytes
  from_f x = cards_of b'F' f_args (sort file_less x.f) ++ from_g x

  from_f-Reads :
      (x : Deck T) → IsCarried env x → Reads env b'F' b'W' (from_f x) (to_e env x) (sorted_deck x)
  from_f-Reads x h =
      Reads-++ env b'F' b'F' b'G' b'W' (cards_of b'F' f_args (sort file_less x.f)) (from_g x)
        (to_e env x) (to_f env x) (sorted_deck x) (omega arith)
        (f_args-Reads env (to_e env x) (sort file_less x.f) (sort-All IsFile file_less x.f h.f))
        (from_g-Reads x h)

  abbrev from_e : Deck T → Bytes
  from_e x = e_card env x.e ++ from_f x

  from_e-Reads :
      (x : Deck T) → IsCarried env x → Reads env b'E' b'W' (from_e x) (to_d env x) (sorted_deck x)
  from_e-Reads x h =
      Reads-++ env b'E' b'E' b'F' b'W' (e_card env x.e) (from_f x) (to_d env x) (to_e env x)
        (sorted_deck x) (omega arith) (e_card-Reads env (to_d env x) x.e h.e) (from_f-Reads x h)

  abbrev from_d : Deck T → Bytes
  from_d x = d_card env x.d ++ from_e x

  from_d-Reads :
      (x : Deck T) → IsCarried env x → Reads env b'D' b'W' (from_d x) (to_c env x) (sorted_deck x)
  from_d-Reads x h =
      Reads-++ env b'D' b'D' b'E' b'W' (d_card env x.d) (from_e x) (to_c env x) (to_d env x)
        (sorted_deck x) (omega arith) (d_card-Reads env (to_c env x) x.d h.d) (from_e-Reads x h)

  abbrev from_c : Deck T → Bytes
  from_c x = escaped_card b'C' x.c ++ from_d x

  from_c-Reads :
      (x : Deck T) → IsCarried env x → Reads env b'C' b'W' (from_c x) (to_b env x) (sorted_deck x)
  unfolding parse_card
  from_c-Reads x h =
      Reads-++ env b'C' b'C' b'D' b'W' (escaped_card b'C' x.c) (from_d x) (to_b env x) (to_c env x)
        (sorted_deck x) (omega arith)
        (escaped_card-Reads env b'C' x.c (λ (s : Bytes). record (to_b env x) { c = s }) refl
          (ground arith) (λ args. refl))
        (from_d-Reads x h)

  abbrev from_b : Deck T → Bytes
  from_b x = plain_card b'B' x.b ++ from_c x

  from_b-Reads :
      (x : Deck T) → IsCarried env x → Reads env b'B' b'W' (from_b x) (to_a env x) (sorted_deck x)
  unfolding parse_card
  from_b-Reads x h =
      Reads-++ env b'B' b'B' b'C' b'W' (plain_card b'B' x.b) (from_c x) (to_a env x) (to_b env x)
        (sorted_deck x) (omega arith)
        (plain_card-Reads env b'B' x.b (λ (s : Bytes). record (to_a env x) { b = s }) refl
          (ground arith) (λ args. refl) h.b)
        (from_c-Reads x h)

  abbrev from_a : Deck T → Bytes
  from_a x = a_cards x.a ++ from_b x

  from_a-Reads :
      (x : Deck T)
      → IsCarried env x
      → Reads env b'A' b'W' (from_a x) (empty_deck env) (sorted_deck x)
  from_a-Reads x h =
      Reads-++ env b'A' b'A' b'B' b'W' (a_cards x.a) (from_b x) (empty_deck env) (to_a env x)
        (sorted_deck x) (omega arith) (a_cards-Reads env (empty_deck env) x.a h.a)
        (from_b-Reads x h)

  pub marshal_cards-Reads :
      (x : Deck T)
      → IsCarried env x
      → Reads env b'A' b'W' (marshal_cards env x) (empty_deck env) (sorted_deck x)
  unfolding marshal_cards
  marshal_cards-Reads x h = from_a-Reads x h

  parse_cards_end :
      (fuel : ℕ) (last : ℕ) (x : Deck T) → 0 < fuel → parse_cards env fuel [] last x ≡ ok x
  unfolding parse_cards
  parse_cards_end zero last x h = absurd (omega arith)
  parse_cards_end (suc fuel) last x h = refl

  pub parse_cards-marshal_cards :
      (x : Deck T)
      → IsCarried env x
      → parse_cards env
          (suc (length (marshal_cards env x)))
          (marshal_cards env x)
          0
          (empty_deck env)
        ≡ ok (sorted_deck x)
  parse_cards-marshal_cards x h =
      let (last, n, l, k, e) = marshal_cards-Reads x h 0 (omega arith) in
      let fuel : ℕ = suc (length (marshal_cards env x)) - n in
      let f : suc (length (marshal_cards env x)) ≡ n + (suc (length (marshal_cards env x)) - n) =
        omega arith in
      ap (λ (i : ℕ). parse_cards env i (marshal_cards env x) 0 (empty_deck env)) f
      ∙ ap (λ (r : Bytes). parse_cards env (n + fuel) r 0 (empty_deck env))
          (sym (append-nil (marshal_cards env x)))
      ∙ e fuel []
      ∙ parse_cards_end fuel last (sorted_deck x) (omega arith)
