-- ===== src/Deck/RoundTrip/Stages.antt =====
-- internal/deck/parse.go: the deck that `Parse` has behind each kind of card.
use libfossil.Base.Sort.{less_bytes, sort}
use libfossil.Deck.Artifact.{Deck, Environment}
use libfossil.Deck.Marshal.{file_less, tag_less}
use libfossil.Deck.Parse.{empty_deck}

module _ {T : Type 0} (env : Environment T) where
  -- The deck that the parser has behind each card, and the text from a card on.
  abbrev pub to_a : Deck T → Deck T
  to_a x = record (empty_deck env) { a = x.a }

  abbrev pub to_b : Deck T → Deck T
  to_b x = record (to_a x) { b = x.b }

  abbrev pub to_c : Deck T → Deck T
  to_c x = record (to_b x) { c = x.c }

  abbrev pub to_d : Deck T → Deck T
  to_d x = record (to_c x) { d = x.d }

  abbrev pub to_e : Deck T → Deck T
  to_e x = record (to_d x) { e = x.e }

  abbrev pub to_f : Deck T → Deck T
  to_f x = record (to_e x) { f = sort file_less x.f }

  abbrev pub to_g : Deck T → Deck T
  to_g x = record (to_f x) { g = x.g }

  abbrev pub to_h : Deck T → Deck T
  to_h x = record (to_g x) { h = x.h }

  abbrev pub to_i : Deck T → Deck T
  to_i x = record (to_h x) { i = x.i }

  abbrev pub to_j : Deck T → Deck T
  to_j x = record (to_i x) { j = x.j }

  abbrev pub to_k : Deck T → Deck T
  to_k x = record (to_j x) { k = x.k }

  abbrev pub to_l : Deck T → Deck T
  to_l x = record (to_k x) { l = x.l }

  abbrev pub to_m : Deck T → Deck T
  to_m x = record (to_l x) { m = sort less_bytes x.m }

  abbrev pub to_n : Deck T → Deck T
  to_n x = record (to_m x) { n = x.n }

  abbrev pub to_p : Deck T → Deck T
  to_p x = record (to_n x) { p = x.p }

  abbrev pub to_q : Deck T → Deck T
  to_q x = record (to_p x) { q = x.q }

  abbrev pub to_r : Deck T → Deck T
  to_r x = record (to_q x) { r = x.r }

  abbrev pub to_t : Deck T → Deck T
  to_t x = record (to_r x) { t = sort tag_less x.t }

  abbrev pub to_u : Deck T → Deck T
  to_u x = record (to_t x) { u = x.u }

  abbrev pub to_w : Deck T → Deck T
  to_w x = record (to_u x) { w = x.w }
