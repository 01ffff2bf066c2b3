-- ===== src/Deck/RoundTrip.antt =====
-- internal/deck: a deck is read back from what `Marshal` writes for it.
mod Stages
mod Later
pub mod Chain
use libfossil.Base.{
  suc, true, false, ℕ, ◌+◌, ◌-◌, ◌≡◌, refl, sym, arith, ◌∙◌, none, [], ◌++◌, Bytes, length,
  length-append, take, ◌>>=◌, take_append_length, ok, ap,
}
use libfossil.Base.Sort.{less_bytes_asym}
use libfossil.Base.Sort.Reordered.{sort-by_key, sort-less_bytes}
use libfossil.Deck.Artifact.{Deck, Environment, FileCard, TagCard}
use libfossil.Deck.Marshal.{file_less, tag_less, tag_key, marshal_cards, marshal, z_card}
use libfossil.Deck.Checksum.{verify_z, length-z_card, verify_z-z_card, cut_body}
use libfossil.Deck.Parse.{parse, parse_cards, empty_deck, infer_type}
use libfossil.Deck.RoundTrip.Chain.{parse_cards-marshal_cards}
use libfossil.Deck.Carried.{IsCarried, IsReordered, canonical, sorted_deck}

-- `Parse` of a text that ends in the right card Z is what its loop makes of the cards.
pub parse-z_card :
    {T : Type 0} (env : Environment T) (body : Bytes)
    → parse env (body ++ z_card env body)
      ≡ parse_cards env (suc (length body)) body 0 (empty_deck env)
        >>= (λ (x : Deck T). ok (record x { artifact_type = infer_type x }))
unfolding parse
parse-z_card env body = rw (verify_z-z_card env body, parse) (rw (cut_body env body) refl)

-- `Parse` reads back every deck that the format can carry from what `Marshal` writes for it: with the
-- cards F, M and T in their order, no card Z, and the type that the cards imply.
pub parse-marshal :
    {T : Type 0} (env : Environment T) (x : Deck T)
    → IsCarried env x
    → parse env (marshal env x) ≡ ok (canonical x)
unfolding marshal
parse-marshal env x h =
    parse-z_card env (marshal_cards env x) ∙ rw (parse_cards-marshal_cards env x h) refl

pub file_less_asym : (x y : FileCard) → file_less x y ≡ true → file_less y x ≡ false
unfolding file_less
file_less_asym x y h = less_bytes_asym x.name y.name h

-- The order of the cards F, M and T of a deck makes no difference to what is written.
marshal-IsReordered :
    {T : Type 0} (env : Environment T) (x y : Deck T)
    → IsReordered x y
    → marshal env y ≡ marshal env x
unfolding marshal marshal_cards file_less tag_less
marshal-IsReordered env x y r =
    ap (marshal env) r.same
    ∙ rw
        (
          sym (sort-by_key (λ (c : FileCard). c.name) x.f y.f r.f r.one_f),
          sym (sort-less_bytes x.m y.m r.m),
          sym (sort-by_key tag_key x.t y.t r.t r.one_t),
        )
        refl

-- A deck that the format can carry has one text: with its cards F, M and T in any order, where
-- equal names and keys mean equal cards, `Marshal` writes the same text, and `Parse` reads from it
-- the one deck in canonical order.
pub parse-reordered :
    {T : Type 0} (env : Environment T) (x y : Deck T)
    → IsCarried env x
    → IsReordered x y
    → (marshal env y ≡ marshal env x) × (parse env (marshal env y) ≡ ok (canonical x))
parse-reordered env x y h r =
    let one = marshal-IsReordered env x y r in (one, ap (parse env) one ∙ parse-marshal env x h)
