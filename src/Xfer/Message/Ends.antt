-- ===== src/Xfer/Message/Ends.antt =====
-- internal/xfer/message.go on any input: decoding a message comes to an end.
use libfossil.Base.{
  ℕ, zero, suc, ◌<◌, arith, List, [], ◌∷◌, ◌++◌, Bytes, length, ok, err, panicked, stuck, Ends,
}
use libfossil.Xfer.Card.{Card}
use libfossil.Xfer.Wire.{eof, malformed, Result, Machine}
use libfossil.Xfer.Decode.{decode_card}
use libfossil.Xfer.Decode.Safety.{decode_card-Ends}
use libfossil.Xfer.Message.{decode_cards, decode_uncompressed, decode_prefixed, decode}

abbrev Stops : Result (List Card) → Type 0
Stops = Ends (λ _. Unit {0})

decode_cards-Stops :
    (m : Machine) (fuel : ℕ) (r : Bytes) (cards : List Card)
    → length r < fuel
    → Stops (decode_cards m fuel r cards)
unfolding decode_cards
decode_cards-Stops m zero r cards h = omega arith
decode_cards-Stops m (suc fuel) r cards h =
    by_outcome (decode_cards-Stops m fuel) (decode_card m r) (decode_card-Ends m r)
  where
    by_outcome :
        ((r1 : Bytes) (cs : List Card) → length r1 < fuel → Stops (decode_cards m fuel r1 cs))
        → (o : Result (Card × Bytes)) → Ends (λ p. length p.1 < length r) o
        → Stops (elim o [
          | ok (card, r1) ↦ decode_cards m fuel r1 (cards ++ card ∷ [])
          | err eof ↦ ok cards
          | err malformed ↦ err malformed
          | panicked ↦ panicked
          | stuck ↦ stuck
        ])
    by_outcome again (ok (card, r1)) s = again r1 (cards ++ card ∷ []) (omega arith)
    by_outcome again (err eof) s = tt
    by_outcome again (err malformed) s = tt
    by_outcome again panicked s = tt
    by_outcome again stuck s = s

decode_uncompressed-Stops : (m : Machine) (s : Bytes) → Stops (decode_uncompressed m s)
unfolding decode_uncompressed
decode_uncompressed-Stops m s = decode_cards-Stops m (suc (length s)) s [] (omega arith)

-- Decoding a message from any input comes to an end: with the cards, with an error or with a panic.
pub decode-Ends : (m : Machine) (s : Bytes) → Ends (λ _. Unit {0}) (decode m s)
unfolding decode decode_prefixed
decode-Ends m s = grind (arith, decode_uncompressed-Stops)
