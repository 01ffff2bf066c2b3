-- ===== src/Deck/Parse/Calm.antt =====
-- internal/deck/parse.go: only the card W makes `Parse` panic.
use libfossil.Base.{
  ℕ, zero, suc, ◌-◌, ◌<◌, ◌≡◌, ◌≢◌, inl, inr, refl, arith, Bool, true, false, [], ◌∷◌, ltb, ◌==◌,
  Bytes, length, ap, subst⁻¹, take, Option-cases, Bool-cases, List-cases, Returns, Returns->>=,
}
use libfossil.Deck.Artifact.{Deck, Environment}
use libfossil.Deck.Checksum.{verify_z}
use libfossil.Deck.Parse.{read_line, parse_line, parse_cards, empty_deck, parse}
use libfossil.Deck.Parse.Always.{Always}
use libfossil.Deck.Parse.Safety.{Unread, parse_args-Returns, read_line_shorter}

-- No line begins with a `W`; the test says whether a line begins here.
abbrev pub NoCardW : Bool → Bytes → Type 0
NoCardW start [] = Unit
NoCardW start (c ∷ s) = (start ≡ true → c ≢ b'W') × NoCardW (c == b'\n') s

read_line-NoCardW : (start : Bool) (s : Bytes) → NoCardW start s → NoCardW true (read_line s).1
unfolding read_line
read_line-NoCardW start [] h = tt
read_line-NoCardW start (c ∷ s) (hc, h) = elim (Bool-cases (c == b'\n')) [
  | inl e ↦ rw e (rw e at h)
  | inr e ↦ rw e (read_line-NoCardW (c == b'\n') s h)
]

read_line_first : (c card : ℕ) (s more : Bytes) → (read_line (c ∷ s)).0 ≡ card ∷ more → card ≡ c
unfolding read_line
read_line_first c card s more e = elim (Bool-cases (c == b'\n')) [
  | inl f ↦ let g : [] ≡ card ∷ more = rw f at e in absurd (cc)
  | inr f ↦ let g : c ∷ (read_line s).0 ≡ card ∷ more = rw f at e in cc
]

module _ {T : Type 0} (env : Environment T) where
  parse_cards-Always :
      (fuel : ℕ) (r : Bytes) (last : ℕ) (x : Deck T)
      → length r < fuel
      → NoCardW true r
      → Always (parse_cards env fuel r last x)
  unfolding parse_cards
  parse_cards-Always zero r last x h k = absurd (omega arith)
  parse_cards-Always (suc fuel) [] last x h k = tt
  parse_cards-Always (suc fuel) (c ∷ r) last x h k =
      let calm : NoCardW true (read_line (c ∷ r)).1 = read_line-NoCardW true (c ∷ r) k in
      elim (List-cases (read_line (c ∷ r)).0) [
        | inl e ↦ rw e (
            parse_cards-Always fuel (read_line (c ∷ r)).1 last x
              (omega (arith, read_line_shorter c r)) calm)
        | inr (card, more, e) ↦ elim (Bool-cases (ltb card last)) [
          | inl f ↦ rw (e, f) tt
          | inr f ↦
              let first : card ≡ c = read_line_first c card r more e in
              let other : (card == b'W') ≡ false = ground (arith, k.0 refl) in
              rw (e, f)
                (Returns->>= (Unread env (read_line (c ∷ r)).1) (λ y. Unit)
                  (parse_line env x card more (read_line (c ∷ r)).1) _
                  (parse_args-Returns env x card more (read_line (c ∷ r)).1 other)
                  (λ (y, r') u.
                    parse_cards-Always fuel r' card y
                      (omega (arith, read_line_shorter c r, ap length u))
                      (subst⁻¹ (λ (s : Bytes). NoCardW true s) u calm)))
        ]
      ]

-- Where no line in front of the last 35 bytes begins with a `W`, `Parse` returns a deck or an error.
pub parse-Returns :
    {T : Type 0} (env : Environment T) (text : Bytes)
    → NoCardW true (take (length text - 35) text)
    → Returns (λ (x : Deck T). Unit) (parse env text)
unfolding parse
parse-Returns env text k = elim (Option-cases (verify_z env text)) [
  | inr (e, h) ↦ rw (h, parse) tt
  | inl h ↦
      let body : Bytes = take (length text - 35) text in
      rw (h, parse)
        (Returns->>= (λ y. Unit) (λ y. Unit)
          (parse_cards env (suc (length body)) body 0 (empty_deck env)) _
          (parse_cards-Always env (suc (length body)) body 0 (empty_deck env) (omega arith) k)
          (λ y u. tt))
]
