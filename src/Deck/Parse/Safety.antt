-- ===== src/Deck/Parse/Safety.antt =====
-- internal/deck/parse.go: `Parse` comes to an end on every text.
use libfossil.Base.{
  ℕ, zero, suc, ◌-◌, ◌≤◌, ◌<◌, ◌≡◌, inl, inr, refl, arith, false, [], ◌∷◌, ltb, ◌==◌, Bytes, length,
  ap, Returns-mono, length-drop, take, drop, Option-cases, Bool-cases, List-cases, Returns-Ends, ok,
  Returns, Returns->>=, Ends, Ends->>=,
}
use libfossil.Base.Int.{pos, negsuc}
use libfossil.Text.{parse_int}
use libfossil.Text.Split.{trim_space}
use libfossil.Deck.Artifact.{Deck, Environment}
use libfossil.Deck.Checksum.{verify_z}
use libfossil.Deck.Parse.{
  read_line, args_of, parse_card, read_content, parse_w, parse_line, parse_cards, empty_deck, parse,
}
use libfossil.Deck.Parse.Always.{parse_card-Always}

read_line-length : (s : Bytes) → length (read_line s).1 ≤ length s
unfolding read_line
read_line-length [] = omega arith
read_line-length (c ∷ s) = ground (arith, read_line-length s)

pub read_line_shorter : (c : ℕ) (s : Bytes) → length (read_line (c ∷ s)).1 ≤ length s
unfolding read_line
read_line_shorter c s = ground (arith, read_line-length s)

module _ {T : Type 0} (env : Environment T) where
  -- What is left to read after a card is no longer than what there was behind its line.
  abbrev Shorter : Bytes → Deck T × Bytes → Type 0
  Shorter r (x, r') = length r' ≤ length r

  abbrev pub Unread : Bytes → Deck T × Bytes → Type 0
  Unread r (x, r') = r' ≡ r

  -- A card that is not W is its line.
  pub parse_args-Returns :
      (x : Deck T) (card : ℕ) (more r : Bytes)
      → (card == b'W') ≡ false
      → Returns (Unread r) (parse_line env x card more r)
  unfolding parse_line
  parse_args-Returns x card more r w = elim (Option-cases (args_of more)) [
    | inl e ↦ rw (w, e) tt
    | inr (args, e) ↦
        rw (w, e)
          (Returns->>= (λ y. Unit) (Unread r) (parse_card env x card args)
            (λ (y : Deck T). ok (y, r)) (parse_card-Always env x card args) (λ y u. refl))
  ]

  read_content-Ends : (x : Deck T) (r : Bytes) (n : ℕ) → Ends (Shorter r) (read_content env x r n)
  unfolding read_content
  read_content-Ends x r n = elim (Bool-cases (ltb env.max_len n)) [
    | inl e ↦ rw e tt
    | inr e ↦ elim (Bool-cases (ltb (length r) n)) [
      | inl f ↦ rw (e, f) tt
      | inr f ↦ rw (e, f) (omega (arith, length-drop 1 (drop n r), length-drop n r))
    ]
  ]

  parse_w-Ends : (x : Deck T) (line r : Bytes) → Ends (Shorter r) (parse_w env x line r)
  unfolding parse_w
  parse_w-Ends x line r = elim (Bool-cases (ltb (length line) 2)) [
    | inl e ↦ rw e tt
    | inr e ↦ elim (Option-cases (parse_int (trim_space (drop 2 line)))) [
      | inl f ↦ rw (e, f) tt
      | inr (negsuc n, f) ↦ rw (e, f) tt
      | inr (pos n, f) ↦ rw (e, f) (read_content-Ends x r n)
    ]
  ]

  parse_line-Ends :
      (x : Deck T) (card : ℕ) (more r : Bytes) → Ends (Shorter r) (parse_line env x card more r)
  parse_line-Ends x card more r = elim (Bool-cases (card == b'W')) [
    | inl e ↦ unfold parse_line in rw e (parse_w-Ends x (card ∷ more) r)
    | inr e ↦ Returns-Ends (Shorter r) (parse_line env x card more r) (
        Returns-mono (Unread r) (Shorter r) (parse_line env x card more r)
          (λ (y, r') u. omega (arith, ap length u)) (parse_args-Returns x card more r e))
  ]

  parse_cards-Ends :
      (fuel : ℕ) (r : Bytes) (last : ℕ) (x : Deck T)
      → length r < fuel
      → Ends (λ y. Unit) (parse_cards env fuel r last x)
  unfolding parse_cards
  parse_cards-Ends zero r last x h = absurd (omega arith)
  parse_cards-Ends (suc fuel) [] last x h = tt
  parse_cards-Ends (suc fuel) (c ∷ r) last x h = elim (List-cases (read_line (c ∷ r)).0) [
    | inl e ↦
        rw e (
          parse_cards-Ends fuel (read_line (c ∷ r)).1 last x (omega (arith, read_line_shorter c r)))
    | inr (card, more, e) ↦ elim (Bool-cases (ltb card last)) [
      | inl f ↦ rw (e, f) tt
      | inr f ↦
          rw (e, f)
            (Ends->>= (Shorter (read_line (c ∷ r)).1) (λ y. Unit)
              (parse_line env x card more (read_line (c ∷ r)).1) _
              (parse_line-Ends x card more (read_line (c ∷ r)).1)
              (λ (y, r') k. parse_cards-Ends fuel r' card y (omega (arith, read_line_shorter c r))))
    ]
  ]

-- `Parse` comes to an end on every text: by a deck, an error or a panic.
pub parse-Ends :
    {T : Type 0} (env : Environment T) (text : Bytes) → Ends (λ (x : Deck T). Unit) (parse env text)
unfolding parse
parse-Ends env text = elim (Option-cases (verify_z env text)) [
  | inr (e, h) ↦ rw (h, parse) tt
  | inl h ↦
      let body : Bytes = take (length text - 35) text in
      rw (h, parse)
        (Ends->>= (λ y. Unit) (λ y. Unit)
          (parse_cards env (suc (length body)) body 0 (empty_deck env)) _
          (parse_cards-Ends env (suc (length body)) body 0 (empty_deck env) (omega arith))
          (λ y u. tt))
]
