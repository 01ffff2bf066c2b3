-- ===== src/Deck/Parse/Lines.antt =====
-- internal/deck/parse.go: the loop of `Parse` on a text whose first lines are known.
use libfossil.Base.{
  ℕ, suc, ◌+◌, ◌≤◌, ◌≡◌, ◌≢◌, refl, arith, ◌∙◌, false, List, [], ◌∷◌, ◌++◌, append_assoc,
  append-nil, le→ltb, ◌==◌, Bytes, length, length-append, All, ok, ap, subst,
}
use libfossil.Deck.Artifact.{Deck, Environment}
use libfossil.Deck.Marshal.{line_of, cards_of}
use libfossil.Deck.Parse.{read_line, parse_card, parse_line, parse_cards, args_of}

abbrev pub NotNewline : ℕ → Type 0
NotNewline c = c ≢ b'\n'

pub read_line_lem : (s rest : Bytes) → All NotNewline s → read_line (s ++ b'\n' ∷ rest) ≡ (s, rest)
unfolding read_line
read_line_lem [] rest h = refl
read_line_lem (c ∷ s) rest (hc, h) = rw (read_line_lem s rest h) (ground arith)

plus_assoc : (a b c : ℕ) → a + b + c ≡ a + (b + c)
plus_assoc a b c = omega arith

zero_plus : (a : ℕ) → 0 + a ≡ a
zero_plus a = omega arith

pub one_plus : (a : ℕ) → 1 + a ≡ suc a
one_plus a = omega arith

module _ {T : Type 0} (env : Environment T) where
  -- The loop passes the text in some rounds, from one deck to another: where the card before is not
  -- behind the first letter, the last card of the text is not behind the second one.
  abbrev pub Reads : ℕ → ℕ → Bytes → Deck T → Deck T → Type 0
  Reads lo hi s x y =
      (last : ℕ)
      → last ≤ lo
      → (last' : ℕ) × (n : ℕ) × (last' ≤ hi)
        × (n ≤ length s)
        × ((fuel : ℕ) (rest : Bytes)
            → parse_cards env (n + fuel) (s ++ rest) last x ≡ parse_cards env fuel rest last' y)

  pub nil_Reads : (card : ℕ) (x : Deck T) → Reads card card [] x x
  nil_Reads card x last h = (
    last,
    0,
    h,
    omega arith,
    λ fuel rest. ap (λ (i : ℕ). parse_cards env i rest last x) (zero_plus fuel),
  )

  -- One text behind another, with no letter before those of the first.
  pub Reads-++ :
      (lo c c' hi : ℕ) (s s' : Bytes) (x y z : Deck T)
      → c ≤ c'
      → Reads lo c s x y
      → Reads c' hi s' y z
      → Reads lo hi (s ++ s') x z
  Reads-++ lo c c' hi s s' x y z le h h' last l =
      let (last1, n, l1, k, e) = h last l in
      let (last2, n', l2, k', e') = h' last1 (omega arith) in
      (
        last2,
        n + n',
        l2,
        omega (arith, length-append s s'),
        λ fuel rest.
            ap (λ (i : ℕ). parse_cards env i ((s ++ s') ++ rest) last x) (plus_assoc n n' fuel)
            ∙ ap (λ (r : Bytes). parse_cards env (n + (n' + fuel)) r last x)
                (append_assoc s s' rest)
            ∙ e (n' + fuel) (s' ++ rest)
            ∙ e' fuel rest,
      )

  -- A round of the loop on a line that can be parsed.
  pub parse_cards_round :
      (c card : ℕ) (r more rest rest' : Bytes) (x y : Deck T) (last fuel : ℕ)
      → read_line (c ∷ r) ≡ (card ∷ more, rest)
      → last ≤ card
      → parse_line env x card more rest ≡ ok (y, rest')
      → parse_cards env (suc fuel) (c ∷ r) last x ≡ parse_cards env fuel rest' card y
  unfolding parse_cards
  parse_cards_round c card r more rest rest' x y last fuel e l p =
      rw (e, le→ltb card last l, e, p) refl

  parse_line_args :
      (card : ℕ) (args rest : Bytes) (x y : Deck T)
      → (card == b'W') ≡ false
      → parse_card env x card args ≡ ok y
      → parse_line env x card (b' ' ∷ args) rest ≡ ok (y, rest)
  unfolding parse_line args_of
  parse_line_args card args rest x y w e = rw (w, e) refl

  parse_cards-line_of :
      (card : ℕ) (args : Bytes) (x y : Deck T) (last fuel : ℕ) (rest : Bytes)
      → (card == b'W') ≡ false
      → card ≢ b'\n'
      → All NotNewline args
      → parse_card env x card args ≡ ok y
      → last ≤ card
      → parse_cards env (suc fuel) (line_of card args ++ rest) last x
        ≡ parse_cards env fuel rest card y
  unfolding line_of
  parse_cards-line_of card args x y last fuel rest w k h e l = rw append_assoc (
      parse_cards_round card card (b' ' ∷ (args ++ b'\n' ∷ rest)) (b' ' ∷ args) rest rest x y last
        fuel (read_line_lem (card ∷ b' ' ∷ args) rest (k, (ground arith, h))) l
        (parse_line_args card args rest x y w e))

  pub line_of-Reads :
      (card : ℕ) (args : Bytes) (x y : Deck T)
      → (card == b'W') ≡ false
      → card ≢ b'\n'
      → All NotNewline args
      → parse_card env x card args ≡ ok y
      → Reads card card (line_of card args) x y
  line_of-Reads card args x y w k h e last l = (
    card,
    1,
    omega arith,
    unfold line_of in omega arith,
    λ fuel rest.
        ap (λ (i : ℕ). parse_cards env i (line_of card args ++ rest) last x) (one_plus fuel)
        ∙ parse_cards-line_of card args x y last fuel rest w k h e l,
  )

  -- A card for each element of a list, where each card adds its element to the deck.
  pub cards_of-Reads {ℓ} :
      {A : Type ℓ} (P : A → Type 0) (card : ℕ) (args : A → Bytes) (set : List A → Deck T)
      → (card == b'W') ≡ false
      → card ≢ b'\n'
      → ((x : A) → P x → All NotNewline (args x))
      → ((done : List A) (x : A)
          → P x
          → parse_card env (set done) card (args x) ≡ ok (set (done ++ x ∷ [])))
      → (done xs : List A) → All P xs
      → Reads card card (cards_of card args xs) (set done) (set (done ++ xs))
  unfolding cards_of
  cards_of-Reads P card args set w k lines each done [] h =
      rw append-nil (nil_Reads card (set done))
  cards_of-Reads {A = A} P card args set w k lines each done (x ∷ xs) (hx, h) =
      Reads-++ card card card card (line_of card (args x)) (cards_of card args xs) (set done)
        (set (done ++ x ∷ [])) (set (done ++ x ∷ xs)) (omega arith)
        (line_of-Reads card (args x) (set done) (set (done ++ x ∷ [])) w k (lines x hx)
          (each done x hx))
        (subst
          (λ (l : List A). Reads card card (cards_of card args xs) (set (done ++ x ∷ [])) (set l))
          (append_assoc done (x ∷ []) xs)
          (cards_of-Reads P card args set w k lines each (done ++ x ∷ []) xs h))
