-- ===== src/Deck/Parse/Always.antt =====
-- internal/deck/parse.go: the parser of a card returns on every argument.
use libfossil.Base.{
  ℕ, inl, inr, Bool, List, [], ◌∷◌, ◌==◌, if◌then◌else◌, Bytes, Option-cases, ok, ◌>>=◌, Returns,
  Returns->>=, Returns-if,
}
use libfossil.Text.{fields}
use libfossil.Text.Split.{split_n, trim_space}
use libfossil.Deck.Artifact.{Deck, Environment}
use libfossil.Deck.Parse.{
  Result, attachment_of, file_of, parse_q, tag_of, parse_t, try_layouts, upper_t, parse_trimmed,
  parse_timestamp, event_of, parse_card,
}

-- Neither a panic nor an endless loop.
abbrev pub Always {ℓ} : {A : Type ℓ} → Result A → Type 0
Always m = Returns (λ x. Unit) m

attachment_of-Always : (s : List Bytes) → Always (attachment_of s)
unfolding attachment_of
attachment_of-Always [] = tt
attachment_of-Always (x ∷ []) = tt
attachment_of-Always (x ∷ y ∷ []) = tt
attachment_of-Always (x ∷ y ∷ z ∷ s) = tt

file_of-Always : (s : List Bytes) → Always (file_of s)
unfolding file_of
file_of-Always [] = tt
file_of-Always (x ∷ []) = tt
file_of-Always (x ∷ y ∷ []) = tt
file_of-Always (x ∷ y ∷ z ∷ []) = tt
file_of-Always (x ∷ y ∷ z ∷ v ∷ s) = tt

parse_q-Always : (s : Bytes) → Always (parse_q s)
unfolding parse_q
parse_q-Always [] = tt
parse_q-Always (x ∷ []) = tt
parse_q-Always (x ∷ y ∷ s) = tt

tag_of-Always : (c : ℕ) (s : List Bytes) → Always (tag_of c s)
unfolding tag_of
tag_of-Always c [] = tt
tag_of-Always c (x ∷ []) = tt
tag_of-Always c (x ∷ y ∷ []) = tt
tag_of-Always c (x ∷ y ∷ z ∷ s) = tt

parse_t-Always : (s : Bytes) → Always (parse_t s)
unfolding parse_t
parse_t-Always [] = tt
parse_t-Always (x ∷ []) = tt
parse_t-Always (c ∷ y ∷ s) = tag_of-Always c (split_n 3 (y ∷ s))

-- A parser that gives a field, which is put into the deck.
put_Always {ℓ κ} :
    {A : Type ℓ} {B : Type κ} (m : Result A) (put : A → B)
    → Always m
    → Always (m >>= λ (y : A). ok (put y))
put_Always m put h = Returns->>= (λ y. Unit) (λ y. Unit) m (λ y. ok (put y)) h (λ y u. tt)

module _ {T : Type 0} (env : Environment T) where
  parse_trimmed-Always : (s : Bytes) → Always (parse_trimmed env s)
  unfolding parse_trimmed
  parse_trimmed-Always s = elim (Option-cases (try_layouts env s)) [
    | inr (x, e) ↦ rw (e, parse_trimmed) tt
    | inl e ↦ elim (Option-cases (try_layouts env (upper_t s))) [
      | inr (x, f) ↦ rw (e, parse_trimmed) (rw f tt)
      | inl f ↦ rw (e, parse_trimmed) (rw f tt)
    ]
  ]

  parse_timestamp-Always : (s : Bytes) → Always (parse_timestamp env s)
  unfolding parse_timestamp
  parse_timestamp-Always s = parse_trimmed-Always (trim_space s)

  event_of-Always : (s : List Bytes) → Always (event_of env s)
  unfolding event_of
  event_of-Always [] = tt
  event_of-Always (x ∷ []) = tt
  event_of-Always (x ∷ y ∷ []) = put_Always (parse_timestamp env x) _ (parse_timestamp-Always x)
  event_of-Always (x ∷ y ∷ z ∷ s) = tt

  either :
      {A : Type 0} (b : Bool) (m m' : Result A)
      → Always m
      → Always m'
      → Always (if b then m else m')
  either b m m' h h' = Returns-if (λ x. Unit) b m m' h h'

  pub parse_card-Always :
      (x : Deck T) (card : ℕ) (args : Bytes) → Always (parse_card env x card args)
  unfolding parse_card
  parse_card-Always x card args =
      either (card == b'A') _ _
        (put_Always (attachment_of (split_n 3 args)) _ (attachment_of-Always (split_n 3 args)))
        (either (card == b'D') _ _
          (put_Always (parse_timestamp env args) _ (parse_timestamp-Always args))
          (either (card == b'E') _ _
            (put_Always (event_of env (split_n 2 args)) _ (event_of-Always (split_n 2 args)))
            (either (card == b'F') _ _
              (put_Always (file_of (fields args)) _ (file_of-Always (fields args)))
              (either (card == b'J') _ _ tt (
                either (card == b'Q') _ _ (put_Always (parse_q args) _ (parse_q-Always args)) (
                  either (card == b'T') _ _ (put_Always (parse_t args) _ (parse_t-Always args)) (
                    either (card == b'B') _ _ tt (
                      either (card == b'C') _ _ tt (
                        either (card == b'G') _ _ tt (
                          either (card == b'H') _ _ tt (
                            either (card == b'I') _ _ tt (
                              either (card == b'K') _ _ tt (
                                either (card == b'L') _ _ tt (
                                  either (card == b'M') _ _ tt (
                                    either (card == b'N') _ _ tt (
                                      either (card == b'P') _ _ tt (
                                        either (card == b'R') _ _ tt
                                          (either (card == b'U') _ _ tt tt))))))))))))))))))
