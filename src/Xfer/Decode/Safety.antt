-- ===== src/Xfer/Decode/Safety.antt =====
-- internal/xfer/decode.go on any input: reading a card comes to an end, and takes a byte at least.
use libfossil.Base.{
  ℕ, zero, suc, ◌+◌, ◌<◌, ◌≡◌, refl, arith, Bool, true, false, ◌||◌, List, [], ◌∷◌, if◌then◌else◌,
  Bytes, length, Outcome, ok, err, panicked, stuck, Ends, Ends->>=, ◌⊎◌, inl, inr,
}
use libfossil.Text.{trim_right, fields}
use libfossil.Xfer.Card.{
  Card, CardType, card_file, card_cfile, card_igot, card_gimme, card_login, card_push, card_pull,
  card_cookie, card_clone, card_clone_seq_no, card_config, card_req_config, card_private,
  card_uv_file, card_uv_gimme, card_uv_igot, card_pragma, card_error, card_message, card_unknown,
  card_schema, card_xigot, card_xgimme, card_xrow, card_xdelete,
}
use libfossil.Xfer.Wire.{Result, Machine}
use libfossil.Xfer.Encode.{is_empty}
use libfossil.Xfer.Args.Stops.{
  Stops, igot-Stops, gimme-Stops, push-Stops, pull-Stops, cookie-Stops, req_config-Stops,
  private-Stops, clone-Stops, clone_seq_no-Stops, uv_gimme-Stops, pragma-Stops, login-Stops,
  error-Stops, message-Stops, uv_igot-Stops, xigot-Stops, xgimme-Stops,
}
use libfossil.Xfer.Payload.Shrinks.{
  Shrinks, file-Ends, cfile-Ends, config-Ends, uv_file-Ends, schema-Ends, xrow-Ends, xdelete-Ends,
}
use libfossil.Xfer.Decode.{
  command_type, parse_typed, on_line, parse_fields, parse_line, read_string, is_comment,
  decode_loop, decode_card,
}

on_line-Shrinks : (r : Bytes) (c : Result Card) → Stops c → Ends (Shrinks (length r)) (on_line r c)
unfolding on_line
on_line-Shrinks r c h = Ends->>= _ _ c _ h λ a u. omega arith

parse_typed-Shrinks :
    (m : Machine) (r cmd : Bytes) (args : List Bytes) (t : CardType)
    → Ends (Shrinks (length r)) (parse_typed m r cmd args t)
unfolding parse_typed
parse_typed-Shrinks m r cmd args card_igot = on_line-Shrinks r _ (igot-Stops args)
parse_typed-Shrinks m r cmd args card_gimme = on_line-Shrinks r _ (gimme-Stops args)
parse_typed-Shrinks m r cmd args card_push = on_line-Shrinks r _ (push-Stops args)
parse_typed-Shrinks m r cmd args card_pull = on_line-Shrinks r _ (pull-Stops args)
parse_typed-Shrinks m r cmd args card_cookie = on_line-Shrinks r _ (cookie-Stops args)
parse_typed-Shrinks m r cmd args card_req_config = on_line-Shrinks r _ (req_config-Stops args)
parse_typed-Shrinks m r cmd args card_private = on_line-Shrinks r _ (private-Stops args)
parse_typed-Shrinks m r cmd args card_clone = on_line-Shrinks r _ (clone-Stops args)
parse_typed-Shrinks m r cmd args card_clone_seq_no = on_line-Shrinks r _ (clone_seq_no-Stops args)
parse_typed-Shrinks m r cmd args card_uv_gimme = on_line-Shrinks r _ (uv_gimme-Stops args)
parse_typed-Shrinks m r cmd args card_pragma = on_line-Shrinks r _ (pragma-Stops args)
parse_typed-Shrinks m r cmd args card_login = on_line-Shrinks r _ (login-Stops args)
parse_typed-Shrinks m r cmd args card_error = on_line-Shrinks r _ (error-Stops args)
parse_typed-Shrinks m r cmd args card_message = on_line-Shrinks r _ (message-Stops args)
parse_typed-Shrinks m r cmd args card_uv_igot = on_line-Shrinks r _ (uv_igot-Stops args)
parse_typed-Shrinks m r cmd args card_xigot = on_line-Shrinks r _ (xigot-Stops args)
parse_typed-Shrinks m r cmd args card_xgimme = on_line-Shrinks r _ (xgimme-Stops args)
parse_typed-Shrinks m r cmd args card_file = file-Ends m r args
parse_typed-Shrinks m r cmd args card_cfile = cfile-Ends m r args
parse_typed-Shrinks m r cmd args card_config = config-Ends m r args
parse_typed-Shrinks m r cmd args card_uv_file = uv_file-Ends m r args
parse_typed-Shrinks m r cmd args card_schema = schema-Ends m r args
parse_typed-Shrinks m r cmd args card_xrow = xrow-Ends m r args
parse_typed-Shrinks m r cmd args card_xdelete = xdelete-Ends m r args
parse_typed-Shrinks m r cmd args card_unknown = omega arith

parse_line-Shrinks :
    (m : Machine) (r line : Bytes) → Ends (Shrinks (length r)) (parse_line m r line)
unfolding parse_line
parse_line-Shrinks m r line = by_fields (fields line)
  where
    by_fields : (ws : List Bytes) → Ends (Shrinks (length r)) (parse_fields m r ws)
    by_fields [] = unfold parse_fields in tt
    by_fields (cmd ∷ args) =
        unfold parse_fields in parse_typed-Shrinks m r cmd args (command_type cmd)

-- A line that does not end the input takes a byte; at the end of the input, all is taken.
read_string_rest :
    (r : Bytes)
    → (length (read_string r).rest + length (read_string r).text ≡ length r)
      × (((read_string r).at_end ≡ true) ⊎ (0 < length (read_string r).text))
unfolding read_string
read_string_rest [] = (refl, inl refl)
read_string_rest (c ∷ r) = ground (arith, read_string_rest r)

Ends-if {ℓ} :
    {E : Type 0} {A : Type ℓ} (P : A → Type 0) (b : Bool) (m m' : Outcome E A)
    → (b ≡ true → Ends P m)
    → (b ≡ false → Ends P m')
    → Ends P (if b then m else m')
Ends-if P true m m' h h' = h refl
Ends-if P false m m' h h' = h' refl

Ends-mono {ℓ} :
    {E : Type 0} {A : Type ℓ} (P Q : A → Type 0) (m : Outcome E A)
    → ((a : A) → P a → Q a)
    → Ends P m
    → Ends Q m
Ends-mono P Q (ok a) k r = k a r
Ends-mono P Q (err e) k r = tt
Ends-mono P Q panicked k r = tt
Ends-mono P Q stuck k r = r

trim_right-nonempty : (s : Bytes) → is_empty (trim_right s) ≡ false → 0 < length s
unfolding trim_right
trim_right-nonempty [] h = cc
trim_right-nonempty (c ∷ cs) h = omega arith

||-left : (a b : Bool) → (a || b) ≡ false → a ≡ false
||-left true b h = h
||-left false b h = refl

-- The rest is shorter, when there was a text or when the end of the input was not reached.
rest-shorter :
    (r : Bytes)
    → ((read_string r).at_end ≡ false) ⊎ (0 < length (read_string r).text)
    → length (read_string r).rest < length r
rest-shorter r (inl more) = elim (read_string_rest r).1 [
  | inl end ↦ cc
  | inr text ↦ omega (arith, (read_string_rest r).0)
]
rest-shorter r (inr text) = omega (arith, (read_string_rest r).0)

decode_loop-Ends :
    (m : Machine) (fuel : ℕ) (r : Bytes)
    → length r < fuel
    → Ends (λ p. length p.1 < length r) (decode_loop m fuel r)
unfolding decode_loop
decode_loop-Ends m zero r h = omega arith
decode_loop-Ends m (suc fuel) r h =
    let read = read_string r in
    let line = trim_right read.text in
    Ends-if _ (is_empty line || is_comment line) _ _
      (λ _.
        Ends-if _ read.at_end _ _ (λ _. tt)
          λ more.
            Ends-mono (λ p. length p.1 < length read.rest) _ (decode_loop m fuel read.rest)
              (λ p s. omega (arith, rest-shorter r (inl more)))
              (decode_loop-Ends m fuel read.rest (omega (arith, rest-shorter r (inl more)))))
      (λ text.
        let shorter = rest-shorter r (inr (trim_right-nonempty read.text (||-left _ _ text))) in
        Ends-mono (Shrinks (length read.rest)) _ (parse_line m read.rest line) (λ p s. omega arith)
          (parse_line-Shrinks m read.rest line))

-- Reading a card from any input ends, with or without a panic: with an error, or with a card after which less is left to read than before.
pub decode_card-Ends :
    (m : Machine) (r : Bytes) → Ends (λ p. length p.1 < length r) (decode_card m r)
unfolding decode_card
decode_card-Ends m r = decode_loop-Ends m (suc (length r)) r (omega arith)
