-- ===== src/Deck/Parse.antt =====
-- internal/deck/parse.go: `Parse`, the reader of lines, and a parser for each card.
pub mod Lines
pub mod Cards
pub mod WordCards
pub mod OneLine
pub mod Segments
pub mod Content
pub mod Always
pub mod Safety
pub mod Calm
use libfossil.Base.{
  ℕ, zero, suc, ◌-◌, Bool, true, false, not, ◌||◌, Option, none, some, List, [], ◌∷◌, ◌++◌, ltb,
  ◌==◌, if◌then◌else◌, Bytes, length, take, drop, Outcome, ok, err, panicked, stuck, ◌>>=◌,
}
use libfossil.Base.Int.{pos, negsuc}
use libfossil.Text.{parse_int, fields}
use libfossil.Text.Split.{split_n, trim_space}
use libfossil.Deck.Encode.{fossil_decode}
use libfossil.Deck.Artifact.{
  ArtifactType, checkin, wiki, ticket, event, cluster, forum_post, attachment, control,
  AttachmentCard, EventCard, FileCard, TicketField, CherryPick, TagCard, Deck, Environment, Error,
  too_few_fields, bad_timestamp, unknown_card, bad_size, short_content, out_of_order, malformed,
}
use libfossil.Deck.Marshal.{is_empty}
use libfossil.Deck.Checksum.{verify_z}

abbrev pub Result {ℓ} : Type ℓ → Type ℓ
Result A = Outcome Error A

-- The line up to a line break or the end, and what is behind it.
unfoldable pub read_line : Bytes → Bytes × Bytes
read_line [] = ([], [])
read_line (c ∷ r) = let more = read_line r in if c == b'\n' then ([], r) else (c ∷ more.0, more.1)

-- `strings.Replace(s, "t", "T", 1)`
unfoldable pub upper_t : Bytes → Bytes
upper_t [] = []
upper_t (c ∷ s) = let more = upper_t s in if c == b't' then b'T' ∷ s else c ∷ more

unfoldable pub attachment_of : List Bytes → Result AttachmentCard
attachment_of (x ∷ y ∷ []) = ok (record { filename = fossil_decode x; target = y; source = [] })
attachment_of (x ∷ y ∷ s ∷ _) = ok (record { filename = fossil_decode x; target = y; source = s })
attachment_of _ = err too_few_fields

unfoldable pub file_of : List Bytes → Result FileCard
file_of [] = err too_few_fields
file_of (x ∷ []) = ok (record { name = fossil_decode x; uuid = []; perm = []; old_name = [] })
file_of (x ∷ y ∷ []) = ok (record { name = fossil_decode x; uuid = y; perm = []; old_name = [] })
file_of (x ∷ y ∷ s ∷ []) = ok (record { name = fossil_decode x; uuid = y; perm = s; old_name = [] })
file_of (x ∷ y ∷ s ∷ o ∷ _) =
    ok (record { name = fossil_decode x; uuid = y; perm = s; old_name = fossil_decode o })

-- `SplitN` gives at least one piece: the first clause is never reached.
unfoldable pub field_of : List Bytes → TicketField
field_of [] = record { name = []; value = [] }
field_of (x ∷ []) = record { name = fossil_decode x; value = [] }
field_of (x ∷ y ∷ _) = record { name = fossil_decode x; value = y }

unfoldable pub pick_of : Bool → List Bytes → CherryPick
pick_of back [] = record { is_backout = back; target = []; baseline = [] }
pick_of back (x ∷ []) = record { is_backout = back; target = x; baseline = [] }
pick_of back (x ∷ y ∷ _) = record { is_backout = back; target = x; baseline = y }

unfoldable pub parse_q : Bytes → Result CherryPick
parse_q (c ∷ x ∷ rest) = ok (pick_of (c == b'-') (split_n 2 (x ∷ rest)))
parse_q _ = err too_few_fields

unfoldable pub tag_of : ℕ → List Bytes → Result TagCard
tag_of c (x ∷ y ∷ []) = ok (record { tag_type = c; name = x; uuid = y; value = [] })
tag_of c (x ∷ y ∷ v ∷ _) = ok (record { tag_type = c; name = x; uuid = y; value = v })
tag_of c _ = err too_few_fields

unfoldable pub parse_t : Bytes → Result TagCard
parse_t (c ∷ x ∷ rest) = tag_of c (split_n 3 (x ∷ rest))
parse_t _ = err too_few_fields

-- The arguments of a card: a space is behind its letter.
unfoldable pub args_of : Bytes → Option Bytes
args_of [] = none
args_of (s ∷ args) = if s == b' ' then some args else none

unfoldable pub is_some {ℓ} : {A : Type ℓ} → Option A → Bool
is_some none = false
is_some (some _) = true

unfoldable pub infer_type : {T : Type 0} → Deck T → ArtifactType
infer_type x =
    if not (length x.m == 0)
    then cluster
    else if not (is_empty x.g) || not (is_empty x.h) || not (is_empty x.i)
    then forum_post
    else if is_some x.a
    then attachment
    else if not (is_empty x.k)
    then ticket
    else if not (is_empty x.l)
    then wiki
    else if is_some x.e
    then event
    else if not (length x.f == 0) || not (is_empty x.r)
    then checkin
    else if not (length x.t == 0)
    then control
    else checkin

module _ {T : Type 0} (env : Environment T) where
  unfoldable pub try_layouts : Bytes → Option T
  try_layouts s = elim (env.parse_milli s) [ some x ↦ some x | none ↦ env.parse_second s ]

  unfoldable pub parse_trimmed : Bytes → Result T
  parse_trimmed s = elim (try_layouts s) [
    | some x ↦ ok x
    | none ↦ elim (try_layouts (upper_t s)) [ some x ↦ ok x | none ↦ err bad_timestamp ]
  ]

  unfoldable pub parse_timestamp : Bytes → Result T
  parse_timestamp s = parse_trimmed (trim_space s)

  unfoldable pub event_of : List Bytes → Result (EventCard T)
  event_of (x ∷ y ∷ []) = do when ← parse_timestamp x; ok (record { date = when; uuid = y })
  event_of _ = err too_few_fields

  unfoldable pub parse_card : Deck T → ℕ → Bytes → Result (Deck T)
  parse_card x card args =
      if card == b'A'
      then (do y ← attachment_of (split_n 3 args); ok (record x { a = some y }))
      else if card == b'D'
      then (do y ← parse_timestamp args; ok (record x { d = y }))
      else if card == b'E'
      then (do y ← event_of (split_n 2 args); ok (record x { e = some y }))
      else if card == b'F'
      then (do y ← file_of (fields args); ok (record x { f = x.f ++ y ∷ [] }))
      else if card == b'J'
      then ok (record x { j = x.j ++ field_of (split_n 2 args) ∷ [] })
      else if card == b'Q'
      then (do y ← parse_q args; ok (record x { q = x.q ++ y ∷ [] }))
      else if card == b'T'
      then (do y ← parse_t args; ok (record x { t = x.t ++ y ∷ [] }))
      else if card == b'B'
      then ok (record x { b = trim_space args })
      else if card == b'C'
      then ok (record x { c = fossil_decode args })
      else if card == b'G'
      then ok (record x { g = trim_space args })
      else if card == b'H'
      then ok (record x { h = fossil_decode args })
      else if card == b'I'
      then ok (record x { i = trim_space args })
      else if card == b'K'
      then ok (record x { k = trim_space args })
      else if card == b'L'
      then ok (record x { l = fossil_decode args })
      else if card == b'M'
      then ok (record x { m = x.m ++ trim_space args ∷ [] })
      else if card == b'N'
      then ok (record x { n = trim_space args })
      else if card == b'P'
      then ok (record x { p = fields args })
      else if card == b'R'
      then ok (record x { r = trim_space args })
      else if card == b'U'
      then ok (record x { u = fossil_decode args })
      else err unknown_card

  -- `make` panics on a length below 0, and on one that is too long. The byte behind the content is
  -- passed, whatever it is.
  unfoldable pub read_content : Deck T → Bytes → ℕ → Result (Deck T × Bytes)
  read_content x r size =
      if ltb env.max_len size
      then panicked
      else if ltb (length r) size
      then err short_content
      else ok (record x { w = take size r }, drop 1 (drop size r))

  -- `line[2:]` panics on a line of one byte.
  unfoldable pub parse_w : Deck T → Bytes → Bytes → Result (Deck T × Bytes)
  parse_w x line r =
      if ltb (length line) 2 then panicked else elim (parse_int (trim_space (drop 2 line))) [
        | none ↦ err bad_size
        | some (negsuc n) ↦ panicked
        | some (pos n) ↦ read_content x r n
      ]

  -- A line that is not empty: the card's letter and the rest of it.
  unfoldable pub parse_line : Deck T → ℕ → Bytes → Bytes → Result (Deck T × Bytes)
  parse_line x card more r =
      if card == b'W' then parse_w x (card ∷ more) r else elim (args_of more) [
        | none ↦ err malformed
        | some args ↦ do y ← parse_card x card args; ok (y, r)
      ]

  -- The loop over the lines; each round reads a byte. `last` is the letter of the card before.
  unfoldable pub parse_cards : ℕ → Bytes → ℕ → Deck T → Result (Deck T)
  parse_cards zero r last x = stuck
  parse_cards (suc fuel) r last x =
      let again = parse_cards fuel in
      let read = read_line r in
      if is_empty r then ok x else elim read.0 [
        | [] ↦ again read.1 last x
        | card ∷ more ↦
            if ltb card last
            then err out_of_order
            else (do (y, rest) ← parse_line x card more read.1; again rest card y)
      ]

  abbrev pub empty_deck : Deck T
  empty_deck = record {
    artifact_type = checkin;
    a = none;
    b = [];
    c = [];
    d = env.zero_time;
    e = none;
    f = [];
    g = [];
    h = [];
    i = [];
    j = [];
    k = [];
    l = [];
    m = [];
    n = [];
    p = [];
    q = [];
    r = [];
    t = [];
    u = [];
    w = [];
    z = [];
  }

  unfoldable pub parse : Bytes → Result (Deck T)
  parse text = elim (verify_z env text) [
    | some e ↦ err e
    | none ↦
        let body = take (length text - 35) text in
        do
          x ← parse_cards (suc (length body)) body 0 empty_deck
          ok (record x { artifact_type = infer_type x })
  ]
