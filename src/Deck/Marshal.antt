-- ===== src/Deck/Marshal.antt =====
-- internal/deck/marshal.go: `Marshal` and `marshalCards`, a function for each card.
use libfossil.Base.{
  ℕ, ◌+◌, ◌/◌, ◌%◌, Bool, true, false, Option, none, some, List, [], ◌∷◌, ◌++◌, ltb, if◌then◌else◌,
  Bytes, length,
}
use libfossil.Base.Sort.{less_bytes, sort}
use libfossil.Text.{format_nat}
use libfossil.Deck.Encode.{fossil_encode}
use libfossil.Deck.Artifact.{
  AttachmentCard, EventCard, FileCard, TicketField, CherryPick, TagCard, Deck, Environment,
}

abbrev pub is_empty : Bytes → Bool
is_empty [] = true
is_empty (_ ∷ _) = false

-- A card's letter, a space, its arguments and a line break.
unfoldable pub line_of : ℕ → Bytes → Bytes
line_of card args = card ∷ b' ' ∷ (args ++ b'\n' ∷ [])

-- A card for each element, in order.
unfoldable pub cards_of {ℓ} : {A : Type ℓ} → ℕ → (A → Bytes) → List A → Bytes
cards_of card args [] = []
cards_of card args (x ∷ xs) = line_of card (args x) ++ cards_of card args xs

-- A space and the field, if it is not empty.
unfoldable pub optional : Bytes → Bytes
optional s = if is_empty s then [] else b' ' ∷ s

unfoldable pub a_args : AttachmentCard → Bytes
a_args x = fossil_encode x.filename ++ b' ' ∷ (x.target ++ optional x.source)

unfoldable pub a_cards : Option AttachmentCard → Bytes
a_cards none = []
a_cards (some x) = line_of b'A' (a_args x)

-- A card for a text that is not empty, as it is or escaped.
unfoldable pub plain_card : ℕ → Bytes → Bytes
plain_card card s = if is_empty s then [] else line_of card s

unfoldable pub escaped_card : ℕ → Bytes → Bytes
escaped_card card s = if is_empty s then [] else line_of card (fossil_encode s)

unfoldable pub f_args : FileCard → Bytes
f_args x =
    fossil_encode x.name
    ++ ((if is_empty x.uuid then [] else b' ' ∷ (x.uuid ++ optional x.perm))
        ++ (if is_empty x.old_name then [] else b' ' ∷ fossil_encode x.old_name))

unfoldable pub file_less : FileCard → FileCard → Bool
file_less x y = less_bytes x.name y.name

unfoldable pub j_args : TicketField → Bytes
j_args x = fossil_encode x.name ++ optional x.value

-- `strings.Join(words, " ")`
unfoldable pub join_words : List Bytes → Bytes
join_words [] = []
join_words (x ∷ []) = x
join_words (x ∷ y ∷ ys) = x ++ b' ' ∷ join_words (y ∷ ys)

unfoldable pub p_cards : List Bytes → Bytes
p_cards [] = []
p_cards (x ∷ xs) = line_of b'P' (join_words (x ∷ xs))

unfoldable pub q_args : CherryPick → Bytes
q_args x = (if x.is_backout then b'-' else b'+') ∷ (x.target ++ optional x.baseline)

-- A byte as a character: `%c`, and `string(c)`.
unfoldable pub utf8_of : ℕ → Bytes
utf8_of c = if ltb c 128 then c ∷ [] else (0xc0 + c / 64) ∷ (0x80 + c % 64) ∷ []

unfoldable pub t_args : TagCard → Bytes
t_args x = utf8_of x.tag_type ++ (x.name ++ b' ' ∷ (x.uuid ++ optional x.value))

unfoldable pub tag_key : TagCard → Bytes
tag_key x = utf8_of x.tag_type ++ (x.name ++ x.uuid)

unfoldable pub tag_less : TagCard → TagCard → Bool
tag_less x y = less_bytes (tag_key x) (tag_key y)

unfoldable pub w_card : Bytes → Bytes
w_card s =
    if is_empty s then [] else b'W' ∷ b' ' ∷ (format_nat (length s) ++ b'\n' ∷ (s ++ b'\n' ∷ []))

module _ {T : Type 0} (env : Environment T) where
  unfoldable pub d_card : T → Bytes
  d_card x = if env.is_zero x then [] else line_of b'D' (env.format_milli x)

  unfoldable pub e_card : Option (EventCard T) → Bytes
  e_card none = []
  e_card (some x) = line_of b'E' (env.format_second x.date ++ b' ' ∷ x.uuid)

  unfoldable pub marshal_cards : Deck T → Bytes
  marshal_cards x =
      a_cards x.a
      ++ (plain_card b'B' x.b
          ++ (escaped_card b'C' x.c
              ++ (d_card x.d
                  ++ (e_card x.e
                      ++ (cards_of b'F' f_args (sort file_less x.f)
                          ++ (plain_card b'G' x.g
                              ++ (escaped_card b'H' x.h
                                  ++ (plain_card b'I' x.i
                                      ++ (cards_of b'J' j_args x.j
                                          ++ (plain_card b'K' x.k
                                              ++ (escaped_card b'L' x.l
                                                  ++ (cards_of b'M' (λ x. x) (sort less_bytes x.m)
                                                      ++ (plain_card b'N' x.n
                                                          ++ (p_cards x.p
                                                            ++ (cards_of b'Q' q_args x.q
                                                            ++ (plain_card b'R' x.r
                                                            ++ (cards_of b'T' t_args
                                                            (sort tag_less x.t)
                                                            ++ (escaped_card b'U' x.u
                                                            ++ w_card x.w))))))))))))))))))

  unfoldable pub compute_z : Bytes → Bytes
  compute_z s = env.md5_hex s

  -- The line behind the cards: `Z `, the checksum and a line break.
  unfoldable pub z_card : Bytes → Bytes
  z_card body = line_of b'Z' (compute_z body)

  unfoldable pub marshal : Deck T → Bytes
  marshal x = let body = marshal_cards x in body ++ z_card body
