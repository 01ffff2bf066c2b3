-- ===== src/Deck/Parse/OneLine.antt =====
-- internal/deck/marshal.go: the arguments of a card are one line.
use libfossil.Base.{
  if◌then◌else◌, ◌<◌, ◌≢◌, arith, Bool, true, false, List, [], ◌∷◌, ◌++◌, Bytes, All, All-append,
}
use libfossil.Text.{fields, format_nat, format_int, parse_int}
use libfossil.Text.Words.{IsWord, IsWordByte, word-NotBreak}
use libfossil.Deck.Encode.{fossil_encode}
use libfossil.Deck.Encode.RoundTrip.{fossil_encode_one_line}
use libfossil.Deck.Artifact.{AttachmentCard, FileCard, TicketField, CherryPick, TagCard}
use libfossil.Deck.Marshal.{is_empty, optional, a_args, f_args, j_args, q_args, t_args, join_words}
use libfossil.Deck.Parse.Lines.{NotNewline}
use libfossil.Deck.Parse.Cards.{IsPiece, IsLine, IsPiece-IsLine, utf8_of_ascii}
use libfossil.Deck.Carried.{IsField}
use libfossil.Deck.Parse.WordCards.{IsFile}

pub word-IsLine : (s : Bytes) → All IsWordByte s → IsLine s
word-IsLine [] h = tt
word-IsLine (c ∷ s) h = ((word-NotBreak (c ∷ s) h).0.0, word-IsLine s h.1)

pub word-IsPiece : (s : Bytes) → All IsWordByte s → IsPiece s
unfolding libfossil.Text.is_space
word-IsPiece [] h = tt
word-IsPiece (c ∷ s) (hc, h) = (ground arith, word-IsPiece s h)

pub encoded-IsLine : (s : Bytes) → IsLine (fossil_encode s)
encoded-IsLine s = IsPiece-IsLine (fossil_encode s) (fossil_encode_one_line s)

optional-IsLine : (s : Bytes) → IsLine s → IsLine (optional s)
unfolding optional
optional-IsLine [] h = tt
optional-IsLine (c ∷ s) h = (ground arith, h)

-- Two fields with a space between them.
pub spaced-IsLine : (s t : Bytes) → IsLine s → IsLine t → IsLine (s ++ b' ' ∷ t)
spaced-IsLine s t h k = All-append NotNewline s (b' ' ∷ t) h (ground arith, k)

pub a_args-IsLine : (x : AttachmentCard) → IsPiece x.target → IsLine x.source → IsLine (a_args x)
unfolding a_args
a_args-IsLine x h k =
    spaced-IsLine (fossil_encode x.filename) (x.target ++ optional x.source)
      (encoded-IsLine x.filename)
      (All-append NotNewline x.target (optional x.source) (IsPiece-IsLine x.target h)
        (optional-IsLine x.source k))

pub j_args-IsLine : (x : TicketField) → IsField x → IsLine (j_args x)
unfolding j_args
j_args-IsLine x h =
    All-append NotNewline (fossil_encode x.name) (optional x.value) (encoded-IsLine x.name)
      (optional-IsLine x.value h)

uuid_IsLine :
    (u p : Bytes)
    → All IsWordByte u
    → All IsWordByte p
    → IsLine (if is_empty u then [] else b' ' ∷ (u ++ optional p))
uuid_IsLine [] p hu hp = tt
uuid_IsLine (c ∷ u) p hu hp = (
  ground arith,
  All-append NotNewline (c ∷ u) (optional p) (word-IsLine (c ∷ u) hu)
      (optional-IsLine p (word-IsLine p hp)),
)

old_name_IsLine : (o : Bytes) → IsLine (if is_empty o then [] else b' ' ∷ fossil_encode o)
old_name_IsLine [] = tt
old_name_IsLine (c ∷ o) = (ground arith, encoded-IsLine (c ∷ o))

pub f_args-IsLine : (x : FileCard) → IsFile x → IsLine (f_args x)
unfolding f_args
f_args-IsLine x (hn, hu, hp, ho, e, e') =
    All-append NotNewline (fossil_encode x.name) _ (encoded-IsLine x.name)
      (All-append NotNewline _ _ (uuid_IsLine x.uuid x.perm hu hp) (old_name_IsLine x.old_name))

pub join_words-IsLine : (ws : List Bytes) → All IsWord ws → IsLine (join_words ws)
unfolding join_words
join_words-IsLine [] h = tt
join_words-IsLine (w ∷ []) (h, hs) = word-IsLine w h.1
join_words-IsLine (w ∷ v ∷ ws) (h, hs) =
    spaced-IsLine w (join_words (v ∷ ws)) (word-IsLine w h.1) (join_words-IsLine (v ∷ ws) hs)

sign_IsLine : (back : Bool) (s : Bytes) → IsLine s → IsLine ((if back then b'-' else b'+') ∷ s)
sign_IsLine true s h = (ground arith, h)
sign_IsLine false s h = (ground arith, h)

pub q_args-IsLine : (x : CherryPick) → IsPiece x.target → IsLine x.baseline → IsLine (q_args x)
unfolding q_args
q_args-IsLine x h k = sign_IsLine x.is_backout (x.target ++ optional x.baseline) (
    All-append NotNewline x.target (optional x.baseline) (IsPiece-IsLine x.target h)
      (optional-IsLine x.baseline k))

pub t_args-IsLine :
    (x : TagCard)
    → x.tag_type < 128
    → x.tag_type ≢ b'\n'
    → IsPiece x.name
    → IsPiece x.uuid
    → IsLine x.value
    → IsLine (t_args x)
unfolding t_args
t_args-IsLine x l k n u v = rw (utf8_of_ascii x.tag_type l) (
  k,
  spaced-IsLine x.name (x.uuid ++ optional x.value) (IsPiece-IsLine x.name n) (
      All-append NotNewline x.uuid (optional x.value) (IsPiece-IsLine x.uuid u)
        (optional-IsLine x.value v)),
)
