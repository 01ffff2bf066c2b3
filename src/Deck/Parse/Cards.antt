-- ===== src/Deck/Parse/Cards.antt =====
-- internal/deck/parse.go: each card read back from what internal/deck/marshal.go writes for it.
use libfossil.Base.{
  ℕ, suc, if◌then◌else◌, ◌<◌, ◌≡◌, ◌≢◌, refl, arith, ◌∙◌, Bool, false, true, [], ◌∷◌, ◌++◌,
  append-nil, Bytes, length, length-append, All, ok, ap,
}
use libfossil.Text.Split.{NoSpace, split_n, split_n_space, split_n_one}
use libfossil.Deck.Encode.{fossil_encode}
use libfossil.Deck.Encode.RoundTrip.{fossil_decode-fossil_encode, fossil_encode_one_line}
use libfossil.Deck.Artifact.{AttachmentCard, TicketField, CherryPick, TagCard}
use libfossil.Deck.Marshal.{optional, a_args, j_args, q_args, t_args, utf8_of}
use libfossil.Deck.Parse.{attachment_of, field_of, pick_of, parse_q, tag_of, parse_t}
use libfossil.Deck.Parse.Lines.{NotNewline}

-- No space and no line break; no line break.
abbrev pub IsPiece : Bytes → Type 0
IsPiece s = All (λ c. (c ≢ b' ') × (c ≢ b'\n')) s

abbrev pub IsLine : Bytes → Type 0
IsLine s = All NotNewline s

IsPiece-NoSpace : (s : Bytes) → IsPiece s → All NoSpace s
IsPiece-NoSpace [] h = tt
IsPiece-NoSpace (c ∷ s) (hc, h) = (hc.0, IsPiece-NoSpace s h)

pub IsPiece-IsLine : (s : Bytes) → IsPiece s → IsLine s
IsPiece-IsLine [] h = tt
IsPiece-IsLine (c ∷ s) (hc, h) = (hc.1, IsPiece-IsLine s h)

pub split_n_piece :
    (n : ℕ) (s rest : Bytes)
    → IsPiece s
    → split_n (suc (suc n)) (s ++ b' ' ∷ rest) ≡ s ∷ split_n (suc n) rest
split_n_piece n s rest h = split_n_space n s rest (IsPiece-NoSpace s h)

-- The last piece is the rest of the line, spaces included.
split_n_last :
    (s : Bytes) (c : ℕ) (v : Bytes)
    → IsPiece s
    → split_n 2 (s ++ optional (c ∷ v)) ≡ s ∷ (c ∷ v) ∷ []
unfolding optional split_n
split_n_last s c v h = split_n_piece 0 s (c ∷ v) h

split_n_none : (n : ℕ) (s : Bytes) → IsPiece s → split_n (suc n) (s ++ optional []) ≡ s ∷ []
unfolding optional
split_n_none n s h = rw append-nil (split_n_one n s (IsPiece-NoSpace s h))

-- `split_n 3`, where two pieces and a rest of the line were written.
split_n_three :
    (s t : Bytes) (c : ℕ) (v : Bytes)
    → IsPiece s
    → IsPiece t
    → split_n 3 (s ++ b' ' ∷ (t ++ optional (c ∷ v))) ≡ s ∷ t ∷ (c ∷ v) ∷ []
split_n_three s t c v h k =
    split_n_piece 1 s (t ++ optional (c ∷ v)) h ∙ ap (◌∷◌ s) (split_n_last t c v k)

split_n_two :
    (s t : Bytes) → IsPiece s → IsPiece t → split_n 3 (s ++ b' ' ∷ (t ++ optional [])) ≡ s ∷ t ∷ []
split_n_two s t h k = split_n_piece 1 s (t ++ optional []) h ∙ ap (◌∷◌ s) (split_n_none 1 t k)

attachment_written :
    (f t s : Bytes)
    → IsPiece t
    → attachment_of (split_n 3 (fossil_encode f ++ b' ' ∷ (t ++ optional s)))
      ≡ ok (record { filename = f; target = t; source = s })
unfolding attachment_of
attachment_written f t [] h =
    rw (split_n_two (fossil_encode f) t (fossil_encode_one_line f) h, fossil_decode-fossil_encode f)
      refl
attachment_written f t (c ∷ s) h =
    rw
      (
        split_n_three (fossil_encode f) t c s (fossil_encode_one_line f) h,
        fossil_decode-fossil_encode f,
      )
      refl

pub attachment_of-a_args :
    (x : AttachmentCard) → IsPiece x.target → attachment_of (split_n 3 (a_args x)) ≡ ok x
unfolding a_args
attachment_of-a_args x h = attachment_written x.filename x.target x.source h

field_written :
    (n v : Bytes)
    → field_of (split_n 2 (fossil_encode n ++ optional v)) ≡ record { name = n; value = v }
unfolding field_of
field_written n [] =
    rw (split_n_none 1 (fossil_encode n) (fossil_encode_one_line n), fossil_decode-fossil_encode n)
      refl
field_written n (c ∷ v) =
    rw
      (split_n_last (fossil_encode n) c v (fossil_encode_one_line n), fossil_decode-fossil_encode n)
      refl

pub field_of-j_args : (x : TicketField) → field_of (split_n 2 (j_args x)) ≡ x
unfolding j_args
field_of-j_args x = field_written x.name x.value

pick_written :
    (back : Bool) (t v : Bytes)
    → IsPiece t
    → pick_of back (split_n 2 (t ++ optional v))
      ≡ record { is_backout = back; target = t; baseline = v }
unfolding pick_of
pick_written back t [] h = rw (split_n_none 1 t h) refl
pick_written back t (c ∷ v) h = rw (split_n_last t c v h) refl

parse_q_sign :
    (back : Bool) (s : Bytes)
    → 0 < length s
    → parse_q ((if back then b'-' else b'+') ∷ s) ≡ ok (pick_of back (split_n 2 s))
unfolding parse_q
parse_q_sign back [] h = absurd (omega arith)
parse_q_sign true (c ∷ s) h = refl
parse_q_sign false (c ∷ s) h = refl

pub parse_q-q_args :
    (x : CherryPick) → IsPiece x.target → 0 < length x.target → parse_q (q_args x) ≡ ok x
unfolding q_args
parse_q-q_args x h l =
    parse_q_sign x.is_backout (x.target ++ optional x.baseline)
      (omega (arith, length-append x.target (optional x.baseline)))
    ∙ ap ok (pick_written x.is_backout x.target x.baseline h)

tag_written :
    (c : ℕ) (n u v : Bytes)
    → IsPiece n
    → IsPiece u
    → tag_of c (split_n 3 (n ++ b' ' ∷ (u ++ optional v)))
      ≡ ok (record { tag_type = c; name = n; uuid = u; value = v })
unfolding tag_of
tag_written c n u [] h k = rw (split_n_two n u h k) refl
tag_written c n u (x ∷ v) h k = rw (split_n_three n u x v h k) refl

parse_t_long : (c : ℕ) (s : Bytes) → 0 < length s → parse_t (c ∷ s) ≡ tag_of c (split_n 3 s)
unfolding parse_t
parse_t_long c [] h = absurd (omega arith)
parse_t_long c (x ∷ s) h = refl

pub utf8_of_ascii : (c : ℕ) → c < 128 → utf8_of c ≡ c ∷ []
unfolding utf8_of
utf8_of_ascii c h = ground arith

pub parse_t-t_args :
    (x : TagCard) → x.tag_type < 128 → IsPiece x.name → IsPiece x.uuid → parse_t (t_args x) ≡ ok x
unfolding t_args
parse_t-t_args x h n u = rw (utf8_of_ascii x.tag_type h) (
    parse_t_long x.tag_type (x.name ++ b' ' ∷ (x.uuid ++ optional x.value))
      (omega (arith, length-append x.name (b' ' ∷ (x.uuid ++ optional x.value))))
    ∙ tag_written x.tag_type x.name x.uuid x.value n u)
