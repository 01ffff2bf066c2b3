-- ===== src/Deck/Parse/WordCards.antt =====
-- internal/deck/parse.go: the cards that `strings.Fields` takes apart, and the times, read back.
use libfossil.Base.{
  ℕ, ◌<◌, ◌≡◌, refl, arith, List, [], ◌∷◌, ◌++◌, append_assoc, append-nil, Bytes, length,
  length-append, All, ok,
}
use libfossil.Text.{fields}
use libfossil.Text.Words.{IsWord, IsWordByte, spaced, fields-spaced}
use libfossil.Text.Split.{split_n, trim_space_word}
use libfossil.Deck.Encode.{encode_byte, fossil_encode}
use libfossil.Deck.Encode.RoundTrip.{fossil_decode-fossil_encode}
use libfossil.Deck.Artifact.{Environment, FileCard, EventCard}
use libfossil.Deck.Marshal.{optional, f_args, join_words}
use libfossil.Deck.Parse.{file_of, parse_timestamp, parse_trimmed, try_layouts, event_of}
use libfossil.Deck.Parse.Cards.{IsPiece, split_n_piece}

-- The words of the card F; a field that is not written leaves no later one to be written.
abbrev pub IsFile : FileCard → Type 0
IsFile x =
    IsWord (fossil_encode x.name)
    × All IsWordByte x.uuid
    × All IsWordByte x.perm
    × All IsWordByte (fossil_encode x.old_name)
    × (x.uuid ≡ [] → (x.perm ≡ []) × (x.old_name ≡ []))
    × (x.perm ≡ [] → x.old_name ≡ [])

pub length-fossil_encode : (c : ℕ) (s : Bytes) → 0 < length (fossil_encode (c ∷ s))
unfolding fossil_encode encode_byte
length-fossil_encode c s = ground (arith, length-append (encode_byte c) (fossil_encode s))

two_words :
    (a b : Bytes) → IsWord a → IsWord b → fields (a ++ ((b' ' ∷ (b ++ [])) ++ [])) ≡ a ∷ b ∷ []
two_words a b ha hb = simp append-nil (simp append-nil at (fields-spaced a (b ∷ []) ha (hb, tt)))

pub three_words :
    (a b c : Bytes)
    → IsWord a
    → IsWord b
    → IsWord c
    → fields (a ++ ((b' ' ∷ (b ++ b' ' ∷ c)) ++ [])) ≡ a ∷ b ∷ c ∷ []
three_words a b c ha hb hc =
    simp append-nil (simp append-nil at (fields-spaced a (b ∷ c ∷ []) ha (hb, (hc, tt))))

four_words :
    (a b c d : Bytes)
    → IsWord a
    → IsWord b
    → IsWord c
    → IsWord d
    → fields (a ++ ((b' ' ∷ (b ++ b' ' ∷ c)) ++ b' ' ∷ d)) ≡ a ∷ b ∷ c ∷ d ∷ []
four_words a b c d ha hb hc hd =
    simp append_assoc
      (simp append-nil at (fields-spaced a (b ∷ c ∷ d ∷ []) ha (hb, (hc, (hd, tt)))))

-- What `f_args` writes, with the fields as arguments.
abbrev file_text : Bytes → Bytes → Bytes → Bytes → Bytes
file_text n u p o = f_args (record { name = n; uuid = u; perm = p; old_name = o })

fields_file :
    (n u p o : Bytes)
    → IsFile (record { name = n; uuid = u; perm = p; old_name = o })
    → file_of (fields (file_text n u p o))
      ≡ ok (record { name = n; uuid = u; perm = p; old_name = o })
unfolding file_of f_args optional
fields_file n [] [] [] (hn, hu, hp, ho, e, e') =
    rw (fields-spaced (fossil_encode n) [] hn tt, fossil_decode-fossil_encode n) refl
fields_file n [] (c ∷ p) o (hn, hu, hp, ho, e, e') = absurd (cc ((e refl).0))
fields_file n [] [] (c ∷ o) (hn, hu, hp, ho, e, e') = absurd (cc ((e refl).1))
fields_file n (c ∷ u) [] (d ∷ o) (hn, hu, hp, ho, e, e') = absurd (cc (e' refl))
fields_file n (c ∷ u) [] [] (hn, hu, hp, ho, e, e') =
    rw (two_words (fossil_encode n) (c ∷ u) hn (omega arith, hu), fossil_decode-fossil_encode n)
      refl
fields_file n (c ∷ u) (d ∷ p) [] (hn, hu, hp, ho, e, e') =
    rw
      (
        three_words (fossil_encode n) (c ∷ u) (d ∷ p) hn (omega arith, hu) (omega arith, hp),
        fossil_decode-fossil_encode n,
      )
      refl
fields_file n (c ∷ u) (d ∷ p) (x ∷ o) (hn, hu, hp, ho, e, e') =
    rw
      (
        four_words (fossil_encode n) (c ∷ u) (d ∷ p) (fossil_encode (x ∷ o)) hn (omega arith, hu)
            (omega arith, hp) (length-fossil_encode x o, ho),
        fossil_decode-fossil_encode n,
        fossil_decode-fossil_encode (x ∷ o),
      )
      refl

pub file_of-f_args : (x : FileCard) → IsFile x → file_of (fields (f_args x)) ≡ ok x
file_of-f_args x h = fields_file x.name x.uuid x.perm x.old_name h

join_words-spaced : (w : Bytes) (ws : List Bytes) → join_words (w ∷ ws) ≡ w ++ spaced ws
unfolding join_words
join_words-spaced w [] = rw append-nil refl
join_words-spaced w (v ∷ ws) = rw (join_words-spaced v ws) refl

-- `P` is read back.
pub fields-join_words :
    (w : Bytes) (ws : List Bytes) → All IsWord (w ∷ ws) → fields (join_words (w ∷ ws)) ≡ w ∷ ws
fields-join_words w ws (h, hs) = rw (join_words-spaced w ws) (fields-spaced w ws h hs)

module _ {T : Type 0} (env : Environment T) where
  pub parse_timestamp_milli :
      (x : T) → env.IsMilli x → parse_timestamp env (env.format_milli x) ≡ ok x
  unfolding parse_timestamp parse_trimmed try_layouts
  parse_timestamp_milli x h =
      rw (trim_space_word (env.format_milli x) (env.format_milli-IsWord x).1)
        (rw (env.parse_milli-format_milli x h, try_layouts, parse_trimmed) refl)

  parse_timestamp_second :
      (x : T) → env.IsSecond x → parse_timestamp env (env.format_second x) ≡ ok x
  unfolding parse_timestamp parse_trimmed try_layouts
  parse_timestamp_second x h =
      rw (trim_space_word (env.format_second x) (env.format_second-IsWord x).1) (
        rw
          (
            env.parse_milli-format_second x,
            try_layouts,
            env.parse_second-format_second x h,
            parse_trimmed,
          )
          refl)

  pub event_written :
      (x : EventCard T)
      → env.IsSecond x.date
      → IsPiece (env.format_second x.date)
      → event_of env (split_n 2 (env.format_second x.date ++ b' ' ∷ x.uuid)) ≡ ok x
  unfolding event_of split_n
  event_written x h k =
      rw (split_n_piece 0 (env.format_second x.date) x.uuid k, parse_timestamp_second x.date h) refl
