-- ===== src/Deck/Carried.antt =====
-- internal/deck: which decks the format can carry, and the deck that is read back.
use mathlib.Core.List.{Permᴰ}
use libfossil.Base.{◌≤◌, ◌<◌, ◌^◌, ◌≡◌, ◌≢◌, ◌⊎◌, false, Option, none, some, [], length, All}
use libfossil.Base.Sort.{less_bytes, sort}
use libfossil.Base.Sort.Reordered.{HasOneEach}
use libfossil.Text.Words.{IsWord, IsWordByte}
use libfossil.Deck.Artifact.{
  Deck, Environment, AttachmentCard, EventCard, CherryPick, FileCard, TagCard, TicketField, checkin,
}
use libfossil.Deck.Marshal.{file_less, tag_less, tag_key}
use libfossil.Deck.Parse.{infer_type}
use libfossil.Deck.Parse.Cards.{IsPiece, IsLine}
use libfossil.Deck.Parse.WordCards.{IsFile}

abbrev pub IsAttachment : Option AttachmentCard → Type 0
IsAttachment none = Unit
IsAttachment (some x) = IsPiece x.target × IsLine x.source

abbrev pub IsField : TicketField → Type 0
IsField x = IsLine x.value

abbrev pub IsPick : CherryPick → Type 0
IsPick x = IsPiece x.target × (0 < length x.target) × IsLine x.baseline

abbrev pub IsTag : TagCard → Type 0
IsTag x =
    (x.tag_type < 128) × (x.tag_type ≢ b'\n') × IsPiece x.name × IsPiece x.uuid × IsLine x.value

-- The cards F, M and T in their order; the type and the card Z are not written.
abbrev pub sorted_deck : {T : Type 0} → Deck T → Deck T
sorted_deck x = record x {
  artifact_type = checkin;
  f = sort file_less x.f;
  m = sort less_bytes x.m;
  t = sort tag_less x.t;
  z = [];
}

-- The type is inferred from the cards.
abbrev pub canonical : {T : Type 0} → Deck T → Deck T
canonical x = record (sorted_deck x) { artifact_type = infer_type (sorted_deck x) }

-- The second deck has the cards of the first, with those of F, of M and of T in any order; its type
-- and its card Z may be any, since they are not written. Two cards F with one name are the same, and
-- so are two cards T with one key: Go leaves the order of equal keys open.
pub record IsReordered {T : Type 0} (x y : Deck T) : Type 0 where
  pub same : y ≡ record x { artifact_type = y.artifact_type; f = y.f; m = y.m; t = y.t; z = y.z }
  pub f : Permᴰ x.f y.f
  pub m : Permᴰ x.m y.m
  pub t : Permᴰ x.t y.t
  pub one_f : HasOneEach (λ (c : FileCard). c.name) x.f
  pub one_t : HasOneEach tag_key x.t

module _ {T : Type 0} (env : Environment T) where
  abbrev pub IsEvent : Option (EventCard T) → Type 0
  IsEvent none = Unit
  IsEvent (some x) = env.IsSecond x.date × IsLine x.uuid

  abbrev pub IsDate : T → Type 0
  IsDate x = (x ≡ env.zero_time) ⊎ ((env.is_zero x ≡ false) × env.IsMilli x)

  -- What each card can carry. The texts of C, H, L and U, the names of J and the content of W may
  -- hold any bytes. A word, and a name of F once it is escaped, has no byte with which white space
  -- begins, in UTF-8 too (0xc2, 0xe1, 0xe2 and 0xe3); some words with such a byte are read back all
  -- the same, and are left out here.
  pub record IsCarried (x : Deck T) : Type 0 where
    pub a : IsAttachment x.a
    pub b : All IsWordByte x.b
    pub d : IsDate x.d
    pub e : IsEvent x.e
    pub f : All IsFile x.f
    pub g : All IsWordByte x.g
    pub i : All IsWordByte x.i
    pub j : All IsField x.j
    pub k : All IsWordByte x.k
    pub m : All (All IsWordByte) x.m
    pub n : All IsWordByte x.n
    pub p : All IsWord x.p
    pub q : All IsPick x.q
    pub r : All IsWordByte x.r
    pub t : All IsTag x.t
    pub w_int : length x.w < 2 ^ 63
    pub w_max : length x.w ≤ env.max_len
