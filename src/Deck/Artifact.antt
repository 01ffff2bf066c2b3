-- ===== src/Deck/Artifact.antt =====
-- internal/deck/deck.go: the artifact types and the deck of cards, over the type of `time.Time`.
use libfossil.Base.{ℕ, Bool, Option, none, some, List, ◌≡◌, Bytes, length, true}
use libfossil.Text.Words.{IsWord}

pub data ArtifactType : Type 0 where
  checkin wiki ticket event cluster forum_post attachment control : ArtifactType

-- `Type` is a byte, `+`, `*` or `-`.
pub record TagCard : Type 0 where
  pub tag_type : ℕ
  pub name : Bytes
  pub uuid : Bytes
  pub value : Bytes

pub record FileCard : Type 0 where
  pub name : Bytes
  pub uuid : Bytes
  pub perm : Bytes
  pub old_name : Bytes

pub record CherryPick : Type 0 where
  pub is_backout : Bool
  pub target : Bytes
  pub baseline : Bytes

pub record AttachmentCard : Type 0 where
  pub filename : Bytes
  pub target : Bytes
  pub source : Bytes

pub record TicketField : Type 0 where
  pub name : Bytes
  pub value : Bytes

pub record EventCard (T : Type 0) : Type 0 where
  pub date : T
  pub uuid : Bytes

-- The field `Type` is `artifact_type`; the others are named by their cards.
pub record Deck (T : Type 0) : Type 0 where
  pub artifact_type : ArtifactType
  pub a : Option AttachmentCard
  pub b : Bytes
  pub c : Bytes
  pub d : T
  pub e : Option (EventCard T)
  pub f : List FileCard
  pub g : Bytes
  pub h : Bytes
  pub i : Bytes
  pub j : List TicketField
  pub k : Bytes
  pub l : Bytes
  pub m : List Bytes
  pub n : Bytes
  pub p : List Bytes
  pub q : List CherryPick
  pub r : Bytes
  pub t : List TagCard
  pub u : Bytes
  pub w : Bytes
  pub z : Bytes

-- What the package takes from elsewhere: the MD5 of a text in hex; the longest slice that `make`
-- allocates; and package time, with the two layouts, of milliseconds and of seconds. A time in UTC
-- without a finer part (`IsMilli`, `IsSecond`) is read back from its print, which has no white space,
-- and a layout of milliseconds does not read a text without them.
pub record Environment (T : Type 0) : Type 1 where
  pub md5_hex : Bytes → Bytes
  pub max_len : ℕ
  pub zero_time : T
  pub is_zero : T → Bool
  pub format_milli : T → Bytes
  pub format_second : T → Bytes
  pub parse_milli : Bytes → Option T
  pub parse_second : Bytes → Option T
  pub IsMilli : T → Type 0
  pub IsSecond : T → Type 0
  pub length-md5_hex : (s : Bytes) → length (md5_hex s) ≡ 32
  pub is_zero-zero_time : is_zero zero_time ≡ true
  pub format_milli-IsWord : (x : T) → IsWord (format_milli x)
  pub format_second-IsWord : (x : T) → IsWord (format_second x)
  pub parse_milli-format_milli : (x : T) → IsMilli x → parse_milli (format_milli x) ≡ some x
  pub parse_milli-format_second : (x : T) → parse_milli (format_second x) ≡ none
  pub parse_second-format_second : (x : T) → IsSecond x → parse_second (format_second x) ≡ some x

-- The errors of the package, without their texts.
pub data Error : Type 0 where
  too_short bad_z_card mismatch out_of_order malformed bad_size short_content too_few_fields : Error
  bad_timestamp unknown_card : Error
