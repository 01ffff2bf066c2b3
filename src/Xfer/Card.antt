-- ===== src/Xfer/Card.antt =====
-- internal/xfer/card.go and card_tablesync.go: a constructor for each card type, its fields in the
-- source's order, and the type of each card. A string or a byte slice is a list of bytes, an int or
-- an int64 an integer.
use libfossil.Base.{Bool, List, Bytes}
use libfossil.Base.Int.{ℤ}

pub data CardType : Type 0 where
  card_file card_cfile card_igot card_gimme card_login card_push card_pull card_cookie : CardType
  card_clone card_clone_seq_no card_config card_req_config card_private card_uv_file : CardType
  card_uv_gimme card_uv_igot card_pragma card_error card_message card_unknown : CardType
  card_schema card_xigot card_xgimme card_xrow card_xdelete : CardType

pub data Card : Type 0 where
  -- UUID, DeltaSrc, Content
  file : Bytes → Bytes → Bytes → Card
  -- UUID, DeltaSrc, USize, Content
  cfile : Bytes → Bytes → ℤ → Bytes → Card
  -- UUID, IsPrivate
  igot : Bytes → Bool → Card
  -- UUID
  gimme : Bytes → Card
  -- User, Nonce, Signature
  login : Bytes → Bytes → Bytes → Card
  -- ServerCode, ProjectCode
  push : Bytes → Bytes → Card
  pull : Bytes → Bytes → Card
  -- Value
  cookie : Bytes → Card
  -- Version, SeqNo
  clone : ℤ → ℤ → Card
  -- SeqNo
  clone_seq_no : ℤ → Card
  -- Name, Content
  config : Bytes → Bytes → Card
  -- Name
  req_config : Bytes → Card
  private : Card
  -- Name, MTime, Hash, Size, Flags, Content
  uv_file : Bytes → ℤ → Bytes → ℤ → ℤ → Bytes → Card
  -- Name
  uv_gimme : Bytes → Card
  -- Name, MTime, Hash, Size
  uv_igot : Bytes → ℤ → Bytes → ℤ → Card
  -- Name, Values
  pragma : Bytes → List Bytes → Card
  -- Message
  error : Bytes → Card
  message : Bytes → Card
  -- Command, Args
  unknown : Bytes → List Bytes → Card
  -- Table, Version, Hash, MTime, Content
  schema : Bytes → ℤ → Bytes → ℤ → Bytes → Card
  -- Table, PKHash, MTime
  xigot : Bytes → Bytes → ℤ → Card
  -- Table, PKHash
  xgimme : Bytes → Bytes → Card
  -- Table, PKHash, MTime, Content
  xrow : Bytes → Bytes → ℤ → Bytes → Card
  -- Table, PKHash, MTime, PKData
  xdelete : Bytes → Bytes → ℤ → Bytes → Card

-- The methods `Type`.
pub card_type : Card → CardType
card_type (file _ _ _) = card_file
card_type (cfile _ _ _ _) = card_cfile
card_type (igot _ _) = card_igot
card_type (gimme _) = card_gimme
card_type (login _ _ _) = card_login
card_type (push _ _) = card_push
card_type (pull _ _) = card_pull
card_type (cookie _) = card_cookie
card_type (clone _ _) = card_clone
card_type (clone_seq_no _) = card_clone_seq_no
card_type (config _ _) = card_config
card_type (req_config _) = card_req_config
card_type private = card_private
card_type (uv_file _ _ _ _ _ _) = card_uv_file
card_type (uv_gimme _) = card_uv_gimme
card_type (uv_igot _ _ _ _) = card_uv_igot
card_type (pragma _ _) = card_pragma
card_type (error _) = card_error
card_type (message _) = card_message
card_type (unknown _ _) = card_unknown
card_type (schema _ _ _ _ _) = card_schema
card_type (xigot _ _ _) = card_xigot
card_type (xgimme _ _) = card_xgimme
card_type (xrow _ _ _ _) = card_xrow
card_type (xdelete _ _ _ _) = card_xdelete
