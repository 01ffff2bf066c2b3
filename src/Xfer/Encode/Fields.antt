-- ===== src/Xfer/Encode/Fields.antt =====
-- internal/xfer/encode.go: the fields that `EncodeCard` asks for.
use libfossil.Base.{◌<◌, ◌↔◌, arith, Bytes, length, Returns}
use libfossil.Xfer.Card.{Card, push, pull, xigot, xgimme, xrow, xdelete}
use libfossil.Xfer.Wire.{Machine}
use libfossil.Xfer.Encode.{
  encode_card, encode_push, encode_pull, with_row_key, encode_xigot, encode_xgimme, encode_xrow,
  encode_xdelete,
}

abbrev HasKey : Bytes → Bytes → Type 0
HasKey table pk_hash = (0 < length table) × (0 < length pk_hash)

-- The fields that a card must not leave empty.
abbrev pub HasFields : Card → Type 0
HasFields (push server project) = 0 < length project
HasFields (pull server project) = (0 < length project) × (0 < length server)
HasFields (xigot table pk_hash _) = HasKey table pk_hash
HasFields (xgimme table pk_hash) = HasKey table pk_hash
HasFields (xrow table pk_hash _ _) = HasKey table pk_hash
HasFields (xdelete table pk_hash _ _) = HasKey table pk_hash
HasFields _ = Unit {0}

with_row_key-Returns :
    (table pk_hash text : Bytes)
    → Returns (λ _. Unit {0}) (with_row_key table pk_hash text) ↔ HasKey table pk_hash
unfolding with_row_key
with_row_key-Returns table pk_hash text = ground arith

-- `EncodeCard` returns, with no panic, exactly for the cards that leave none of these fields empty: the
-- project code of a push, both codes of a pull, and the table and the key of an xigot, xgimme, xrow or
-- xdelete card.
pub encode_card-HasFields :
    (m : Machine) (c : Card) → Returns (λ _. Unit {0}) (encode_card m c) ↔ HasFields c
unfolding encode_card encode_push encode_pull encode_xigot encode_xgimme encode_xrow encode_xdelete
encode_card-HasFields m (push server project) = ground arith
encode_card-HasFields m (pull server project) = ground arith
encode_card-HasFields m (xigot table pk_hash mtime) = with_row_key-Returns table pk_hash _
encode_card-HasFields m (xgimme table pk_hash) = with_row_key-Returns table pk_hash _
encode_card-HasFields m (xrow table pk_hash mtime content) = with_row_key-Returns table pk_hash _
encode_card-HasFields m (xdelete table pk_hash mtime pk_data) = with_row_key-Returns table pk_hash _
encode_card-HasFields m _ = ((λ h. tt), (λ h. tt))
