-- ===== src/Xfer/Frame/Written.antt =====
-- internal/xfer/encode.go: what `EncodeCard` writes for a card that the wire format can carry.
use libfossil.Base.{
  ◌≡◌, refl, arith, true, false, ◌&&◌, List, [], ◌∷◌, ◌++◌, append-nil, append_assoc, Bytes, ok,
  Bool-cases, inl, inr,
}
use libfossil.Text.Words.{IsWord, spaced}
use libfossil.Xfer.Card.{
  Card, file, cfile, igot, gimme, login, push, pull, cookie, clone, clone_seq_no, config,
  req_config, private, uv_file, uv_gimme, uv_igot, pragma, error, message, unknown, schema, xigot,
  xgimme, xrow, xdelete,
}
use libfossil.Xfer.Wire.{Machine}
use libfossil.Xfer.Encode.{is_empty, is_zero, write_words, write_optional, encode_card}
use libfossil.Xfer.Frame.{IsCarried, framed}

word_not_empty : (s : Bytes) → IsWord s → is_empty s ≡ false
word_not_empty s h = ground arith

write_words-spaced : (ws : List Bytes) (rest : Bytes) → write_words ws rest ≡ spaced ws ++ rest
unfolding write_words
write_words-spaced [] rest = refl
write_words-spaced (w ∷ ws) rest = rw (write_words-spaced ws rest, append_assoc)

ruleset frame = (append_assoc, append-nil)

-- The encoder writes the frame.
pub encode_card-framed :
    (m : Machine) (c : Card) → IsCarried m c → encode_card m c ≡ ok (framed m c)
unfolding encode_card
encode_card-framed m (igot uuid true) h = simp frame
encode_card-framed m (igot uuid false) h = simp frame
encode_card-framed m (gimme uuid) h = simp frame
encode_card-framed m (push [] project) h =
    rw (word_not_empty project h.1) (unfold write_optional in simp frame)
encode_card-framed m (push (c ∷ cs) project) h =
    rw (word_not_empty project h.1) (unfold write_optional in simp frame)
encode_card-framed m (pull server project) h =
    rw (word_not_empty project h.1, word_not_empty server h.0) (simp frame)
encode_card-framed m (cookie value) h = simp frame
encode_card-framed m (req_config name) h = simp frame
encode_card-framed m private h = refl
encode_card-framed m (clone version seq_no) h =
    elim (Bool-cases (is_zero version && is_zero seq_no)) [
      | inl z ↦ rw z refl
      | inr nz ↦ rw nz (simp frame)
    ]
encode_card-framed m (clone_seq_no seq_no) h = simp frame
encode_card-framed m (uv_gimme name) h = simp frame
encode_card-framed m (pragma name values) h = simp (write_words-spaced, append_assoc)
encode_card-framed m (login user nonce signature) h = simp frame
encode_card-framed m (error text) h = simp frame
encode_card-framed m (message text) h = simp frame
encode_card-framed m (uv_igot name mtime hash size) h = simp frame
encode_card-framed m (file uuid [] content) h = unfold write_optional in simp frame
encode_card-framed m (file uuid (c ∷ cs) content) h = unfold write_optional in simp frame
encode_card-framed m (cfile uuid [] usize content) h = unfold write_optional in simp frame
encode_card-framed m (cfile uuid (c ∷ cs) usize content) h = unfold write_optional in simp frame
encode_card-framed m (config name content) h = simp frame
encode_card-framed m (uv_file name mtime hash size flags content) h = simp frame
encode_card-framed m (schema table version hash mtime content) h = simp frame
encode_card-framed m (xigot table pk_hash mtime) h =
    rw (word_not_empty table h.0, word_not_empty pk_hash h.1) (simp frame)
encode_card-framed m (xgimme table pk_hash) h =
    rw (word_not_empty table h.0, word_not_empty pk_hash h.1) (simp frame)
encode_card-framed m (xrow table pk_hash mtime content) h =
    rw (word_not_empty table h.0, word_not_empty pk_hash h.1) (simp frame)
encode_card-framed m (xdelete table pk_hash mtime pk_data) h =
    rw (word_not_empty table h.0, word_not_empty pk_hash h.1) (simp frame)
encode_card-framed m (unknown cmd args) h = simp (write_words-spaced, append_assoc)
