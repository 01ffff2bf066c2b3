-- ===== src/Xfer/Frame/Words.antt =====
-- The words in the frame of a card that the wire format can carry.
use libfossil.Base.{
  ◌≡◌, refl, arith, true, false, ◌&&◌, List, [], ◌∷◌, Bytes, codes, length, All, Bool-cases, inl,
  inr,
}
use libfossil.Base.Int.{pos}
use libfossil.Text.{is_space, starts_wide_space}
use libfossil.Text.Words.{IsWord}
use libfossil.Text.Printed.{format_int-IsWord}
use libfossil.Xfer.Card.{
  Card, file, cfile, igot, gimme, login, push, pull, cookie, clone, clone_seq_no, config,
  req_config, private, uv_file, uv_gimme, uv_igot, pragma, error, message, unknown, schema, xigot,
  xgimme, xrow, xdelete,
}
use libfossil.Xfer.Wire.{Machine}
use libfossil.Xfer.Encode.{is_zero}
use libfossil.Xfer.Frame.{IsCarried, IsOptional, optional, command_of, args_of}
use libfossil.Xfer.Decode.{is_comment}

optional-IsWord :
    (s : Bytes) (ws : List Bytes) → IsOptional s → All IsWord ws → All IsWord (optional s ws)
optional-IsWord [] ws h hs = hs
optional-IsWord (c ∷ cs) ws h hs = (h, hs)

one-IsWord : IsWord (codes "1")
unfolding is_space starts_wide_space
one-IsWord = (omega arith, ((refl, refl), tt))

-- Each argument is a word.
pub args_of-IsWord : (m : Machine) (c : Card) → IsCarried m c → All IsWord (args_of m c)
args_of-IsWord m (igot uuid true) h = (h, (one-IsWord, tt))
args_of-IsWord m (igot uuid false) h = (h, tt)
args_of-IsWord m (gimme uuid) h = (h, tt)
args_of-IsWord m (push server project) (s, p) = (p, optional-IsWord server [] s tt)
args_of-IsWord m (pull server project) (s, p) = (p, (s, tt))
args_of-IsWord m (cookie value) h = (h, tt)
args_of-IsWord m (req_config name) h = (h, tt)
args_of-IsWord m private h = tt
args_of-IsWord m (clone version seq_no) h = elim (Bool-cases (is_zero version && is_zero seq_no)) [
  | inl z ↦ rw z tt
  | inr nz ↦ rw nz (format_int-IsWord version, (format_int-IsWord seq_no, tt))
]
args_of-IsWord m (clone_seq_no seq_no) h = (format_int-IsWord seq_no, tt)
args_of-IsWord m (uv_gimme name) h = (h, tt)
args_of-IsWord m (pragma name values) h = h
args_of-IsWord m (login user nonce signature) (u, n, s) = (u, (n, (s, tt)))
args_of-IsWord m (error text) h = (h, tt)
args_of-IsWord m (message text) h = (h, tt)
args_of-IsWord m (uv_igot name mtime hash size) (n, _, k, _) =
    (n, (format_int-IsWord mtime, (k, (format_int-IsWord size, tt))))
args_of-IsWord m (file uuid src content) (u, s, _) =
    (u, optional-IsWord src _ s (format_int-IsWord (pos (length content)), tt))
args_of-IsWord m (cfile uuid src usize content) (u, s, _, _, _) = (
  u,
  optional-IsWord src _ s (
    format_int-IsWord (pos (length content)),
    (format_int-IsWord (pos (length (m.compress content))), tt),
  ),
)
args_of-IsWord m (config name content) (n, _) = (n, (format_int-IsWord (pos (length content)), tt))
args_of-IsWord m (uv_file name mtime hash size flags content) (n, _, k, _, _, _) =
    (n, (format_int-IsWord mtime, (k, (format_int-IsWord size, (format_int-IsWord flags, tt)))))
args_of-IsWord m (schema table version hash mtime content) (t, _, k, _, _) = (
  t,
  (
    format_int-IsWord version,
    (k, (format_int-IsWord mtime, (format_int-IsWord (pos (length content)), tt))),
  ),
)
args_of-IsWord m (xigot table pk_hash mtime) (t, k, _) = (t, (k, (format_int-IsWord mtime, tt)))
args_of-IsWord m (xgimme table pk_hash) (t, k) = (t, (k, tt))
args_of-IsWord m (xrow table pk_hash mtime content) (t, k, _, _) =
    (t, (k, (format_int-IsWord mtime, (format_int-IsWord (pos (length content)), tt))))
args_of-IsWord m (xdelete table pk_hash mtime pk_data) (t, k, _, _) =
    (t, (k, (format_int-IsWord mtime, (format_int-IsWord (pos (length pk_data)), tt))))
args_of-IsWord m (unknown cmd args) h = h.1

-- The command is a word, and no comment.
pub command_of-IsWord :
    (m : Machine) (c : Card)
    → IsCarried m c
    → IsWord (command_of c) × (is_comment (command_of c) ≡ false)
unfolding is_space starts_wide_space is_comment
command_of-IsWord m (unknown cmd args) h = (h.0, h.3)
command_of-IsWord m _ h = ground arith
