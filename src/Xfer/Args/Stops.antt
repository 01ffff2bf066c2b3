-- ===== src/Xfer/Args/Stops.antt =====
-- internal/xfer/decode.go: the parsers of the cards that are one line come to an end.
use libfossil.Base.{arith, List, Bytes, Ends}
use libfossil.Xfer.Wire.{Result, or_malformed}
use libfossil.Xfer.Args.{
  parse_igot, parse_gimme, parse_push, parse_pull, parse_cookie, parse_req_config, parse_private,
  parse_clone, parse_clone_seq_no, parse_uv_gimme, parse_pragma, parse_login, parse_error,
  parse_message, parse_uv_igot, parse_xigot, parse_xgimme,
}

-- The parsers of one line make no call that could fail to end.
abbrev pub Stops {ℓ} : {A : Type ℓ} → Result A → Type 0
Stops = Ends (λ _. Unit {0})

pub igot-Stops : (args : List Bytes) → Stops (parse_igot args)
unfolding parse_igot or_malformed
igot-Stops args = ground arith

pub gimme-Stops : (args : List Bytes) → Stops (parse_gimme args)
unfolding parse_gimme or_malformed
gimme-Stops args = ground arith

pub push-Stops : (args : List Bytes) → Stops (parse_push args)
unfolding parse_push or_malformed
push-Stops args = ground arith

pub pull-Stops : (args : List Bytes) → Stops (parse_pull args)
unfolding parse_pull or_malformed
pull-Stops args = ground arith

pub cookie-Stops : (args : List Bytes) → Stops (parse_cookie args)
unfolding parse_cookie or_malformed
cookie-Stops args = ground arith

pub req_config-Stops : (args : List Bytes) → Stops (parse_req_config args)
unfolding parse_req_config or_malformed
req_config-Stops args = ground arith

pub private-Stops : (args : List Bytes) → Stops (parse_private args)
unfolding parse_private or_malformed
private-Stops args = ground arith

pub clone-Stops : (args : List Bytes) → Stops (parse_clone args)
unfolding parse_clone or_malformed
clone-Stops args = ground arith

pub clone_seq_no-Stops : (args : List Bytes) → Stops (parse_clone_seq_no args)
unfolding parse_clone_seq_no or_malformed
clone_seq_no-Stops args = ground arith

pub uv_gimme-Stops : (args : List Bytes) → Stops (parse_uv_gimme args)
unfolding parse_uv_gimme or_malformed
uv_gimme-Stops args = ground arith

pub pragma-Stops : (args : List Bytes) → Stops (parse_pragma args)
unfolding parse_pragma or_malformed
pragma-Stops args = ground arith

pub login-Stops : (args : List Bytes) → Stops (parse_login args)
unfolding parse_login or_malformed
login-Stops args = ground arith

pub error-Stops : (args : List Bytes) → Stops (parse_error args)
unfolding parse_error or_malformed
error-Stops args = ground arith

pub message-Stops : (args : List Bytes) → Stops (parse_message args)
unfolding parse_message or_malformed
message-Stops args = ground arith

pub uv_igot-Stops : (args : List Bytes) → Stops (parse_uv_igot args)
unfolding parse_uv_igot or_malformed
uv_igot-Stops args = ground arith

pub xigot-Stops : (args : List Bytes) → Stops (parse_xigot args)
unfolding parse_xigot or_malformed
xigot-Stops args = ground arith

pub xgimme-Stops : (args : List Bytes) → Stops (parse_xgimme args)
unfolding parse_xgimme or_malformed
xgimme-Stops args = ground arith
