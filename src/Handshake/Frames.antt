-- ===== src/Handshake/Frames.antt =====
-- net/control.rs: the frames of the handshake on the stream, `read_json`, `write_json`,
-- `remote_error` and `expect_frame`. A failed write leaves no bytes behind.
use remote_input_bridge.Base.{ℕ, suc, List, [], ◌++◌, Option, none, some, if◌then◌else◌}
use remote_input_bridge.Base.Text.{ascii, text_eq}
use remote_input_bridge.Frame.{Result, ok, err, read_frame, with_length}
use remote_input_bridge.Net.{ConnectError, io, protocol, needs_pairing, pairing_disabled}
use remote_input_bridge.Net.{bad_pairing_code, remote}
use remote_input_bridge.Handshake.{Text, ProtoError, Serde, Socket, Exchange, or_raise}
use remote_input_bridge.Handshake.{from_result, ◌>>=◌}

unfoldable pub error_of_code : Text → Text → ConnectError
error_of_code code message =
    if text_eq code (ascii "PAIRING_DISABLED")
    then pairing_disabled
    else if text_eq code (ascii "BAD_PROOF")
    then bad_pairing_code
    else if text_eq code (ascii "NOT_PAIRED")
    then needs_pairing
    else remote code message

module _ (s : Serde) where
  open s use {any_frame, proto_error}

  unfoldable pub error_frame : Option ProtoError → ConnectError
  unfolding error_of_code
  error_frame (some e) = error_of_code e.code e.message
  error_frame none = error_of_code (ascii "PROTOCOL_ERROR") []

  unfoldable pub remote_error : Text → Option ConnectError
  unfolding error_frame
  remote_error text = elim (any_frame text) [
    | none ↦ none
    | some t ↦ if text_eq t (ascii "ERROR") then some (error_frame (proto_error text)) else none
  ]

  -- The checks of `expect_frame` on the text that was read.
  unfoldable pub check_frame : Text → Text → Result ConnectError Text
  unfolding remote_error
  check_frame want text = elim (remote_error text) [
    | some e ↦ err e
    | none ↦ elim (any_frame text) [
      | none ↦ err (protocol (ascii "malformed handshake frame"))
      | some t ↦
          if text_eq t want
          then ok text
          else err (protocol (ascii "expected " ++ (want ++ (ascii ", got " ++ t))))
    ]
  ]

  unfoldable pub read_json : Exchange Text
  read_json ch = elim (read_frame ch.incoming) [
    | err e ↦ (err io, ch)
    | ok (payload, rest) ↦
        or_raise (s.from_utf8 payload) (protocol (ascii "handshake frame is not UTF-8"))
          (record ch { incoming = rest })
  ]

  unfoldable pub expect_frame : Text → Exchange Text
  unfolding read_json check_frame
  expect_frame want = do text ← read_json; from_result (check_frame want text)

module _ (k : Socket) where
  -- `write_json` behind the serialisation.
  unfoldable pub write_frame : List ℕ → Exchange (Unit {0})
  write_frame payload ch =
      let counted = record ch { writes = suc ch.writes } in
      if k.fails ch.writes
      then (err io, counted)
      else (ok tt, record counted { sent = ch.sent ++ with_length payload })
