-- ===== src/Frame.antt =====
-- net/control.rs, the framing of the authenticated session: `encode_frame`, `decode_frame`,
-- `Session::send`, `Session::send_raw`, `read_frame`, and the reader thread of net/mod.rs.
-- A stream is the list of the bytes that it still delivers before it ends.
use remote_input_bridge.Base.{
  ℕ, zero, suc, ◌+◌, ◌-◌, ◌*◌, ◌%◌, ◌^◌, ◌≤◌, List, [], ◌∷◌, ◌++◌, Option, none, some, Bool, ◌==◌,
  leb, ltb, if◌then◌else◌, ◌||◌, length, take, drop, get_or,
}
use remote_input_bridge.Wire.Bytes.{to_be_bytes, from_be_bytes}
use remote_input_bridge.Wire.Message.{Reliable, msg_type, encode_body, decode}
use remote_input_bridge.Crypto.{Primitives, ct_eq}
pub mod RoundTrip
pub mod Accepts
pub mod Bytes
pub mod Stream

abbrev pub max_frame_len : ℕ
max_frame_len = 65536

abbrev pub tag_len : ℕ
tag_len = 16

pub data FrameError : Type 0 where
  short_frame bad_tag : FrameError
  replayed : (counter : ℕ) → FrameError
  unknown_type : (msg_type : ℕ) → FrameError

pub data ReadError : Type 0 where
  unexpected_eof : ReadError
  bad_length : (len : ℕ) → ReadError

pub data Result (E A : Type 0) : Type 0 where
  ok : A → Result E A
  err : E → Result E A

-- `read_exact` into a buffer of `n` bytes; the bytes behind them stay in the stream.
unfoldable pub read_exact : ℕ → List ℕ → Result ReadError (List ℕ × List ℕ)
read_exact n stream =
    if leb n (length stream) then ok (take n stream, drop n stream) else err unexpected_eof

unfoldable pub read_payload : ℕ → List ℕ → Result ReadError (List ℕ × List ℕ)
read_payload len stream =
    if len == 0 || ltb max_frame_len len then err (bad_length len) else read_exact len stream

unfoldable pub read_frame : List ℕ → Result ReadError (List ℕ × List ℕ)
read_frame stream = elim (read_exact 4 stream) [
  | ok (len_bytes, rest) ↦ read_payload (from_be_bytes len_bytes) rest
  | err e ↦ err e
]

unfoldable pub with_length : List ℕ → List ℕ
with_length payload = to_be_bytes 4 (length payload % 2 ^ 32) ++ payload

unfoldable pub signed_part : ℕ → ℕ → List ℕ → List ℕ
signed_part counter type body = to_be_bytes 8 counter ++ type ∷ body

abbrev pub or_unknown : ℕ → ℕ → Option Reliable → Result FrameError (ℕ × Reliable)
or_unknown counter type (some msg) = ok (counter, msg)
or_unknown counter type none = err (unknown_type type)

unfoldable pub after_tag : List ℕ → ℕ → Result FrameError (ℕ × Reliable)
after_tag signed last_counter =
    let counter = from_be_bytes (take 8 signed) in
    let type = get_or signed 8 0 in
    if leb counter last_counter
    then err (replayed counter)
    else or_unknown counter type (decode type (drop 9 signed))

-- What the reader thread posts: messages, then the loss of the link.
pub data Event : Type 0 where
  incoming : Reliable → Event
  link_lost : FrameError → Event
  read_failed : ReadError → Event
  out_of_fuel : Event

module _ (p : Primitives) where
  open p use {hmac}

  -- The bytes that the tag covers, with the tag behind them.
  unfoldable pub seal : List ℕ → List ℕ → List ℕ
  seal tcp_key signed = signed ++ take tag_len (hmac tcp_key signed)

  unfoldable pub encode_frame : List ℕ → ℕ → Reliable → List ℕ
  encode_frame tcp_key counter msg =
      with_length (seal tcp_key (encode_body msg (to_be_bytes 8 counter ++ msg_type msg ∷ [])))

  unfoldable pub decode_frame : List ℕ → List ℕ → ℕ → Result FrameError (ℕ × Reliable)
  decode_frame tcp_key payload last_counter =
      let split = length payload - tag_len in
      let signed = take split payload in
      if ltb (length payload) (8 + 1 + tag_len)
      then err short_frame
      else if ct_eq p (take tag_len (hmac tcp_key signed)) (drop split payload)
      then after_tag signed last_counter
      else err bad_tag

  -- `Session::send` and `send_raw`: the counter after the call, and the bytes handed to the socket.
  unfoldable pub send : List ℕ → ℕ → Reliable → ℕ × List ℕ
  send tcp_key send_counter msg =
      let counter = (send_counter + 1) % 2 ^ 64 in (counter, encode_frame tcp_key counter msg)

  unfoldable pub send_raw : List ℕ → ℕ → ℕ → List ℕ → ℕ × List ℕ
  send_raw tcp_key send_counter type body =
      let counter = (send_counter + 1) % 2 ^ 64 in
      (counter, with_length (seal tcp_key (signed_part counter type body)))

  -- `spawn_reader`. A round takes at least the four bytes of a length off the stream.
  unfoldable pub reader : ℕ → List ℕ → ℕ → List ℕ → List Event
  reader zero tcp_key counter stream = out_of_fuel ∷ []
  reader (suc fuel) tcp_key counter stream = elim (read_frame stream) [
    | err e ↦ read_failed e ∷ []
    | ok (payload, rest) ↦ elim (decode_frame tcp_key payload counter) [
      | err e ↦ link_lost e ∷ []
      | ok (next, msg) ↦ incoming msg ∷ reader fuel tcp_key next rest
    ]
  ]
