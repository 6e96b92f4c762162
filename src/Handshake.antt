-- ===== src/Handshake.antt =====
-- net/control.rs, the handshake: `connect`, `pair` and what they read and write, with the frames of
-- protocol.rs. Outside are serde_json, UTF-8 decoding, the resolver and the socket: they are the
-- parameters `Serde` and `Socket`. The details that serde_json puts behind a message are left out,
-- and so are log lines and the file of the key store.
use remote_input_bridge.Base.{
  ℕ, suc, ◌-◌, ◌*◌, ◌+◌, ◌%◌, ◌^◌, List, [], ◌∷◌, ◌++◌, Option, none, some, Bool, true, false, not,
  ◌||◌, ◌==◌, if◌then◌else◌, length,
}
use remote_input_bridge.Base.Text.{ascii, text_eq}
use remote_input_bridge.Crypto.{
  Primitives, hex_encode, hex_decode, hex_key, ct_eq, derive_pairing_key, pair_proof, wrap_tag,
  unwrap_device_key, auth_proof, auth_ack_proof, session_keys,
}
use remote_input_bridge.Config.{Config}
use remote_input_bridge.Frame.{Result, ok, err, read_frame, with_length}
use remote_input_bridge.KeyStore.{KeyStore, device_key, set_device_key}
use remote_input_bridge.Net.{
  ConnectError, io, protocol, needs_pairing, pairing_disabled, bad_pairing_code, auth_rejected,
  version_mismatch, remote,
}
pub mod Frames
pub mod Connect
pub mod Steps
pub mod Kept
pub mod Proven
pub mod Attempt
pub mod Gives
pub mod Replies
pub mod Honest

abbrev pub Text : Type 0
Text = List ℕ

abbrev pub protocol_version : ℕ
protocol_version = 1

unfoldable pub capabilities : List Text
capabilities =
    ascii "mouse_move_udp"
    ∷ ascii "mouse_buttons"
    ∷ ascii "scroll_hires"
    ∷ ascii "keyboard"
    ∷ ascii "heartbeat"
    ∷ ascii "edge_switch"
    ∷ []

-- The frames that are sent, with the field `t` that each carries.
pub record Hello : Type 0 where
  pub t : Text
  pub protocol_version : ℕ
  pub client_name : Text
  pub client_id : Text
  pub client_nonce : Text
  pub capabilities : List Text

pub record PairRequest : Type 0 where
  pub t : Text
  pub proof : Text

pub record Auth : Type 0 where
  pub t : Text
  pub proof : Text

-- The frames that are received.
pub record HelloAck : Type 0 where
  pub protocol_version : ℕ
  pub server_name : Text
  pub server_id : Text
  pub server_nonce : Text
  pub known_client : Bool
  pub pairing_mode : Bool
  pub capabilities : List Text

pub record PairResponse : Type 0 where
  pub wrapped_key : Text
  pub tag : Text

pub record AuthOk : Type 0 where
  pub session_id : ℕ
  pub server_proof : Text
  pub udp_port : ℕ

pub record ProtoError : Type 0 where
  pub code : Text
  pub message : Text

-- serde_json's texts of the frames and its reading of them, and `String::from_utf8`.
pub record Serde : Type 0 where
  pub from_utf8 : List ℕ → Option Text
  pub hello_text : Hello → List ℕ
  pub pair_request_text : PairRequest → List ℕ
  pub auth_text : Auth → List ℕ
  pub any_frame : Text → Option Text
  pub hello_ack : Text → Option HelloAck
  pub pair_response : Text → Option PairResponse
  pub auth_ok : Text → Option AuthOk
  pub proto_error : Text → Option ProtoError

-- The address that was reached, or why none was; which writes fail, by their number; whether the
-- timeouts of the session could be set at the end.
pub record Socket : Type 0 where
  pub opened : Result ConnectError ℕ
  pub fails : ℕ → Bool
  pub ready : Bool

-- The stream, as the bytes that it still delivers and those that were written, and the key store.
pub record Channel : Type 0 where
  pub incoming : List ℕ
  pub sent : List ℕ
  pub writes : ℕ
  pub keys : KeyStore

pub record Session : Type 0 where
  pub session_id : ℕ
  pub tcp_key : List ℕ
  pub udp_key : List ℕ
  pub udp_addr : ℕ × ℕ
  pub server_name : Text
  pub send_counter : ℕ

-- A step of the exchange; the channel comes back after an error too.
abbrev pub Exchange : Type 0 → Type 0
Exchange A = Channel → Result ConnectError A × Channel

module _ {A : Type 0} where
  abbrev pub pure : A → Exchange A
  pure a ch = (ok a, ch)

  abbrev pub raise : ConnectError → Exchange A
  raise e ch = (err e, ch)

  abbrev pub or_raise : Option A → ConnectError → Exchange A
  or_raise none e = raise e
  or_raise (some a) e = pure a

  abbrev pub from_result : Result ConnectError A → Exchange A
  from_result r ch = (r, ch)

unfoldable pub continue :
    {A B : Type 0}
    → (A → Exchange B)
    → Result ConnectError A × Channel
    → Result ConnectError B × Channel
continue f (ok a, ch) = f a ch
continue f (err e, ch) = (err e, ch)

infixl 5 ◌>>=◌ ◌>>◌
abbrev pub ◌>>=◌ : {A B : Type 0} → Exchange A → (A → Exchange B) → Exchange B
◌>>=◌ m f ch = continue f (m ch)

abbrev pub ◌>>◌ : {A B : Type 0} → Exchange A → Exchange B → Exchange B
m >> k = m >>= λ _. k

abbrev pub guard : Bool → ConnectError → Exchange (Unit {0})
guard c e ch = (if c then ok tt else err e, ch)
