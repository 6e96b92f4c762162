-- ===== src/Handshake/Connect.antt =====
-- net/control.rs: `connect` and `pair`, a step each for the greeting, the choice of the device key,
-- its pairing, the authentication and the filing of the key.
use remote_input_bridge.Base.{ℕ, List, [], Option, none, some, Bool, true, false, ◌||◌, ◌==◌}
use remote_input_bridge.Base.{if◌then◌else◌, length}
use remote_input_bridge.Base.Text.{ascii}
use remote_input_bridge.Crypto.{Primitives, hex_encode, hex_decode, hex_key, ct_eq}
use remote_input_bridge.Crypto.{derive_pairing_key, pair_proof, wrap_tag, unwrap_device_key}
use remote_input_bridge.Crypto.{auth_proof, auth_ack_proof, session_keys}
use remote_input_bridge.Config.{Config, is_blank}
use remote_input_bridge.Frame.{ok, err}
use remote_input_bridge.KeyStore.{KeyStore, device_key, set_device_key}
use remote_input_bridge.Net.{ConnectError, io, protocol, needs_pairing, pairing_disabled}
use remote_input_bridge.Net.{bad_pairing_code, auth_rejected, version_mismatch}
use remote_input_bridge.Handshake.{Text, protocol_version, capabilities, Hello, PairRequest, Auth}
use remote_input_bridge.Handshake.{HelloAck, AuthOk, Serde, Socket, Session, Exchange, pure}
use remote_input_bridge.Handshake.{raise, or_raise, from_result, ◌>>=◌, ◌>>◌, guard}
use remote_input_bridge.Handshake.Frames.{expect_frame, write_frame}

-- `unwrap_or_default` on bytes.
abbrev pub or_empty : Option (List ℕ) → List ℕ
or_empty none = []
or_empty (some bytes) = bytes

-- A `HELLO_ACK` of this version, and its nonce.
unfoldable pub usable_nonce : HelloAck → Option (List ℕ)
usable_nonce ack = elim (hex_decode ack.server_nonce) [
  | none ↦ none
  | some nonce ↦ if length nonce == 32 then some nonce else none
]

unfoldable pub key_index : Config → HelloAck → Text
key_index cfg ack = if is_blank ack.server_id then cfg.mac_host else ack.server_id

unfoldable pub stored_key : Config → HelloAck → KeyStore → Option (List ℕ)
unfolding key_index
stored_key cfg ack keys = elim (device_key keys (key_index cfg ack)) [
  | some key ↦ some key
  | none ↦ device_key keys cfg.mac_host
]

-- A rejected proof behind `AUTH` is a stale key, not a mistyped code.
unfoldable pub auth_error : ConnectError → ConnectError
auth_error bad_pairing_code = auth_rejected
auth_error e = e

unfoldable pub rename_error : Exchange Text → Exchange Text
unfolding auth_error
rename_error m ch =
    let (r, after) = m ch in
    elim r [ ok text ↦ (ok text, after) | err e ↦ (err (auth_error e), after) ]

unfoldable pub file_key : Text → List ℕ → Bool → Exchange (Unit {0})
file_key index key fresh ch =
    let needs_filing = fresh || elim (device_key ch.keys index) [ none ↦ true | some k ↦ false ] in
    (ok tt, if needs_filing then record ch { keys = set_device_key index key ch.keys } else ch)

module _ (s : Serde) (k : Socket) where
  -- The `HELLO`, and the answer with its nonce.
  unfoldable pub greet : Config → List ℕ → Exchange (HelloAck × List ℕ)
  unfolding expect_frame write_frame
  greet cfg client_nonce ch =
      let hello : Hello = record {
        t = ascii "HELLO";
        protocol_version = protocol_version;
        client_name = cfg.device_name;
        client_id = ch.keys.client_id;
        client_nonce = hex_encode client_nonce;
        capabilities = capabilities;
      } in
      (do
        write_frame k (s.hello_text hello)
        text ← expect_frame s (ascii "HELLO_ACK")
        ack ← or_raise (s.hello_ack text) (protocol (ascii "malformed HELLO_ACK"))
        guard (ack.protocol_version == protocol_version) (version_mismatch ack.protocol_version)
        nonce ← or_raise (usable_nonce ack) (protocol (ascii "HELLO_ACK carries no usable nonce"))
        pure (ack, nonce))
        ch

module _ (p : Primitives) where
  unfoldable pub make_session : Config → ℕ → HelloAck → AuthOk → List ℕ → List ℕ → List ℕ → Session
  make_session cfg ip ack answer key client_nonce server_nonce =
      let (tcp_key, udp_key) = session_keys p key client_nonce server_nonce in
      record {
        session_id = answer.session_id;
        tcp_key = tcp_key;
        udp_key = udp_key;
        udp_addr = (ip, if answer.udp_port == 0 then cfg.udp_port else answer.udp_port);
        server_name = ack.server_name;
        send_counter = 0;
      }

module _ (p : Primitives) (s : Serde) (k : Socket) where
  unfoldable pub pair : Text → List ℕ → List ℕ → Exchange (List ℕ)
  unfolding expect_frame write_frame
  pair code client_nonce server_nonce = do
    let pairing_key = derive_pairing_key p code
    let proof = pair_proof p pairing_key client_nonce server_nonce
    let request : PairRequest = record { t = ascii "PAIR_REQUEST"; proof = hex_encode proof }
    write_frame k (s.pair_request_text request)
    text ← expect_frame s (ascii "PAIR_RESPONSE")
    resp ← or_raise (s.pair_response text) (protocol (ascii "malformed PAIR_RESPONSE"))
    wrapped ←
        or_raise (hex_key resp.wrapped_key)
          (protocol (ascii "PAIR_RESPONSE carries no wrapped key"))
    let tag = wrap_tag p pairing_key client_nonce server_nonce wrapped
    guard (ct_eq p tag (or_empty (hex_decode resp.tag))) bad_pairing_code
    pure (unwrap_device_key p pairing_key wrapped)

  -- The device key to authenticate with, and whether it was paired just now.
  unfoldable pub choose_key :
      HelloAck → Option (List ℕ) → Option Text → List ℕ → List ℕ → Exchange (List ℕ × Bool)
  unfolding pair
  choose_key ack stored (some code) client_nonce server_nonce = do
    guard ack.pairing_mode pairing_disabled
    key ← pair code client_nonce server_nonce
    pure (key, true)
  choose_key ack (some key) none client_nonce server_nonce =
      if ack.known_client then pure (key, false) else raise needs_pairing
  choose_key ack none none client_nonce server_nonce = raise needs_pairing

  -- `AUTH`, and the answer with the Mac's own proof.
  unfoldable pub authenticate : List ℕ → List ℕ → List ℕ → Exchange AuthOk
  unfolding rename_error expect_frame write_frame
  authenticate key client_nonce server_nonce = do
    let proof = auth_proof p key client_nonce server_nonce
    let auth : Auth = record { t = ascii "AUTH"; proof = hex_encode proof }
    write_frame k (s.auth_text auth)
    text ← rename_error (expect_frame s (ascii "AUTH_OK"))
    answer ← or_raise (s.auth_ok text) (protocol (ascii "malformed AUTH_OK"))
    let expected = auth_ack_proof p key client_nonce server_nonce answer.session_id
    guard (ct_eq p expected (or_empty (hex_decode answer.server_proof)))
        (protocol (ascii "the Mac failed to prove it holds our device key"))
    pure answer

  unfoldable pub connect : Config → Option Text → List ℕ → Exchange Session
  unfolding greet choose_key authenticate file_key make_session
  connect cfg code client_nonce = do
    ip ← from_result (k.opened)
    (ack, server_nonce) ← greet s k cfg client_nonce
    stored ← λ ch. (ok (stored_key cfg ack ch.keys), ch)
    (key, fresh) ← choose_key ack stored code client_nonce server_nonce
    answer ← authenticate key client_nonce server_nonce
    file_key (key_index cfg ack) key fresh
    guard (k.ready) io
    pure (make_session p cfg ip ack answer key client_nonce server_nonce)
