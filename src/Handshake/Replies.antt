-- ===== src/Handshake/Replies.antt =====
-- net/control.rs: the replies of a Mac that follows the protocol, and the steps they answer.
use remote_input_bridge.Base.{ℕ, ◌≡◌, refl, ap, ◌∙◌, List, ◌++◌}
use remote_input_bridge.Base.{All, false, ◌==◌}
use remote_input_bridge.Base.Text.{ascii}
use remote_input_bridge.Crypto.{Primitives, IsKey, hex_encode, hex_key}
use remote_input_bridge.Crypto.{derive_pairing_key, unwrap_device_key, wrap_tag, auth_ack_proof}
use remote_input_bridge.Crypto.Wrapping.{unwrap_twice, unwrap_device_key-IsKey}
use remote_input_bridge.Wire.Bytes.{IsByte, to_be_bytes}
use remote_input_bridge.Config.{Config}
use remote_input_bridge.Frame.{ok, with_length}
use remote_input_bridge.Net.{bad_pairing_code, protocol}
use remote_input_bridge.Handshake.{Text, HelloAck, PairResponse, AuthOk, Serde, Socket, Channel}
use remote_input_bridge.Handshake.{or_raise, pure, guard, protocol_version}
use remote_input_bridge.Handshake.Frames.{expect_frame}
use remote_input_bridge.Handshake.Connect.{usable_nonce, greet, pair, authenticate, rename_error}
use remote_input_bridge.Handshake.Gives.{IsReply, Gives, continue_with, Gives-chain}
use remote_input_bridge.Handshake.Gives.{Gives-or_raise, Gives-guard, Gives-expect_frame}
use remote_input_bridge.Handshake.Gives.{Gives-rename_error, ct_eq-sent, hex_key-sent}
use remote_input_bridge.Handshake.Gives.{usable_nonce-sent, Gives-exchange}

-- That the Mac answers the greeting, with this version of the protocol and its nonce.
pub record IsGreeting (s : Serde) (sn payload : List ℕ) (ack : HelloAck) : Type 0 where
  pub reply : IsReply s HelloAck (ascii "HELLO_ACK") (s.hello_ack) payload ack
  pub current : ack.protocol_version ≡ protocol_version
  pub is_nonce : IsKey sn
  pub nonce : ack.server_nonce ≡ hex_encode sn

-- That the Mac answers a pairing request with its device key, wrapped under the pairing code.
pub record IsWrapped (p : Primitives) (s : Serde) (code : Text) (key cn sn payload : List ℕ)
    (resp : PairResponse) : Type 0 where
  pub reply : IsReply s PairResponse (ascii "PAIR_RESPONSE") (s.pair_response) payload resp
  pub wraps : resp.wrapped_key ≡ hex_encode (unwrap_device_key p (derive_pairing_key p code) key)
  pub tags :
      resp.tag
      ≡ hex_encode (
          p.hmac
            (derive_pairing_key p code)
            (ascii "wrap" ++ (cn ++ (sn ++ unwrap_device_key p (derive_pairing_key p code) key))))

-- That the Mac answers `AUTH` with its own proof of the device key.
pub record IsAcceptance (p : Primitives) (s : Serde) (key cn sn payload : List ℕ) (answer : AuthOk)
    : Type 0 where
  pub reply : IsReply s AuthOk (ascii "AUTH_OK") (s.auth_ok) payload answer
  pub proves :
      answer.server_proof
      ≡ hex_encode
          (p.hmac key (ascii "auth-ack" ++ (cn ++ (sn ++ to_be_bytes 8 answer.session_id))))

module _ (p : Primitives) (s : Serde) (k : Socket) (works : (n : ℕ) → k.fails n ≡ false) where
  open p use {length-hmac, hmac-IsByte}

  auth_ack_proof-IsByte : (key cn sn : List ℕ) (id : ℕ) → All IsByte (auth_ack_proof p key cn sn id)
  unfolding auth_ack_proof
  auth_ack_proof-IsByte key cn sn id = hmac-IsByte _ _

  wrap_tag-IsByte : (key cn sn wrapped : List ℕ) → All IsByte (wrap_tag p key cn sn wrapped)
  unfolding wrap_tag
  wrap_tag-IsByte key cn sn wrapped = hmac-IsByte _ _

  pub Gives-authenticate :
      (key cn sn payload rest : List ℕ) (answer : AuthOk) (ch : Channel)
      → IsReply s AuthOk (ascii "AUTH_OK") (s.auth_ok) payload answer
      → answer.server_proof ≡ hex_encode (auth_ack_proof p key cn sn answer.session_id)
      → ch.incoming ≡ with_length payload ++ rest
      → Gives (authenticate p s k key cn sn) ch answer rest
  unfolding authenticate
  Gives-authenticate key cn sn payload rest answer ch r proof here =
      Gives-exchange k _ (rename_error (expect_frame s (ascii "AUTH_OK"))) (r.text) (s.auth_ok) _ _
        ch answer answer _ rest rest works here
        (λ c at. Gives-rename_error (expect_frame s (ascii "AUTH_OK")) c (r.text) rest (
          Gives-expect_frame s AuthOk (ascii "AUTH_OK") (s.auth_ok) payload answer r c rest refl
            at))
        (r.parsed)
        λ c left kept. (
          c,
          continue_with (λ u. pure answer) tt c
              (ap
                (λ x.
                  guard x (protocol (ascii "the Mac failed to prove it holds our device key")) c)
                (ct_eq-sent p _ _ (auth_ack_proof-IsByte key cn sn answer.session_id) proof)),
          left,
          refl,
        )

  pub Gives-pair :
      (code : Text) (cn sn key payload rest : List ℕ) (resp : PairResponse) (ch : Channel)
      → IsReply s PairResponse (ascii "PAIR_RESPONSE") (s.pair_response) payload resp
      → IsKey key
      → (let pairing_key = derive_pairing_key p code in
          let wrapped = unwrap_device_key p pairing_key key in
          (resp.wrapped_key ≡ hex_encode wrapped)
          × (resp.tag ≡ hex_encode (wrap_tag p pairing_key cn sn wrapped)))
      → ch.incoming ≡ with_length payload ++ rest
      → Gives (pair p s k code cn sn) ch key rest
  unfolding pair
  Gives-pair code cn sn key payload rest resp ch r is_key (wraps, tags) here =
      let pairing_key = derive_pairing_key p code in
      let wrapped = unwrap_device_key p pairing_key key in
      let is_wrapped = unwrap_device_key-IsKey p pairing_key key is_key in
      Gives-exchange k _ (expect_frame s (ascii "PAIR_RESPONSE")) (r.text) (s.pair_response) _ _ ch
        resp key _ rest rest works here
        (λ c at.
          Gives-expect_frame s PairResponse (ascii "PAIR_RESPONSE") (s.pair_response) payload resp r
            c rest refl at)
        (r.parsed)
        λ c left kept.
          Gives-chain (or_raise (hex_key resp.wrapped_key) _) _ c wrapped key rest rest
            (Gives-or_raise (hex_key resp.wrapped_key) _ c wrapped rest
              (hex_key-sent wrapped _ is_wrapped wraps) left)
            λ c' left' kept'. (
              c',
              continue_with (λ u. pure (unwrap_device_key p pairing_key wrapped)) tt c'
                    (ap (λ x. guard x bad_pairing_code c')
                      (ct_eq-sent p _ _ (wrap_tag-IsByte pairing_key cn sn wrapped) tags))
                  ∙ ap (λ x. (ok x, c')) (unwrap_twice p pairing_key key (is_key.sized)).0,
              left',
              refl,
            )

  pub Gives-greet :
      (cfg : Config) (cn sn payload rest : List ℕ) (ack : HelloAck) (ch : Channel)
      → IsReply s HelloAck (ascii "HELLO_ACK") (s.hello_ack) payload ack
      → ack.protocol_version ≡ protocol_version
      → IsKey sn
      → ack.server_nonce ≡ hex_encode sn
      → ch.incoming ≡ with_length payload ++ rest
      → Gives (greet s k cfg cn) ch (ack, sn) rest
  unfolding greet
  Gives-greet cfg cn sn payload rest ack ch r current is_nonce nonce here =
      Gives-exchange k _ (expect_frame s (ascii "HELLO_ACK")) (r.text) (s.hello_ack) _ _ ch ack
        (ack, sn) _ rest rest works here
        (λ c at.
          Gives-expect_frame s HelloAck (ascii "HELLO_ACK") (s.hello_ack) payload ack r c rest refl
            at)
        (r.parsed)
        λ c left kept.
          Gives-chain (guard (ack.protocol_version == protocol_version) _) _ c tt (ack, sn) rest
            rest (Gives-guard _ _ c rest (ap (λ n. n == protocol_version) current) left)
            λ c' left' kept'.
              Gives-chain (or_raise (usable_nonce ack) _) _ c' sn (ack, sn) rest rest
                (Gives-or_raise (usable_nonce ack) _ c' sn rest
                  (usable_nonce-sent ack sn is_nonce nonce) left')
                λ c'' left'' kept''. (c'', refl, left'', refl)
