-- ===== src/Frame/Bytes.antt =====
-- net/control.rs, `encode_frame`: what goes over the socket is bytes, and few of them.
use remote_input_bridge.Base.{ℕ, ◌+◌, ◌%◌, ◌^◌, ◌≤◌, ◌<◌, ◌≡◌, ap, sym, subst, List, [], ◌∷◌}
use remote_input_bridge.Base.{◌++◌, Bool, true, false, All, All-append, All-take, length}
use remote_input_bridge.Base.{length-append, length-take, take, arith}
use remote_input_bridge.Wire.Bytes.{IsByte, to_be_bytes, bool_byte, to_be_bytes-IsByte}
use remote_input_bridge.Wire.Bytes.{length-to_be_bytes}
use remote_input_bridge.Wire.Message.{Reliable, InRange, msg_type, encode_body, session_start}
use remote_input_bridge.Wire.Message.{ping, pong, target_active, mouse_button, scroll, key}
use remote_input_bridge.Wire.Message.{modifier_sync, release_all, mouse_move_rel, bye, edge_hit}
use remote_input_bridge.Crypto.{Primitives}
use remote_input_bridge.Frame.{with_length, seal, encode_frame, tag_len}
use remote_input_bridge.Frame.RoundTrip.{length-encode_body, encode_body-append}

-- Bytes of an integer before further bytes.
wide : (n x : ℕ) (rest : List ℕ) → All IsByte rest → All IsByte (to_be_bytes n x ++ rest)
wide n x rest h = All-append IsByte (to_be_bytes n x) rest (to_be_bytes-IsByte n x) h

bool_byte-IsByte : (b : Bool) → bool_byte b < 256
unfolding bool_byte
bool_byte-IsByte true = omega arith
bool_byte-IsByte false = omega arith

body-IsByte : (m : Reliable) → InRange m → All IsByte (encode_body m [])
unfolding encode_body
body-IsByte (session_start i f) h = wide 4 i (f ∷ []) (h.1, tt)
body-IsByte (ping t) h = to_be_bytes-IsByte 8 t
body-IsByte (pong t a r d) h = wide 8 t _ (wide 8 a _ (wide 4 r _ (to_be_bytes-IsByte 4 d)))
body-IsByte (target_active b) h = (bool_byte-IsByte b, tt)
body-IsByte (mouse_button b d) h = (h, (bool_byte-IsByte d, tt))
body-IsByte (scroll x y) h = wide 4 x _ (to_be_bytes-IsByte 4 y)
body-IsByte (key u d r) h = wide 2 u _ (bool_byte-IsByte d, (bool_byte-IsByte r, tt))
body-IsByte (modifier_sync m) h = to_be_bytes-IsByte 2 m
body-IsByte release_all h = tt
body-IsByte (mouse_move_rel x y) h = wide 4 x _ (to_be_bytes-IsByte 4 y)
body-IsByte (bye r) h = (h, tt)
body-IsByte (edge_hit e) h = (h, tt)

msg_type-IsByte : (m : Reliable) → msg_type m < 256
unfolding msg_type
msg_type-IsByte m = ground arith

module _ (p : Primitives) where
  open p use {hmac, hmac-IsByte, length-hmac}

  length-encode_frame :
      (tcp_key : List ℕ) (counter : ℕ) (m : Reliable)
      → length (encode_frame p tcp_key counter m) ≡ 29 + length (encode_body m [])
  unfolding encode_frame with_length seal
  length-encode_frame tcp_key counter m =
      let header = to_be_bytes 8 counter ++ msg_type m ∷ [] in
      let signed = encode_body m header in
      let sealed = signed ++ take tag_len (hmac tcp_key signed) in
      omega (
        arith,
        ap length (encode_body-append m header),
        length-append header (encode_body m []),
        length-append (to_be_bytes 8 counter) (msg_type m ∷ []),
        length-to_be_bytes 8 counter,
        length-append signed (take tag_len (hmac tcp_key signed)),
        length-take tag_len (hmac tcp_key signed),
        length-hmac tcp_key signed,
        length-append (to_be_bytes 4 (length sealed % 2 ^ 32)) sealed,
        length-to_be_bytes 4 (length sealed % 2 ^ 32),
      )

  signed-IsByte :
      (header : List ℕ) (m : Reliable)
      → InRange m
      → All IsByte header
      → All IsByte (encode_body m header)
  signed-IsByte header m h bytes =
      subst (All IsByte) (sym (encode_body-append m header))
        (All-append IsByte header (encode_body m []) bytes (body-IsByte m h))

  -- A frame of a message in range is bytes, whatever the key and the counter: at least the 29 of an
  -- empty body and at most the 53 of a pong.
  pub encode_frame-IsByte :
      (tcp_key : List ℕ) (counter : ℕ) (m : Reliable)
      → InRange m
      → All IsByte (encode_frame p tcp_key counter m)
        × (29 ≤ length (encode_frame p tcp_key counter m))
        × (length (encode_frame p tcp_key counter m) ≤ 53)
  unfolding encode_frame with_length seal
  encode_frame-IsByte tcp_key counter m h =
      let header = to_be_bytes 8 counter ++ msg_type m ∷ [] in
      let signed = encode_body m header in
      (
        wide 4 _ _ (
            All-append IsByte signed _
              (signed-IsByte header m h (wide 8 counter (msg_type m ∷ []) (msg_type-IsByte m, tt)))
              (All-take IsByte tag_len (hmac tcp_key signed) (hmac-IsByte tcp_key signed))),
        omega (arith, length-encode_frame tcp_key counter m),
        omega (arith, length-encode_frame tcp_key counter m, length-encode_body m),
      )
