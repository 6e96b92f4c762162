-- ===== src/Wire/Message/RoundTrip.antt =====
-- protocol.rs: `encode_body` against `decode`.
use remote_input_bridge.Base.{◌≡◌, refl, ap, ap₂, [], some, true, false}
use remote_input_bridge.Wire.Bytes.{to_be_bytes, from-to_be_bytes, slice}
use remote_input_bridge.Wire.Message.{Reliable, session_start, ping, pong, target_active}
use remote_input_bridge.Wire.Message.{mouse_button, scroll, key, modifier_sync, release_all}
use remote_input_bridge.Wire.Message.{mouse_move_rel, bye, edge_hit, InRange, msg_type}
use remote_input_bridge.Wire.Message.{encode_body, decode}

-- Every message whose fields are in the range of their types is decoded to itself from its type
-- byte and its encoded body.
pub decode-encode_body :
    (m : Reliable) → InRange m → decode (msg_type m) (encode_body m []) ≡ some m
unfolding decode msg_type encode_body to_be_bytes slice
decode-encode_body (session_start i f) h =
    ap (λ x. some (session_start x f)) (from-to_be_bytes 4 i h.0)
decode-encode_body (ping t) h = ap (λ x. some (ping x)) (from-to_be_bytes 8 t h)
decode-encode_body (pong t a r d) h = λ i. some (
    pong (from-to_be_bytes 8 t h.0 i) (from-to_be_bytes 8 a h.1 i) (from-to_be_bytes 4 r h.2 i)
      (from-to_be_bytes 4 d h.3 i))
decode-encode_body (target_active true) h = refl
decode-encode_body (target_active false) h = refl
decode-encode_body (mouse_button b true) h = refl
decode-encode_body (mouse_button b false) h = refl
decode-encode_body (scroll x y) h =
    ap₂ (λ x y. some (scroll x y)) (from-to_be_bytes 4 x h.0) (from-to_be_bytes 4 y h.1)
decode-encode_body (key k true true) h = ap (λ x. some (key x true true)) (from-to_be_bytes 2 k h)
decode-encode_body (key k true false) h = ap (λ x. some (key x true false)) (from-to_be_bytes 2 k h)
decode-encode_body (key k false true) h = ap (λ x. some (key x false true)) (from-to_be_bytes 2 k h)
decode-encode_body (key k false false) h =
    ap (λ x. some (key x false false)) (from-to_be_bytes 2 k h)
decode-encode_body (modifier_sync m) h = ap (λ x. some (modifier_sync x)) (from-to_be_bytes 2 m h)
decode-encode_body release_all h = refl
decode-encode_body (mouse_move_rel x y) h =
    ap₂ (λ x y. some (mouse_move_rel x y)) (from-to_be_bytes 4 x h.0) (from-to_be_bytes 4 y h.1)
decode-encode_body (bye r) h = refl
decode-encode_body (edge_hit e) h = refl
