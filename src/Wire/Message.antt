-- ===== src/Wire/Message.antt =====
-- protocol.rs: the reliable messages of the control channel, their type bytes, `encode_body` and
-- `decode`. An `i32` is its bit pattern; `encode_body` appends to the buffer it is given.
use remote_input_bridge.Base.{ℕ, ◌+◌, ◌<◌, ◌^◌, List, [], ◌∷◌, ◌++◌, Option, none, some, Bool, not}
use remote_input_bridge.Base.{if◌then◌else◌, ◌==◌, get_elem?, get_or, ◌>>=◌}
use remote_input_bridge.Wire.Bytes.{to_be_bytes, from_be_bytes, slice, bool_byte, IsByte}
pub mod Msg
pub mod Button
pub mod Bye
pub mod RoundTrip
pub mod Sound

pub data Reliable : Type 0 where
  session_start : (mouse_interval_us flags : ℕ) → Reliable
  ping : (t_send_us : ℕ) → Reliable
  pong : (t_send_us applied_events udp_recv udp_dropped : ℕ) → Reliable
  target_active : Bool → Reliable
  mouse_button : (button : ℕ) (down : Bool) → Reliable
  scroll : (units_x units_y : ℕ) → Reliable
  key : (hid_usage : ℕ) (down repeat : Bool) → Reliable
  modifier_sync : ℕ → Reliable
  release_all : Reliable
  mouse_move_rel : (dx dy : ℕ) → Reliable
  bye : ℕ → Reliable
  edge_hit : ℕ → Reliable

unfoldable pub msg_type : Reliable → ℕ
msg_type (session_start i f) = Msg.session_start
msg_type (ping t) = Msg.ping
msg_type (pong t a r d) = Msg.pong
msg_type (target_active b) = Msg.target_active
msg_type (mouse_button b d) = Msg.mouse_button
msg_type (scroll x y) = Msg.scroll
msg_type (key h d r) = Msg.key
msg_type (modifier_sync m) = Msg.modifier_sync
msg_type release_all = Msg.release_all
msg_type (mouse_move_rel x y) = Msg.mouse_move_rel
msg_type (bye r) = Msg.bye
msg_type (edge_hit e) = Msg.edge_hit

unfoldable pub encode_body : Reliable → List ℕ → List ℕ
unfolding bool_byte
encode_body (session_start i f) out = out ++ (to_be_bytes 4 i ++ f ∷ [])
encode_body (ping t) out = out ++ to_be_bytes 8 t
encode_body (pong t a r d) out =
    out ++ (to_be_bytes 8 t ++ (to_be_bytes 8 a ++ (to_be_bytes 4 r ++ to_be_bytes 4 d)))
encode_body (target_active b) out = out ++ bool_byte b ∷ []
encode_body (mouse_button b d) out = out ++ b ∷ bool_byte d ∷ []
encode_body (scroll x y) out = out ++ (to_be_bytes 4 x ++ to_be_bytes 4 y)
encode_body (key h d r) out = out ++ (to_be_bytes 2 h ++ bool_byte d ∷ bool_byte r ∷ [])
encode_body (modifier_sync m) out = out ++ to_be_bytes 2 m
encode_body release_all out = out
encode_body (mouse_move_rel x y) out = out ++ (to_be_bytes 4 x ++ to_be_bytes 4 y)
encode_body (bye r) out = out ++ r ∷ []
encode_body (edge_hit e) out = out ++ e ∷ []

-- `u64_at`, `u32_at` and `i32_at` at their widths.
unfoldable pub int_at : ℕ → List ℕ → ℕ → Option ℕ
int_at n b off = do s ← slice off n b; some (from_be_bytes s)

flag_at : List ℕ → ℕ → Option Bool
flag_at b off = do x ← get_elem? b off; some (not (x == 0))

unfoldable pub decode : ℕ → List ℕ → Option Reliable
unfolding int_at flag_at
decode t body =
    if t == Msg.session_start
    then (do i ← int_at 4 body 0; f ← get_elem? body 4; some (session_start i f))
    else if t == Msg.ping
    then (do s ← int_at 8 body 0; some (ping s))
    else if t == Msg.pong
    then (do
      s ← int_at 8 body 0
      a ← int_at 8 body 8
      r ← int_at 4 body 16
      d ← int_at 4 body 20
      some (pong s a r d))
    else if t == Msg.target_active
    then (do b ← flag_at body 0; some (target_active b))
    else if t == Msg.mouse_button
    then (do b ← get_elem? body 0; d ← flag_at body 1; some (mouse_button b d))
    else if t == Msg.scroll
    then (do x ← int_at 4 body 0; y ← int_at 4 body 4; some (scroll x y))
    else if t == Msg.key
    then (do h ← int_at 2 body 0; d ← flag_at body 2; r ← flag_at body 3; some (key h d r))
    else if t == Msg.modifier_sync
    then (do m ← int_at 2 body 0; some (modifier_sync m))
    else if t == Msg.release_all
    then some release_all
    else if t == Msg.mouse_move_rel
    then (do x ← int_at 4 body 0; y ← int_at 4 body 4; some (mouse_move_rel x y))
    else if t == Msg.bye
    then some (bye (get_or body 0 0))
    else if t == Msg.edge_hit
    then (do e ← get_elem? body 0; some (edge_hit e))
    else none

-- The ranges of the fields' types.
abbrev pub InRange : Reliable → Type 0
InRange (session_start i f) = (i < 2 ^ 32) × (f < 256)
InRange (ping t) = t < 2 ^ 64
InRange (pong t a r d) = (t < 2 ^ 64) × (a < 2 ^ 64) × (r < 2 ^ 32) × (d < 2 ^ 32)
InRange (target_active b) = Unit {0}
InRange (mouse_button b d) = b < 256
InRange (scroll x y) = (x < 2 ^ 32) × (y < 2 ^ 32)
InRange (key h d r) = h < 2 ^ 16
InRange (modifier_sync m) = m < 2 ^ 16
InRange release_all = Unit {0}
InRange (mouse_move_rel x y) = (x < 2 ^ 32) × (y < 2 ^ 32)
InRange (bye r) = r < 256
InRange (edge_hit e) = e < 256
