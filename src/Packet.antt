-- ===== src/Packet.antt =====
-- protocol.rs, the datagram of the realtime channel: `MouseMovePacket` and its `encode`. The buffer
-- of zeros is filled from front to back without a gap, so it is the list of the parts.
use remote_input_bridge.Base.{ℕ, List, [], ◌∷◌, ◌++◌, take}
use remote_input_bridge.Wire.Bytes.{to_be_bytes}
use remote_input_bridge.Crypto.{Primitives}
pub mod Layout

abbrev pub udp_magic : ℕ
udp_magic = 0x5249

abbrev pub udp_version : ℕ
udp_version = 1

abbrev pub udp_type_mouse_move : ℕ
udp_type_mouse_move = 1

abbrev pub udp_packet_len : ℕ
udp_packet_len = 44

pub record MouseMovePacket : Type 0 where
  pub session_id : ℕ
  pub sequence : ℕ
  pub timestamp_us : ℕ
  pub total_x : ℕ
  pub total_y : ℕ

-- The first 36 bytes.
unfoldable pub head : MouseMovePacket → List ℕ
head m =
    to_be_bytes 2 udp_magic
    ++ (udp_version ∷ udp_type_mouse_move ∷ [])
    ++ (to_be_bytes 8 m.session_id
        ++ (to_be_bytes 8 m.sequence
            ++ (to_be_bytes 8 m.timestamp_us
                ++ (to_be_bytes 4 m.total_x ++ to_be_bytes 4 m.total_y))))

unfoldable pub encode : Primitives → List ℕ → MouseMovePacket → List ℕ
unfolding head
encode p udp_key m = head m ++ take 8 (p.hmac udp_key (head m))
