-- ===== src/Wire/Message/Msg.antt =====
-- protocol.rs, `mod msg`: the type bytes of the reliable messages.
use remote_input_bridge.Base.{ℕ}

abbrev pub session_start : ℕ
session_start = 0x01

abbrev pub ping : ℕ
ping = 0x02

abbrev pub pong : ℕ
pong = 0x03

abbrev pub target_active : ℕ
target_active = 0x04

abbrev pub mouse_button : ℕ
mouse_button = 0x05

abbrev pub scroll : ℕ
scroll = 0x06

abbrev pub key : ℕ
key = 0x07

abbrev pub modifier_sync : ℕ
modifier_sync = 0x08

abbrev pub release_all : ℕ
release_all = 0x09

abbrev pub mouse_move_rel : ℕ
mouse_move_rel = 0x0a

abbrev pub bye : ℕ
bye = 0x0b

abbrev pub edge_hit : ℕ
edge_hit = 0x0c

abbrev pub log : ℕ
log = 0x0d
