-- ===== src/Tests/Toy.antt =====
-- Concrete values for the tests: primitives that meet what is assumed of the crates, keys, states.
use remote_input_bridge.Base.{ℕ, zero, suc, ◌+◌, ◌*◌, ◌%◌, refl, List, [], arith, replicate}
use remote_input_bridge.Base.{length, All}
use remote_input_bridge.Base.{none, some, true, false}
use remote_input_bridge.Base.Text.{ascii, text_eq, text_eq_refl, text_eq→eq}
use remote_input_bridge.Wire.Bytes.{IsByte}
use remote_input_bridge.Crypto.{Primitives}
use remote_input_bridge.RawInput.{Flags}
use remote_input_bridge.Config.{Config}
use remote_input_bridge.App.{AppState, init_state, remote_mac, connected}
use remote_input_bridge.Net.{NetState, Connection}
use remote_input_bridge.Config

-- A checksum in place of a hash.
abbrev digest : List ℕ → List ℕ → List ℕ
digest key bytes = replicate 32 ((length key * 7 + length bytes) % 256)

pub All-replicate : (n b : ℕ) → IsByte b → All IsByte (replicate n b)
All-replicate zero b h = tt
All-replicate (suc n) b h = (h, All-replicate n b h)

abbrev pub toy : Primitives
toy = record {
  hmac = digest;
  hkdf32 = λ ikm salt info. digest ikm info;
  slices_eq = text_eq;
  length-hmac = λ key bytes. refl;
  hmac-IsByte = λ key bytes. All-replicate 32 _ (omega arith);
  length-hkdf32 = λ ikm salt info. refl;
  hkdf32-IsByte = λ ikm salt info. All-replicate 32 _ (omega arith);
  slices_eq_iff = λ a b. (text_eq→eq a b, λ e. rw e (text_eq_refl b));
}

abbrev pub toy_key : List ℕ
toy_key = replicate 32 3

abbrev pub config : Config
config = Config.default (ascii "PC")

abbrev pub idle : AppState
idle = init_state config

-- The link is up, and the input on Windows, then on the Mac.
abbrev pub linked : AppState
linked = record idle { link = connected }

abbrev pub driving : AppState
driving = record idle { link = connected; target = remote_mac; suppress = true }

abbrev pub connection : Connection
connection = record { generation = 1; last_ping = 0; last_pong = 0 }

abbrev pub online : NetState
online = record {
  app = driving;
  conn = some connection;
  generation = 1;
  attempt = 0;
  next_attempt = 0;
  pair_code = none;
  manual_request = false;
  transport = Config.transport_key config;
  connected_once = true;
  written = [];
  writes = 0;
}

abbrev pub flags : Flags
flags = record {
  mouse_move_absolute = 1;
  ri_mouse_wheel = 0x400;
  ri_mouse_hwheel = 0x800;
  left_button_down = 1;
  left_button_up = 2;
  right_button_down = 4;
  right_button_up = 8;
  middle_button_down = 0x10;
  middle_button_up = 0x20;
  button_4_down = 0x40;
  button_4_up = 0x80;
  button_5_down = 0x100;
  button_5_up = 0x200;
  ri_key_e0 = 2;
  ri_key_e1 = 4;
  ri_key_break = 1;
}
