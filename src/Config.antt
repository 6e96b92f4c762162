-- ===== src/Config.antt =====
-- config.rs: the configuration, its defaults and `sanitized`; from net/mod.rs the transport key.
-- Texts are lists of code points. The host name of the machine is an argument.
use remote_input_bridge.Base.{
  ℕ, ◌*◌, ◌%◌, ◌^◌, List, [], ◌∷◌, Option, none, some, Bool, true, false, not, ◌&&◌, ◌||◌, ◌==◌,
  ltb, if◌then◌else◌, ◌>>=◌,
}
use remote_input_bridge.Base.Text.{ascii, text_eq}
use remote_input_bridge.Hotkey.{trim_start, trim_end}
pub mod Sanitized

pub record Config : Type 0 where
  pub mac_host : List ℕ
  pub tcp_port : ℕ
  pub udp_port : ℕ
  pub device_name : List ℕ
  pub mouse_interval_ms : ℕ
  pub heartbeat_ms : ℕ
  pub heartbeat_timeout_ms : ℕ
  pub auto_connect : Bool
  pub start_with_system : Bool
  pub edge_switch : Bool
  pub suppress_local_input : Bool
  pub keepalive_stream : Bool
  pub keepalive_interval_ms : ℕ
  pub use_udp : Bool
  pub hotkey_switch_to_mac : List ℕ
  pub hotkey_switch_to_windows : List ℕ
  pub hotkey_emergency_local : List ℕ
  pub log_level : List ℕ
  pub auto_check_updates : Bool
  pub diagnostics : Bool

unfoldable pub default : List ℕ → Config
default hostname = record {
  mac_host = [];
  tcp_port = 47821;
  udp_port = 47822;
  device_name = hostname;
  mouse_interval_ms = 2;
  heartbeat_ms = 300;
  heartbeat_timeout_ms = 1000;
  auto_connect = true;
  start_with_system = false;
  edge_switch = false;
  suppress_local_input = true;
  keepalive_stream = true;
  keepalive_interval_ms = 10;
  use_udp = true;
  hotkey_switch_to_mac = ascii "Ctrl+Alt+Left";
  hotkey_switch_to_windows = ascii "Ctrl+Alt+Right";
  hotkey_emergency_local = ascii "Ctrl+Alt+Shift+Escape";
  log_level = ascii "INFO";
  auto_check_updates = true;
  diagnostics = true;
}

-- `MOUSE_INTERVAL_CHOICES_MS.contains`.
unfoldable pub is_interval_choice : ℕ → Bool
is_interval_choice ms = ms == 1 || (ms == 2 || (ms == 4 || ms == 8))

-- `Ord::clamp`, which panics (`none`) when the bounds are the wrong way round.
unfoldable pub clamp : ℕ → ℕ → ℕ → Option ℕ
clamp lo hi x =
    if ltb hi lo then none else some (if ltb x lo then lo else if ltb hi x then hi else x)

unfoldable pub is_blank : List ℕ → Bool
is_blank [] = true
is_blank (c ∷ cs) = false

-- `none` is a panic, of a clamp or of the multiplication `heartbeat_ms * 2` in 64 bits.
unfoldable pub sanitized : List ℕ → Config → Option Config
unfolding is_blank
sanitized hostname c = do
  keepalive ← clamp 0 500 c.keepalive_interval_ms
  heartbeat ← clamp 50 5000 c.heartbeat_ms
  least ← if ltb (heartbeat * 2) (2 ^ 64) then some (heartbeat * 2) else none
  timeout ← clamp least 30000 c.heartbeat_timeout_ms
  some (record c {
    mouse_interval_ms = if is_interval_choice c.mouse_interval_ms then c.mouse_interval_ms else 2;
    keepalive_interval_ms = keepalive;
    heartbeat_ms = heartbeat;
    heartbeat_timeout_ms = timeout;
    device_name =
        if is_blank (trim_end (trim_start c.device_name)) then hostname else c.device_name;
  })

-- In 32 bits; a sanitized interval does not wrap.
unfoldable pub mouse_interval_us : Config → ℕ
mouse_interval_us c = c.mouse_interval_ms * 1000 % 2 ^ 32

pub record TransportKey : Type 0 where
  pub host : List ℕ
  pub tcp_port : ℕ
  pub udp_port : ℕ
  pub interval_ms : ℕ
  pub use_udp : Bool
  pub keepalive_stream : Bool
  pub keepalive_interval_ms : ℕ

unfoldable pub transport_key : Config → TransportKey
transport_key c = record {
  host = c.mac_host;
  tcp_port = c.tcp_port;
  udp_port = c.udp_port;
  interval_ms = c.mouse_interval_ms;
  use_udp = c.use_udp;
  keepalive_stream = c.keepalive_stream;
  keepalive_interval_ms = c.keepalive_interval_ms;
}

bool_eq : Bool → Bool → Bool
bool_eq a b = if a then b else not b

-- The derived `==` of transport keys.
unfoldable pub transport_eq : TransportKey → TransportKey → Bool
unfolding bool_eq
transport_eq a b =
    text_eq a.host b.host
    && (a.tcp_port == b.tcp_port
        && (a.udp_port == b.udp_port
            && (a.interval_ms == b.interval_ms
                && (bool_eq a.use_udp b.use_udp
                    && (bool_eq a.keepalive_stream b.keepalive_stream
                        && a.keepalive_interval_ms == b.keepalive_interval_ms)))))
