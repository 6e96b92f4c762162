-- ===== src/Window/Save.antt =====
-- ui/window.rs, `save_settings`.
use remote_input_bridge.Base.{ℕ, ◌+◌, ◌^◌, Option, none, some, Bool, true, false, ◌||◌, ◌==◌}
use remote_input_bridge.Base.{if◌then◌else◌, get_elem?}
use remote_input_bridge.Base.Decimal.{parse_number}
use remote_input_bridge.Hotkey.{Hotkey, parse_hotkey}
use remote_input_bridge.Config.{Config, is_blank, sanitized}
use remote_input_bridge.App.{AppState, config_changed, is_remote, send, set_config}
use remote_input_bridge.Input.{set_hotkeys}
use remote_input_bridge.Window.{Text, Form, Program, Outcome, interval_choices, trim}
use remote_input_bridge.Window.{refresh_controls}

unfoldable pub accept_port : Option ℕ → ℕ → ℕ
accept_port none old = old
accept_port (some port) old = if port == 0 then old else port

-- A port field: what is no port from 1 to 65535 is passed over.
unfoldable pub port_of : Text → ℕ → ℕ
unfolding accept_port parse_number trim
port_of text old = accept_port (parse_number (2 ^ 16) (trim text)) old

unfoldable pub accept_hotkey : Option Hotkey → Text → Text → Text
accept_hotkey none text old = old
accept_hotkey (some key) text old = text

-- A hotkey field: an empty one, and one that does not parse, keep the old hotkey.
unfoldable pub hotkey_of : Text → Text → Text
unfolding accept_hotkey is_blank trim
hotkey_of text old =
    if is_blank (trim text) then old else accept_hotkey (parse_hotkey (trim text)) (trim text) old

is_some_key : Option Hotkey → Bool
is_some_key none = false
is_some_key (some key) = true

-- The message box for a field that does not parse.
unfoldable pub complaints : Text → ℕ
unfolding is_some_key is_blank trim
complaints text = if is_blank (trim text) || is_some_key (parse_hotkey (trim text)) then 0 else 1

unfoldable pub choose_interval : Option ℕ → ℕ → ℕ
choose_interval none old = old
choose_interval (some ms) old = ms

interval_at : Option ℕ → Option ℕ
interval_at none = none
interval_at (some index) = get_elem? interval_choices index

-- The configuration from the controls and the previous one, before it is cleaned.
unfoldable pub read_form : Form → Config → Config
unfolding port_of hotkey_of choose_interval interval_at trim
read_form f previous = record previous {
  mac_host = trim f.host;
  device_name = trim f.name;
  edge_switch = f.edge;
  suppress_local_input = f.suppress;
  auto_connect = f.autoconnect;
  use_udp = f.use_udp;
  diagnostics = f.diag_on;
  auto_check_updates = f.auto_update;
  start_with_system = f.autostart;
  tcp_port = port_of f.tcp previous.tcp_port;
  udp_port = port_of f.udp previous.udp_port;
  hotkey_switch_to_mac = hotkey_of f.hotkey_mac previous.hotkey_switch_to_mac;
  hotkey_switch_to_windows = hotkey_of f.hotkey_windows previous.hotkey_switch_to_windows;
  hotkey_emergency_local = hotkey_of f.hotkey_emergency previous.hotkey_emergency_local;
  mouse_interval_ms = choose_interval (interval_at f.interval) previous.mouse_interval_ms;
}

-- `autostart::set`, when the entry is not what the box says.
unfoldable pub set_autostart : Bool → Bool → Bool → Bool
set_autostart written wanted old = if written then wanted else old

-- What the save does to the state of the program.
unfoldable pub adopt : Config → AppState → AppState
unfolding set_hotkeys set_config send is_remote
adopt cfg st =
    let hot = set_hotkeys cfg st in
    let suppressed =
      if is_remote hot.target then record hot { suppress = cfg.suppress_local_input } else hot in
    send config_changed (set_config cfg suppressed)

unfoldable pub store : Outcome → Config → Program → Program
unfolding adopt set_autostart complaints
store o cfg p = refresh_controls o (record p {
  hooks = record (p.hooks) { app = adopt cfg p.hooks.app };
  autostart = set_autostart o.registry_written cfg.start_with_system p.autostart;
  disk = if o.file_written then some cfg else p.disk;
  dialogs =
      p.dialogs
      + complaints p.form.hotkey_mac
      + complaints p.form.hotkey_windows
      + complaints p.form.hotkey_emergency;
})

unfoldable pub store_cleaned : Outcome → Option Config → Program → Option Program
unfolding store
store_cleaned o none p = none
store_cleaned o (some cfg) p = some (store o cfg p)

-- `none` is a panic of the cleaning.
unfoldable pub save_settings : Outcome → Program → Option Program
unfolding store_cleaned read_form
save_settings o p = store_cleaned o (sanitized o.hostname (read_form p.form p.hooks.app.cfg)) p
