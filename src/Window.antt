-- ===== src/Window.antt =====
-- ui/window.rs and the commands of ui/mod.rs: the settings window over the state of the program, the
-- updater and the search. What its controls show are fields of a form. Texts that are only shown, the
-- drawing and the calls that make the controls are left out, but for the labels that follow a state.
use remote_input_bridge.Base.{
  ℕ, ◌+◌, ◌-◌, List, [], ◌∷◌, ◌++◌, Option, none, some, Bool, true, false, not, ◌&&◌, ◌||◌, ◌==◌,
  leb, if◌then◌else◌, get_elem?, get_or, ◌>>=◌,
}
use remote_input_bridge.Base.Text.{ascii}
use remote_input_bridge.Base.Decimal.{decimal}
use remote_input_bridge.Hotkey.{trim_start, trim_end}
use remote_input_bridge.Config.{Config, is_blank}
use remote_input_bridge.App.{AppState, is_connected}
use remote_input_bridge.Hooks.{HookState, capture_target, take_capture}
use remote_input_bridge.Tray.{Tray, update}
use remote_input_bridge.Banner.{Banner, Call, Desktop}
use remote_input_bridge.Update.Install.{
  Updater, Stage, idle, checking, up_to_date, available, downloading, installing, failed,
}
use remote_input_bridge.Discovery.Search.{Searcher, message, take_found}
pub mod Save
pub mod Messages
pub mod Commands
pub mod Saved
pub mod Raw
pub mod Kept
pub mod Pinned

abbrev pub Text : Type 0
Text = List ℕ

-- The controls: the edit fields, the check boxes, the index of the interval, the offered hosts, the
-- line of messages, and the labels of the buttons.
pub record Form : Type 0 where
  pub host : Text
  pub name : Text
  pub tcp : Text
  pub udp : Text
  pub hotkey_mac : Text
  pub hotkey_windows : Text
  pub hotkey_emergency : Text
  pub pair_code : Text
  pub edge : Bool
  pub suppress : Bool
  pub autoconnect : Bool
  pub use_udp : Bool
  pub diag_on : Bool
  pub auto_update : Bool
  pub autostart : Bool
  pub interval : Option ℕ
  pub hosts : List Text
  pub error : Text
  pub find_label : Text
  pub recording : Option ℕ
  pub update_label : Text
  pub update_enabled : Bool

-- The program as the window sees it; `autostart` is the entry of the registry, `disk` the last
-- config.json that was written, and `dialogs` and `menus` count the message boxes and the tray menus.
-- `controls` tells whether the controls are built, `focused` whether the field of the host was given the
-- focus, `calls` are those that moved the banner, and the last fields are what Raw Input keeps.
pub record Program : Type 0 where
  pub hooks : HookState
  pub updater : Updater
  pub searcher : Searcher
  pub form : Form
  pub autostart : Bool
  pub disk : Option Config
  pub dialogs : ℕ
  pub visible : Bool
  pub destroyed : Bool
  pub controls : Bool
  pub focused : Bool
  pub quitting : Bool
  pub menus : ℕ
  pub tray : Tray (Unit {0})
  pub banner : Banner
  pub calls : List Call
  pub abs_valid : Bool
  pub abs_x : ℕ
  pub abs_y : ℕ
  pub buffer_len : ℕ

-- What the calls of a command return: the clock, the host name, whether the registry and the file can
-- be written, whether a thread can be spawned, whether the shell adds the icon and changes it, and what
-- the calls of the banner find.
pub record Outcome : Type 0 where
  pub now_us : ℕ
  pub hostname : Text
  pub registry_written : Bool
  pub file_written : Bool
  pub spawned : Bool
  pub icon_added : Bool
  pub icon_changed : Bool
  pub desktop : Desktop
  pub is_window : Bool

abbrev pub id_hotkey_mac : ℕ
id_hotkey_mac = 215

abbrev pub id_hotkey_windows : ℕ
id_hotkey_windows = 216

abbrev pub id_hotkey_emergency : ℕ
id_hotkey_emergency = 217

abbrev pub interval_choices : List ℕ
interval_choices = 1 ∷ 2 ∷ 4 ∷ 8 ∷ []

unfoldable pub trim : Text → Text
unfolding trim_start trim_end
trim text = trim_end (trim_start text)

-- The line under the status.
unfoldable pub message_line : Option Text → AppState → Text
unfolding is_connected is_blank
message_line (some found) st = found
message_line none st =
    if st.status.pairing_required
    then ascii "Pairing required. " ++ st.status.last_error
    else if not (is_blank st.status.last_error) && not (is_connected st.link)
    then st.status.last_error
    else ascii "Switch to Mac: "
      ++ st.cfg.hotkey_switch_to_mac
      ++ ascii "    Switch to Windows: "
      ++ st.cfg.hotkey_switch_to_windows
      ++ ascii "    Emergency: "
      ++ st.cfg.hotkey_emergency_local

-- `set_text` of the control that a captured hotkey belongs in.
unfoldable pub put_captured : Option (ℕ × Text) → Form → Form
put_captured none f = f
put_captured (some (control, text)) f =
    if control == id_hotkey_mac
    then record f { hotkey_mac = text }
    else if control == id_hotkey_windows
    then record f { hotkey_windows = text }
    else if control == id_hotkey_emergency
    then record f { hotkey_emergency = text }
    else f

-- The hosts of a search; what was typed is kept, and else the first host is taken.
unfoldable pub put_hosts : Option (List Text) → Form → Form
unfolding is_blank trim
put_hosts none f = f
put_hosts (some hosts) f =
    let typed = trim f.host in
    record f { hosts = hosts; host = if is_blank typed then get_or hosts 0 [] else typed }

unfoldable pub update_button : Stage → Text × Bool
update_button (available version) = (ascii "Install " ++ version, true)
update_button checking = (ascii "Checking...", false)
update_button (downloading percent) = (ascii "Updating...", false)
update_button installing = (ascii "Updating...", false)
update_button _ = (ascii "Check for updates", true)

-- A call of the shell, whose state is not read.
abbrev pub answer : Bool → Unit {0} → Bool × Unit {0}
answer done s = (done, s)

unfoldable pub refresh_status : Outcome → Program → Program
unfolding message_line put_captured put_hosts update_button take_capture take_found capture_target
    update
refresh_status o p =
    let line = message_line (message o.now_us p.searcher.search) p.hooks.app in
    let (hooks1, captured) = take_capture p.hooks in
    let (found, search) = take_found p.searcher.search in
    let (hooks2, target) = capture_target o.now_us hooks1 in
    let (button, enabled) = update_button p.updater.state.stage in
    record p {
      hooks = hooks2;
      searcher = record (p.searcher) { search = search };
      tray = update (answer o.icon_added) (answer o.icon_changed) (λ s. s) p.tray;
      form = record (put_hosts found (put_captured captured p.form)) {
        error = line;
        find_label = if search.running then ascii "Looking..." else ascii "Find";
        recording = target;
        update_label = button;
        update_enabled = enabled;
      };
    }

-- `position(...).unwrap_or(1)`.
unfoldable pub index_of : ℕ → ℕ
index_of ms =
    if ms == 1 then 0 else if ms == 2 then 1 else if ms == 4 then 2 else if ms == 8 then 3 else 1

-- The controls from a configuration and the entry of the registry.
unfoldable pub fill : Config → Bool → Form → Form
unfolding index_of decimal
fill cfg autostart f = record f {
  host = cfg.mac_host;
  tcp = decimal cfg.tcp_port;
  udp = decimal cfg.udp_port;
  name = cfg.device_name;
  hotkey_mac = cfg.hotkey_switch_to_mac;
  hotkey_windows = cfg.hotkey_switch_to_windows;
  hotkey_emergency = cfg.hotkey_emergency_local;
  interval = some (index_of cfg.mouse_interval_ms);
  edge = cfg.edge_switch;
  suppress = cfg.suppress_local_input;
  autoconnect = cfg.auto_connect;
  use_udp = cfg.use_udp;
  diag_on = cfg.diagnostics;
  auto_update = cfg.auto_check_updates;
  autostart = autostart;
}

unfoldable pub refresh_controls : Outcome → Program → Program
unfolding fill
refresh_controls o p =
    refresh_status o (record p { form = fill p.hooks.app.cfg p.autostart p.form })

-- `show` of the window.
unfoldable pub show : Outcome → Program → Program
unfolding refresh_controls
show o p = refresh_controls o (record p { visible = true })
