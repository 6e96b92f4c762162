-- ===== src/Window/Commands.antt =====
-- ui/window.rs, `handle_command`.
use remote_input_bridge.Base.{ℕ, ◌+◌, ◌-◌, [], Option, none, some, Bool, true, false}
use remote_input_bridge.Base.{not, ◌&&◌, ◌==◌, leb, ltb, if◌then◌else◌, get_elem?, ◌>>=◌}
use remote_input_bridge.Config.{is_blank}
use remote_input_bridge.App.{AppState, NetMsg, remote_mac, request_target, send, set_config}
use remote_input_bridge.App.{config_changed}
use remote_input_bridge.App
use remote_input_bridge.Hooks.{HookState, begin_capture, cancel_capture, capture_target}
use remote_input_bridge.Update.Install.{Stage, available, check, install}
use remote_input_bridge.Discovery.Search.{start_search}
use remote_input_bridge.Window.{Text, Program, Outcome, id_hotkey_mac, id_hotkey_windows}
use remote_input_bridge.Window.{id_hotkey_emergency, interval_choices, trim, refresh_status}
use remote_input_bridge.Window.{refresh_controls}
use remote_input_bridge.Window.{show, answer}
use remote_input_bridge.Tray.{remove}
use remote_input_bridge.Window.Save.{save_settings}

-- The command ids of ui/mod.rs, with the index of those that come in a row.
pub data Command : Type 0 where
  show_window switch_to_mac switch_to_windows reconnect pair save quit open_config_dir : Command
  toggle_edge force_local check_updates find_macs : Command
  record_key : ℕ → Command
  set_interval : ℕ → Command

-- The match of `handle_command`.
unfoldable pub command_of : ℕ → Option Command
command_of id =
    if id == 100
    then some show_window
    else if id == 101
    then some switch_to_mac
    else if id == 102
    then some switch_to_windows
    else if id == 103
    then some Command.reconnect
    else if id == 104
    then some Command.pair
    else if id == 105
    then some save
    else if id == 106
    then some quit
    else if id == 107
    then some open_config_dir
    else if id == 108
    then some toggle_edge
    else if id == 109
    then some Command.force_local
    else if id == 110
    then some check_updates
    else if leb 111 id && ltb id 114
    then some (record_key (id - 111))
    else if id == 114
    then some find_macs
    else if leb 120 id && ltb id 136
    then some (set_interval (id - 120))
    else none

-- A change of the state of the program.
abbrev pub with_app : (AppState → AppState) → Program → Program
with_app f p = record p { hooks = record (p.hooks) { app = f p.hooks.app } }

unfoldable pub hotkey_field : ℕ → ℕ
hotkey_field index =
    if index == 0
    then id_hotkey_mac
    else if index == 1
    then id_hotkey_windows
    else id_hotkey_emergency

is_field : Option ℕ → ℕ → Bool
is_field none field = false
is_field (some control) field = control == field

-- The button of a hotkey starts to record, or stops.
unfoldable pub record_hotkey : ℕ → ℕ → HookState → HookState
unfolding hotkey_field is_field capture_target begin_capture cancel_capture
record_hotkey now_us index h =
    let (seen, target) = capture_target now_us h in
    if is_field target (hotkey_field index)
    then cancel_capture seen
    else begin_capture now_us (hotkey_field index) seen

unfoldable pub is_ready : Stage → Bool
is_ready (available version) = true
is_ready _ = false

unfoldable pub flip_edge : AppState → AppState
unfolding set_config
flip_edge st = set_config (record (st.cfg) { edge_switch = not st.cfg.edge_switch }) st

unfoldable pub change_interval : ℕ → AppState → AppState
unfolding set_config send
change_interval ms st =
    send config_changed (set_config (record (st.cfg) { mouse_interval_ms = ms }) st)

-- `let _ = cfg.save()`.
unfoldable pub write_file : Outcome → Program → Program
write_file o p = if o.file_written then record p { disk = some p.hooks.app.cfg } else p

unfoldable pub pick_interval : Outcome → Option ℕ → Program → Program
unfolding change_interval write_file
pick_interval o none p = p
pick_interval o (some ms) p = refresh_controls o (write_file o (with_app (change_interval ms) p))

-- After the save of the button for pairing.
unfoldable pub pair_with : Text → Program → Program
unfolding send
pair_with code p =
    let sent = with_app (send (NetMsg.pair code)) p in
    record sent { form = record (sent.form) { pair_code = [] } }

unfoldable pub request_pairing : Outcome → Program → Option Program
unfolding save_settings pair_with trim is_blank
request_pairing o p =
    let code = trim p.form.pair_code in
    if is_blank code
    then some (record p { dialogs = p.dialogs + 1 })
    else (do after ← save_settings o p; some (pair_with code after))

-- `WM_DESTROY`, which `DestroyWindow` sends.
unfoldable pub destroy : Outcome → Program → Program
unfolding remove
destroy o p = record p {
  tray = remove (answer o.icon_added) (answer o.icon_changed) (λ s. s) p.tray;
  quitting = true;
}

unfoldable pub perform : Outcome → Command → Program → Option Program
unfolding save_settings request_pairing record_hotkey is_ready flip_edge pick_interval write_file
    check install start_search show destroy request_target App.force_local send
perform o show_window p = some (show o p)
perform o switch_to_mac p = some (with_app (λ st. (request_target remote_mac st).0) p)
perform o switch_to_windows p = some (with_app (λ st. (App.force_local st).0) p)
perform o Command.force_local p = some (with_app (λ st. (App.force_local st).0) p)
perform o Command.reconnect p = some (with_app (send NetMsg.reconnect) p)
perform o save p = save_settings o p
perform o Command.pair p = request_pairing o p
perform o (record_key index) p =
    some (refresh_status o (record p { hooks = record_hotkey o.now_us index p.hooks }))
perform o find_macs p =
    some (refresh_status o (record p { searcher = start_search o.spawned p.searcher }))
perform o open_config_dir p = some p
perform o check_updates p = some (
    refresh_status o (record p {
      updater =
          if is_ready p.updater.state.stage
          then install o.spawned p.updater
          else check o.spawned true p.updater;
    }))
perform o toggle_edge p = some (refresh_controls o (write_file o (with_app flip_edge p)))
perform o quit p = some (destroy o (record p { destroyed = true }))
perform o (set_interval index) p = some (pick_interval o (get_elem? interval_choices index) p)

unfoldable pub perform_if : Outcome → Option Command → Program → Option Program
unfolding perform
perform_if o none p = some p
perform_if o (some c) p = perform o c p

unfoldable pub handle_command : Outcome → ℕ → Program → Option Program
unfolding command_of perform_if
handle_command o id p = perform_if o (command_of id) p
