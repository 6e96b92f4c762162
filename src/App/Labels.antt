-- ===== src/App/Labels.antt =====
-- state.rs: `Target::label`, `LinkState::label` and `status_line`.
use remote_input_bridge.Base.{List, ◌++◌, ℕ, if◌then◌else◌}
use remote_input_bridge.Base.Text.{ascii}
use remote_input_bridge.Config.{is_blank}
use remote_input_bridge.App.{
  Target, local_windows, remote_mac, LinkState, disconnected, connecting, authenticating, connected,
  AppState,
}

unfoldable pub target_label : Target → List ℕ
target_label local_windows = ascii "Windows"
target_label remote_mac = ascii "Mac"

unfoldable pub link_label : LinkState → List ℕ
link_label disconnected = ascii "Disconnected"
link_label connecting = ascii "Connecting"
link_label authenticating = ascii "Authenticating"
link_label connected = ascii "Connected"

unfoldable pub status_line : AppState → List ℕ
unfolding target_label link_label is_blank
status_line st =
    let host = if is_blank st.cfg.mac_host then ascii "<not set>" else st.cfg.mac_host in
    let name = st.status.remote_name in
    let remote = if is_blank name then host else name ++ (ascii " (" ++ (host ++ ascii ")")) in
    link_label st.link
    ++ (ascii " | Mac: " ++ (remote ++ (ascii " | Active input: " ++ target_label st.target)))
