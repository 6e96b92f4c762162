-- ===== src/App.antt =====
-- state.rs: the shared state and its operations, with the statics of input/mod.rs and input/hooks.rs
-- that they reach. An `i32` is its bit pattern. The channel to the network thread is the list of
-- the messages sent, oldest first. Redraws of the window and log lines are left out.
use remote_input_bridge.Base.{
  ℕ, ◌+◌, ◌%◌, ◌^◌, List, [], ◌∷◌, ◌++◌, Option, none, some, Bool, true, false, not, ◌&&◌, ◌||◌,
  if◌then◌else◌,
}
use remote_input_bridge.Base.Text.{ascii}
use remote_input_bridge.Wire.Message.{Reliable}
use remote_input_bridge.Config.{Config}
use remote_input_bridge.Tracker.{Hotkeys, InputTracker, mark_all_stale, from_config, new}
use remote_input_bridge.Telemetry.{Telemetry}
use remote_input_bridge.Telemetry
pub mod FailSafe
pub mod Race
pub mod Labels

pub data Target : Type 0 where
  local_windows remote_mac : Target

pub data LinkState : Type 0 where
  disconnected connecting authenticating connected : LinkState

unfoldable pub is_remote : Target → Bool
is_remote remote_mac = true
is_remote local_windows = false

unfoldable pub is_connected : LinkState → Bool
is_connected connected = true
is_connected _ = false

unfoldable pub same_target : Target → Target → Bool
same_target local_windows t = not (is_remote t)
same_target remote_mac t = is_remote t

pub data NetMsg : Type 0 where
  input : Reliable → NetMsg
  target_changed : Target → NetMsg
  incoming : (generation : ℕ) → Reliable → NetMsg
  link_lost : (generation : ℕ) (reason : List ℕ) → NetMsg
  reconnect : NetMsg
  pair : (code : List ℕ) → NetMsg
  log_line : (level : ℕ) (text : List ℕ) → NetMsg
  config_changed : NetMsg
  shutdown : NetMsg

pub record Status : Type 0 where
  pub remote_name : List ℕ
  pub last_error : List ℕ
  pub pairing_required : Bool

-- The fields of `AppState`, then the tracker and the hotkeys of input/mod.rs, the deduplication of
-- its `dispatch`, and whether input/hooks.rs pins the cursor.
pub record AppState : Type 0 where
  pub target : Target
  pub link : LinkState
  pub suppress : Bool
  pub session_id : ℕ
  pub total_x : ℕ
  pub total_y : ℕ
  pub scroll_x : ℕ
  pub scroll_y : ℕ
  pub modifiers : ℕ
  pub udp_ready : Bool
  pub edge_switch : Bool
  pub suppress_preference : Bool
  pub cfg : Config
  pub status : Status
  pub tel : Telemetry
  pub sent : List NetMsg
  pub tracker : InputTracker
  pub hotkeys : Hotkeys
  pub last_dispatch_us : ℕ
  pub last_dispatch_action : ℕ
  pub clip_active : Bool

-- `init_state`, with the statics at their first values and the hotkeys that main.rs sets.
unfoldable pub init_state : Config → AppState
init_state cfg = record {
  target = local_windows;
  link = disconnected;
  suppress = false;
  session_id = 0;
  total_x = 0;
  total_y = 0;
  scroll_x = 0;
  scroll_y = 0;
  modifiers = 0;
  udp_ready = false;
  edge_switch = cfg.edge_switch;
  suppress_preference = cfg.suppress_local_input;
  cfg = cfg;
  status = record { remote_name = []; last_error = []; pairing_required = false };
  tel = Telemetry.default;
  sent = [];
  tracker = new;
  hotkeys = from_config cfg;
  last_dispatch_us = 0;
  last_dispatch_action = 0;
  clip_active = false;
}

unfoldable pub send : NetMsg → AppState → AppState
send msg st = record st { sent = st.sent ++ msg ∷ [] }

unfoldable pub set_config : Config → AppState → AppState
set_config cfg st = record st {
  edge_switch = cfg.edge_switch;
  suppress_preference = cfg.suppress_local_input;
  cfg = cfg;
}

unfoldable pub set_status_error : List ℕ → AppState → AppState
set_status_error msg st = record st { status = record (st.status) { last_error = msg } }

unfoldable pub set_remote_name : List ℕ → AppState → AppState
set_remote_name name st = record st { status = record (st.status) { remote_name = name } }

-- `input::on_target_changed`, with the cursor clip of `hooks::on_target_changed`.
unfoldable pub on_target_changed : Target → AppState → AppState
on_target_changed target st = record st {
  tracker = mark_all_stale st.tracker;
  clip_active = is_remote target && st.suppress;
}

-- A switch that happens: the flag first, then the tracker, then the word to the network thread.
switch_target : Target → AppState → AppState
unfolding send on_target_changed
switch_target target st =
    let swapped = record st {
      target = target;
      suppress = is_remote target && st.suppress_preference;
    } in
    send (target_changed target) (on_target_changed target swapped)

unfoldable pub apply_target : Target → AppState → AppState × Bool
unfolding same_target is_remote switch_target send on_target_changed
apply_target target st =
    if same_target st.target target then (st, false) else (switch_target target st, true)

unfoldable pub force_local : AppState → AppState × Bool
unfolding apply_target
force_local st = apply_target local_windows st

unfoldable pub set_link : LinkState → AppState → AppState
unfolding is_connected is_remote force_local
set_link link st =
    let stored = record st { link = link } in
    if not (is_connected link) && is_remote st.target then (force_local stored).0 else stored

unfoldable pub request_target : Target → AppState → AppState × Bool
unfolding is_connected is_remote apply_target set_status_error
request_target target st =
    if is_remote target && not (is_connected st.link)
    then (set_status_error (ascii "Cannot switch to Mac: not connected") st, false)
    else apply_target target st
