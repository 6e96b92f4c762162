-- ===== src/Input.antt =====
-- input/mod.rs, the handlers that both input paths share: a key, a button or the wheel runs through
-- the tracker and goes to the network thread while the Mac owns the input, and a hotkey is
-- dispatched once. The clock is an argument.
use remote_input_bridge.Base.{
  ℕ, ◌+◌, ◌-◌, ◌%◌, ◌^◌, List, Option, none, some, Bool, true, false, not, ◌&&◌, ◌==◌, ltb,
  if◌then◌else◌,
}
use remote_input_bridge.Wire.Message.{key, mouse_button}
use remote_input_bridge.Config.{Config}
use remote_input_bridge.Tracker.{
  HotkeyAction, switch_to_mac, switch_to_windows, force_local, KeyDecision, forward, drop, hotkey,
  on_key, on_button, from_config,
}
use remote_input_bridge.App.{
  AppState, local_windows, remote_mac, is_remote, input, send, request_target,
}
use remote_input_bridge.App
pub mod Mirror
pub mod Dispatch
pub mod Kept
pub mod Safe

-- `set_hotkeys`, without the warnings.
unfoldable pub set_hotkeys : Config → AppState → AppState
set_hotkeys cfg st = record st { hotkeys = from_config cfg }

unfoldable pub is_forward : KeyDecision → Bool
is_forward (forward repeat) = true
is_forward _ = false

forward_key : ℕ → Bool → KeyDecision → AppState → AppState
unfolding send is_remote
forward_key hid down (forward repeat) st =
    if is_remote st.target then send (input (key hid down repeat)) st else st
forward_key hid down drop st = st
forward_key hid down (hotkey action) st = st

unfoldable pub handle_key_event : ℕ → Bool → AppState → AppState × KeyDecision
unfolding forward_key
handle_key_event hid down st =
    let (t, decision) = on_key hid down st.hotkeys st.tracker in
    let tracked = record st { tracker = t; modifiers = t.modifiers } in
    (forward_key hid down decision tracked, decision)

unfoldable pub handle_button_event : ℕ → Bool → AppState → AppState × KeyDecision
unfolding send is_remote is_forward
handle_button_event index down st =
    let (t, decision) = on_button index down st.tracker in
    let tracked = record st { tracker = t } in
    (
      if is_forward decision && is_remote st.target
          then send (input (mouse_button index down)) tracked
          else tracked,
      decision,
    )

-- The sums of `fetch_add` wrap at 32 bits.
unfoldable pub handle_scroll : ℕ → ℕ → AppState → AppState
handle_scroll units_x units_y st = record st {
  scroll_x = if units_x == 0 then st.scroll_x else (st.scroll_x + units_x) % 2 ^ 32;
  scroll_y = if units_y == 0 then st.scroll_y else (st.scroll_y + units_y) % 2 ^ 32;
}

abbrev pub dispatch_dedupe_us : ℕ
dispatch_dedupe_us = 200000

-- `action as u8`.
unfoldable pub action_code : HotkeyAction → ℕ
action_code switch_to_mac = 1
action_code switch_to_windows = 2
action_code force_local = 3

unfoldable pub perform_action : HotkeyAction → AppState → AppState
unfolding request_target App.force_local
perform_action switch_to_mac st = (request_target remote_mac st).0
perform_action switch_to_windows st = (request_target local_windows st).0
perform_action force_local st = (App.force_local st).0

unfoldable pub is_duplicate : ℕ → HotkeyAction → AppState → Bool
unfolding action_code
is_duplicate now action st =
    st.last_dispatch_action == action_code action
    && ltb (now - st.last_dispatch_us) dispatch_dedupe_us

unfoldable pub dispatch : ℕ → HotkeyAction → AppState → AppState
unfolding is_duplicate perform_action
dispatch now action st =
    if is_duplicate now action st
    then st
    else perform_action action
        (record st { last_dispatch_action = action_code action; last_dispatch_us = now })

unfoldable pub dispatch_decision : ℕ → KeyDecision → AppState → AppState
dispatch_decision now (hotkey action) st = dispatch now action st
dispatch_decision now (forward repeat) st = st
dispatch_decision now drop st = st

-- The end of `forward_swallowed_key` and of `handle_keyboard`: the key is handled, and a hotkey is
-- dispatched.
unfoldable pub key_event : ℕ → ℕ → Bool → AppState → AppState
unfolding dispatch_decision
key_event now hid down st =
    let (handled, decision) = handle_key_event hid down st in dispatch_decision now decision handled
