-- ===== src/Hooks.antt =====
-- input/hooks.rs: the low-level hooks and the statics they keep, with the capture of a hotkey of
-- input/mod.rs that the keyboard hook ends. The constants and calls of Windows are outside: the
-- constants are the parameter `Constants`, what a call returns is an argument, and the clock is read
-- once per event. Redraws of the window and log lines are left out.
use remote_input_bridge.Base.{
  ℕ, ◌+◌, ◌-◌, ◌%◌, ◌^◌, List, Option, none, some, Bool, true, false, not, ◌&&◌, ◌||◌, ◌==◌, leb,
  ltb, bit_and, bit_or, if◌then◌else◌, update,
}
use remote_input_bridge.Keymap.{hid_usage, hid_none, modifier_bit_for_vk}
use remote_input_bridge.Hotkey.{format_hotkey}
use remote_input_bridge.Telemetry.{bump}
use remote_input_bridge.Tracker.{HotkeyAction, switch_to_mac, match_vk}
use remote_input_bridge.App.{AppState, is_remote}
use remote_input_bridge.Input.{dispatch, key_event}
pub mod Procedures
pub mod Keyboard
pub mod Swallowed
pub mod Triggers
pub mod Mouse

pub record Constants : Type 0 where
  pub hc_action : ℕ
  pub llkhf_extended : ℕ
  pub llkhf_injected : ℕ
  pub llmhf_injected : ℕ
  pub wm_keydown : ℕ
  pub wm_syskeydown : ℕ
  pub wm_mousemove : ℕ

-- The statics: whether each hook is installed, then the fields of the names of the source. `target`
-- and the pin of the cursor are in the state of the program.
pub record HookState : Type 0 where
  pub app : AppState
  pub keyboard_hook : Bool
  pub mouse_hook : Bool
  pub hooks_active : Bool
  pub hook_mods : ℕ
  pub swallowed : ℕ → Bool
  pub virtual_left : ℕ
  pub last_edge_switch_us : ℕ
  pub last_clip_us : ℕ
  pub capture_for : ℕ
  pub capture_until_us : ℕ
  pub captured : Option (ℕ × List ℕ)

abbrev pub edge_cooldown_us : ℕ
edge_cooldown_us = 700000

abbrev pub clip_refresh_us : ℕ
clip_refresh_us = 50000

abbrev pub capture_window_us : ℕ
capture_window_us = 6000000

unfoldable pub begin_capture : ℕ → ℕ → HookState → HookState
begin_capture now control h = record h {
  capture_until_us = (now + capture_window_us) % 2 ^ 64;
  capture_for = control;
}

unfoldable pub capture_target : ℕ → HookState → HookState × Option ℕ
capture_target now h =
    if h.capture_for == 0
    then (h, none)
    else if ltb h.capture_until_us now
    then (record h { capture_for = 0 }, none)
    else (h, some h.capture_for)

unfoldable pub cancel_capture : HookState → HookState
cancel_capture h = record h { capture_for = 0 }

unfoldable pub complete_capture : ℕ → List ℕ → HookState → HookState
complete_capture control text h = record h { capture_for = 0; captured = some (control, text) }

unfoldable pub take_capture : HookState → HookState × Option (ℕ × List ℕ)
take_capture h = (record h { captured = none }, h.captured)

-- Suppression needs both hooks.
unfoldable pub update_active : HookState → HookState
update_active h = record h { hooks_active = h.keyboard_hook && h.mouse_hook }

-- `granted` says whether the system installs the hook.
unfoldable pub install_keyboard : Bool → HookState → HookState × Bool
unfolding update_active
install_keyboard granted h =
    if h.keyboard_hook
    then (h, true)
    else (update_active (record h { keyboard_hook = granted }), granted)

unfoldable pub mouse_hook_needed : HookState → Bool
mouse_hook_needed h = is_remote h.app.target && h.app.suppress || h.app.edge_switch

unfoldable pub apply_mouse_hook : Bool → HookState → HookState
unfolding mouse_hook_needed update_active
apply_mouse_hook granted h =
    if mouse_hook_needed h
    then (if h.mouse_hook then h else update_active (record h { mouse_hook = granted }))
    else if h.mouse_hook
    then update_active (record h { mouse_hook = false })
    else h

unfoldable pub refresh_screen_bounds : ℕ → HookState → HookState
refresh_screen_bounds left h = record h { virtual_left = left }

unfoldable pub install : ℕ → Bool → Bool → HookState → HookState × Bool
unfolding refresh_screen_bounds install_keyboard apply_mouse_hook
install left keyboard_granted mouse_granted h =
    let (installed, keyboard) = install_keyboard keyboard_granted (refresh_screen_bounds left h) in
    (apply_mouse_hook mouse_granted installed, keyboard)

unfoldable pub uninstall : HookState → HookState
uninstall h = record h {
  app = record (h.app) { clip_active = false };
  keyboard_hook = false;
  mouse_hook = false;
  hooks_active = false;
}
