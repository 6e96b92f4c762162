-- ===== src/Input/Mirror.antt =====
-- What the Mac holds down, read off the messages sent to it, and what should be held.
use remote_input_bridge.Base.{
  ℕ, ◌<◌, ◌≡◌, ◌≢◌, refl, ap, sym, subst, arith, List, [], ◌∷◌, ◌++◌, Option, none, some, Bool,
  true, false, not, ◌&&◌, ◌||◌, ◌==◌, ◌∙◌, if◌then◌else◌,
}
use remote_input_bridge.Wire.Message.{Reliable, key, mouse_button}
use remote_input_bridge.Keymap.{hid_to_vk}
use remote_input_bridge.Config.{Config}
use remote_input_bridge.Tracker.{
  HotkeyAction, switch_to_mac, switch_to_windows, force_local, Hotkeys, match_vk, on_key, on_button,
  mark_all_stale, KeyDecision, forward, hotkey, drop,
}
use remote_input_bridge.Wire.Message.Button
use remote_input_bridge.App.{
  AppState, remote_mac, local_windows, NetMsg, input, target_changed, is_remote, init_state,
  request_target, set_link, set_config,
}
use remote_input_bridge.App.FailSafe.{Op, configure, link, request, force, perform}
use remote_input_bridge.App
use remote_input_bridge.Input.{
  handle_key_event, handle_button_event, handle_scroll, perform_action, is_duplicate, action_code,
  dispatch, dispatch_decision, key_event,
}
pub mod Operations
pub mod Handlers
pub mod Holds

-- A switch makes the Mac release everything; between switches it follows the keys.
unfoldable pub key_after : ℕ → Bool → NetMsg → Bool
key_after k held (input (key hid down repeat)) = if hid == k then down else held
key_after k held (target_changed t) = false
key_after k held _ = held

unfoldable pub button_after : ℕ → Bool → NetMsg → Bool
button_after i held (input (mouse_button index down)) = if index == i then down else held
button_after i held (target_changed t) = false
button_after i held _ = held

unfoldable pub fold : (Bool → NetMsg → Bool) → Bool → List NetMsg → Bool
fold f held [] = held
fold f held (m ∷ ms) = fold f (f held m) ms

-- Whether the Mac holds the key, the button.
unfoldable pub mac_holds : ℕ → AppState → Bool
mac_holds k st = fold (key_after k) false st.sent

unfoldable pub mac_holds_button : ℕ → AppState → Bool
mac_holds_button i st = fold (button_after i) false st.sent

pub fold-append :
    (f : Bool → NetMsg → Bool) (held : Bool) (ms : List NetMsg) (m : NetMsg)
    → fold f held (ms ++ m ∷ []) ≡ f (fold f held ms) m
unfolding fold
fold-append f held [] m = refl
fold-append f held (x ∷ ms) m = fold-append f (f held x) ms m

-- What happens to the state: keys at some time, buttons, the wheel, and the operations of other
-- threads.
pub data Happening : Type 0 where
  key_at : (now hid : ℕ) (down : Bool) → Happening
  button : (index : ℕ) (down : Bool) → Happening
  wheel : (units_x units_y : ℕ) → Happening
  hook_hotkey : (now : ℕ) → HotkeyAction → Happening
  op : Op → Happening

unfoldable pub happen : Happening → AppState → AppState
happen (key_at now hid down) st = key_event now hid down st
happen (button index down) st = (handle_button_event index down st).0
happen (wheel x y) st = handle_scroll x y st
happen (hook_hotkey now action) st = dispatch now action st
happen (op o) st = perform o st

unfoldable pub happen_all : List Happening → AppState → AppState
happen_all [] st = st
happen_all (h ∷ hs) st = happen_all hs (happen h st)

-- No hotkey names the key, whatever modifiers are down.
abbrev pub IsUnnamed : ℕ → Hotkeys → Type 0
IsUnnamed k hk = (mods : ℕ) → match_vk hk (hid_to_vk k) mods ≡ none

-- The Mac holds the key exactly when it has the input and the key is down and not stale.
abbrev pub IsMirrored : ℕ → AppState → Type 0
IsMirrored k st =
    mac_holds k st
    ≡ (is_remote st.target && (st.tracker.keys_down k && not (st.tracker.keys_stale k)))

abbrev pub IsButtonMirrored : ℕ → AppState → Type 0
IsButtonMirrored i st =
    mac_holds_button i st
    ≡ (is_remote st.target && (st.tracker.buttons_down i && not (st.tracker.buttons_stale i)))
