-- ===== src/Input/Mirror/Handlers.antt =====
-- What the handlers of keys and buttons do to what the Mac holds.
use remote_input_bridge.Base.{ℕ, ◌<◌, ◌≡◌, arith, Bool, true, false}
use remote_input_bridge.Wire.Message.{key, mouse_button}
use remote_input_bridge.Tracker.{on_key, on_button}
use remote_input_bridge.App.{AppState, input, is_remote}
use remote_input_bridge.Input.{handle_key_event, handle_button_event}
use remote_input_bridge.Input.Mirror.{key_after, button_after, mac_holds, mac_holds_button}
use remote_input_bridge.Input.Mirror.{fold-append, IsUnnamed, IsMirrored, IsButtonMirrored}

pub handle_key_event-IsMirrored :
    (k hid : ℕ) (down : Bool) (st : AppState)
    → k < 256
    → IsUnnamed k st.hotkeys
    → IsMirrored k st
    → IsMirrored k (handle_key_event hid down st).0
unfolding handle_key_event on_key mac_holds key_after is_remote
handle_key_event-IsMirrored k hid true st h u m = ground (
  arith,
  u st.tracker.modifiers,
  fold-append (key_after k) false st.sent (input (key hid true true)),
  fold-append (key_after k) false st.sent (input (key hid true false)),
)
handle_key_event-IsMirrored k hid false st h u m = ground (
  arith,
  u st.tracker.modifiers,
  fold-append (key_after k) false st.sent (input (key hid false false)),
)

pub handle_button_event-IsMirrored :
    (k index : ℕ) (down : Bool) (st : AppState)
    → IsMirrored k st
    → IsMirrored k (handle_button_event index down st).0
unfolding handle_button_event on_button mac_holds key_after is_remote
handle_button_event-IsMirrored k index down st m =
    ground (arith, fold-append (key_after k) false st.sent (input (mouse_button index down)))

pub handle_key_event-IsButtonMirrored :
    (i hid : ℕ) (down : Bool) (st : AppState)
    → IsButtonMirrored i st
    → IsButtonMirrored i (handle_key_event hid down st).0
unfolding handle_key_event on_key mac_holds_button button_after is_remote
handle_key_event-IsButtonMirrored i hid true st m = ground (
  arith,
  fold-append (button_after i) false st.sent (input (key hid true true)),
  fold-append (button_after i) false st.sent (input (key hid true false)),
)
handle_key_event-IsButtonMirrored i hid false st m =
    ground (arith, fold-append (button_after i) false st.sent (input (key hid false false)))

pub handle_button_event-IsButtonMirrored :
    (i index : ℕ) (down : Bool) (st : AppState)
    → i < 5
    → IsButtonMirrored i st
    → IsButtonMirrored i (handle_button_event index down st).0
unfolding handle_button_event on_button mac_holds_button button_after is_remote
handle_button_event-IsButtonMirrored i index down st h m =
    ground (arith, fold-append (button_after i) false st.sent (input (mouse_button index down)))

pub handle_key_event-hotkeys :
    (hid : ℕ) (down : Bool) (st : AppState) → (handle_key_event hid down st).0.hotkeys ≡ st.hotkeys
unfolding handle_key_event
handle_key_event-hotkeys hid down st = ground arith
