-- ===== src/Input/Dispatch.antt =====
-- input/mod.rs, `dispatch`: a hotkey is recognised by the hook and by Raw Input, and both dispatch it.
use remote_input_bridge.Base.{ℕ, ◌+◌, ◌<◌, ◌≡◌, ◌≢◌, arith, false}
use remote_input_bridge.Tracker.{HotkeyAction, switch_to_mac, switch_to_windows, force_local}
use remote_input_bridge.App.{AppState, local_windows, request_target, is_remote}
use remote_input_bridge.App
use remote_input_bridge.Input.{dispatch, is_duplicate, perform_action, dispatch_dedupe_us}

-- A press that both paths dispatch acts once: within 200 ms of a dispatch that was no duplicate
-- itself, the same action again changes nothing.
pub dispatch_once :
    (now later : ℕ) (action : HotkeyAction) (st : AppState)
    → is_duplicate now action st ≡ false
    → later < now + dispatch_dedupe_us
    → dispatch later action (dispatch now action st) ≡ dispatch now action st
unfolding dispatch is_duplicate perform_action request_target App.force_local
dispatch_once now later switch_to_mac st fresh soon = ground arith
dispatch_once now later switch_to_windows st fresh soon = ground arith
dispatch_once now later force_local st fresh soon = ground arith

-- The deduplication never holds back the emergency hotkey after another action: at any time after
-- a dispatch of it that was no duplicate, the emergency hotkey puts the input on Windows.
dispatch_emergency :
    (now later : ℕ) (action : HotkeyAction) (st : AppState)
    → action ≢ force_local
    → is_duplicate now action st ≡ false
    → (dispatch later force_local (dispatch now action st)).target ≡ local_windows
unfolding dispatch is_duplicate perform_action request_target App.force_local is_remote
dispatch_emergency now later action st other fresh = ground arith
