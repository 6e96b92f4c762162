-- ===== src/Input/Mirror/Operations.antt =====
-- What the operations of other threads and the dispatch of a hotkey do to what the Mac holds.
use remote_input_bridge.Base.{ℕ, ◌<◌, ◌≡◌, refl, arith, true, false, if◌then◌else◌, if-either}
use remote_input_bridge.Tracker.{HotkeyAction, switch_to_mac, switch_to_windows, force_local}
use remote_input_bridge.Tracker.{mark_all_stale, KeyDecision, forward, hotkey, drop}
use remote_input_bridge.App.{AppState, remote_mac, local_windows, NetMsg, input, target_changed}
use remote_input_bridge.App.{is_remote, init_state, request_target, set_link, set_config}
use remote_input_bridge.App.FailSafe.{Op, configure, link, request, force, save_suppress, perform}
use remote_input_bridge.App
use remote_input_bridge.Input.{perform_action, is_duplicate, action_code, dispatch}
use remote_input_bridge.Input.{dispatch_decision}
use remote_input_bridge.Input.Mirror.{key_after, button_after, mac_holds, mac_holds_button}
use remote_input_bridge.Input.Mirror.{fold-append, IsMirrored, IsButtonMirrored}

pub perform-IsMirrored :
    (k : ℕ) (o : Op) (st : AppState) → k < 256 → IsMirrored k st → IsMirrored k (perform o st)
unfolding perform set_config set_link request_target App.force_local mac_holds mark_all_stale
    key_after is_remote
perform-IsMirrored k (configure cfg) st h m = m
perform-IsMirrored k (link l) st h m =
    ground (arith, fold-append (key_after k) false st.sent (target_changed local_windows))
perform-IsMirrored k (request t) st h m =
    ground (arith, fold-append (key_after k) false st.sent (target_changed t))
perform-IsMirrored k force st h m =
    ground (arith, fold-append (key_after k) false st.sent (target_changed local_windows))
perform-IsMirrored k (save_suppress b) st h m =
    if-either (IsMirrored k) (is_remote st.target) _ _ (λ remote. m) (λ local. m)

pub perform-IsButtonMirrored :
    (i : ℕ) (o : Op) (st : AppState)
    → i < 5
    → IsButtonMirrored i st
    → IsButtonMirrored i (perform o st)
unfolding perform set_config set_link request_target App.force_local mac_holds_button mark_all_stale
    button_after is_remote
perform-IsButtonMirrored i (configure cfg) st h m = m
perform-IsButtonMirrored i (link l) st h m =
    ground (arith, fold-append (button_after i) false st.sent (target_changed local_windows))
perform-IsButtonMirrored i (request t) st h m =
    ground (arith, fold-append (button_after i) false st.sent (target_changed t))
perform-IsButtonMirrored i force st h m =
    ground (arith, fold-append (button_after i) false st.sent (target_changed local_windows))
perform-IsButtonMirrored i (save_suppress b) st h m =
    if-either (IsButtonMirrored i) (is_remote st.target) _ _ (λ remote. m) (λ local. m)

perform_action-IsMirrored :
    (k : ℕ) (action : HotkeyAction) (st : AppState)
    → k < 256
    → IsMirrored k st
    → IsMirrored k (perform_action action st)
unfolding perform_action perform
perform_action-IsMirrored k switch_to_mac st h m = perform-IsMirrored k (request remote_mac) st h m
perform_action-IsMirrored k switch_to_windows st h m =
    perform-IsMirrored k (request local_windows) st h m
perform_action-IsMirrored k force_local st h m = perform-IsMirrored k force st h m

perform_action-IsButtonMirrored :
    (i : ℕ) (action : HotkeyAction) (st : AppState)
    → i < 5
    → IsButtonMirrored i st
    → IsButtonMirrored i (perform_action action st)
unfolding perform_action perform
perform_action-IsButtonMirrored i switch_to_mac st h m =
    perform-IsButtonMirrored i (request remote_mac) st h m
perform_action-IsButtonMirrored i switch_to_windows st h m =
    perform-IsButtonMirrored i (request local_windows) st h m
perform_action-IsButtonMirrored i force_local st h m = perform-IsButtonMirrored i force st h m

-- A dispatch performs its action, or it is a duplicate and does nothing.
dispatch_keeps :
    (P : AppState → Type 0) (now : ℕ) (action : HotkeyAction) (st : AppState)
    → P st
    → P (
        perform_action action
          (record st { last_dispatch_action = action_code action; last_dispatch_us = now }))
    → P (dispatch now action st)
unfolding dispatch
dispatch_keeps P now action st m n =
    elim (is_duplicate now action st)
      as (λ b. P (
        if b
        then st
        else perform_action action
            (record st { last_dispatch_action = action_code action; last_dispatch_us = now }))) [
              | true ↦ m
              | false ↦ n
            ]

pub dispatch-IsMirrored :
    (k now : ℕ) (action : HotkeyAction) (st : AppState)
    → k < 256
    → IsMirrored k st
    → IsMirrored k (dispatch now action st)
unfolding mac_holds
dispatch-IsMirrored k now action st h m =
    dispatch_keeps (IsMirrored k) now action st m (perform_action-IsMirrored k action _ h m)

pub dispatch-IsButtonMirrored :
    (i now : ℕ) (action : HotkeyAction) (st : AppState)
    → i < 5
    → IsButtonMirrored i st
    → IsButtonMirrored i (dispatch now action st)
unfolding mac_holds_button
dispatch-IsButtonMirrored i now action st h m =
    dispatch_keeps (IsButtonMirrored i) now action st m
      (perform_action-IsButtonMirrored i action _ h m)

pub decision-IsMirrored :
    (k now : ℕ) (d : KeyDecision) (st : AppState)
    → k < 256
    → IsMirrored k st
    → IsMirrored k (dispatch_decision now d st)
unfolding dispatch_decision
decision-IsMirrored k now (forward r) st h m = m
decision-IsMirrored k now drop st h m = m
decision-IsMirrored k now (hotkey a) st h m = dispatch-IsMirrored k now a st h m

pub decision-IsButtonMirrored :
    (i now : ℕ) (d : KeyDecision) (st : AppState)
    → i < 5
    → IsButtonMirrored i st
    → IsButtonMirrored i (dispatch_decision now d st)
unfolding dispatch_decision
decision-IsButtonMirrored i now (forward r) st h m = m
decision-IsButtonMirrored i now drop st h m = m
decision-IsButtonMirrored i now (hotkey a) st h m = dispatch-IsButtonMirrored i now a st h m

pub perform-hotkeys : (o : Op) (st : AppState) → (perform o st).hotkeys ≡ st.hotkeys
unfolding perform set_config set_link request_target App.force_local
perform-hotkeys (configure cfg) st = ground arith
perform-hotkeys (link l) st = ground arith
perform-hotkeys (request t) st = ground arith
perform-hotkeys force st = ground arith
perform-hotkeys (save_suppress b) st = ground arith

perform_action-hotkeys :
    (action : HotkeyAction) (st : AppState) → (perform_action action st).hotkeys ≡ st.hotkeys
unfolding perform_action perform
perform_action-hotkeys switch_to_mac st = perform-hotkeys (request remote_mac) st
perform_action-hotkeys switch_to_windows st = perform-hotkeys (request local_windows) st
perform_action-hotkeys force_local st = perform-hotkeys force st

pub dispatch-hotkeys :
    (now : ℕ) (action : HotkeyAction) (st : AppState)
    → (dispatch now action st).hotkeys ≡ st.hotkeys
dispatch-hotkeys now action st =
    dispatch_keeps (λ s. s.hotkeys ≡ st.hotkeys) now action st refl
      (perform_action-hotkeys action _)

pub decision-hotkeys :
    (now : ℕ) (d : KeyDecision) (st : AppState) → (dispatch_decision now d st).hotkeys ≡ st.hotkeys
unfolding dispatch_decision
decision-hotkeys now (forward r) st = refl
decision-hotkeys now drop st = refl
decision-hotkeys now (hotkey a) st = dispatch-hotkeys now a st
