-- ===== src/Input/Mirror/Holds.antt =====
-- What the Mac holds after a whole run, from the start of the program.
use remote_input_bridge.Base.{ℕ, zero, suc, ◌<◌, ◌≡◌, ◌≢◌, refl, ap, sym, subst, arith, List, []}
use remote_input_bridge.Base.{◌∷◌, some, true, false, ◌∙◌}
use remote_input_bridge.Keymap.{hid_to_vk, modifier_bit, find_entry, hid_entries}
use remote_input_bridge.Config.{Config}
use remote_input_bridge.Tracker.{from_config, switch_to_mac, match_vk, on_key}
use remote_input_bridge.App.{AppState, remote_mac, is_remote, init_state, request_target}
use remote_input_bridge.Input.{handle_key_event, handle_button_event, handle_scroll, dispatch}
use remote_input_bridge.Input.{key_event}
use remote_input_bridge.Input.Mirror.{key_after, fold, mac_holds, mac_holds_button, Happening}
use remote_input_bridge.Input.Mirror.{key_at, button, wheel, hook_hotkey, op, happen, happen_all}
use remote_input_bridge.Input.Mirror.{IsUnnamed, IsMirrored, IsButtonMirrored}
use remote_input_bridge.Input.Mirror.Operations.{perform-IsMirrored, perform-IsButtonMirrored}
use remote_input_bridge.Input.Mirror.Operations.{dispatch-IsMirrored, dispatch-IsButtonMirrored}
use remote_input_bridge.Input.Mirror.Operations.{decision-IsMirrored, decision-IsButtonMirrored}
use remote_input_bridge.Input.Mirror.Operations.{perform-hotkeys, dispatch-hotkeys}
use remote_input_bridge.Input.Mirror.Operations.{decision-hotkeys}
use remote_input_bridge.Input.Mirror.Handlers.{handle_key_event-IsMirrored}
use remote_input_bridge.Input.Mirror.Handlers.{handle_button_event-IsMirrored}
use remote_input_bridge.Input.Mirror.Handlers.{handle_key_event-IsButtonMirrored}
use remote_input_bridge.Input.Mirror.Handlers.{handle_button_event-IsButtonMirrored}
use remote_input_bridge.Input.Mirror.Handlers.{handle_key_event-hotkeys}

happen-IsMirrored :
    (k : ℕ) (e : Happening) (st : AppState)
    → k < 256
    → IsUnnamed k st.hotkeys
    → IsMirrored k st
    → IsMirrored k (happen e st)
unfolding happen key_event handle_scroll
happen-IsMirrored k (key_at now hid down) st h u m =
    decision-IsMirrored k now _ _ h (handle_key_event-IsMirrored k hid down st h u m)
happen-IsMirrored k (button index down) st h u m = handle_button_event-IsMirrored k index down st m
happen-IsMirrored k (wheel x y) st h u m = unfold mac_holds in m
happen-IsMirrored k (hook_hotkey now action) st h u m = dispatch-IsMirrored k now action st h m
happen-IsMirrored k (op o) st h u m = perform-IsMirrored k o st h m

happen-IsButtonMirrored :
    (i : ℕ) (e : Happening) (st : AppState)
    → i < 5
    → IsButtonMirrored i st
    → IsButtonMirrored i (happen e st)
unfolding happen key_event handle_scroll
happen-IsButtonMirrored i (key_at now hid down) st h m =
    decision-IsButtonMirrored i now _ _ h (handle_key_event-IsButtonMirrored i hid down st m)
happen-IsButtonMirrored i (button index down) st h m =
    handle_button_event-IsButtonMirrored i index down st h m
happen-IsButtonMirrored i (wheel x y) st h m = unfold mac_holds_button in m
happen-IsButtonMirrored i (hook_hotkey now action) st h m =
    dispatch-IsButtonMirrored i now action st h m
happen-IsButtonMirrored i (op o) st h m = perform-IsButtonMirrored i o st h m

happen-hotkeys : (e : Happening) (st : AppState) → (happen e st).hotkeys ≡ st.hotkeys
unfolding happen key_event handle_scroll handle_button_event handle_key_event
happen-hotkeys (key_at now hid down) st =
    decision-hotkeys now _ _ ∙ handle_key_event-hotkeys hid down st
happen-hotkeys (button index down) st = ground arith
happen-hotkeys (wheel x y) st = refl
happen-hotkeys (hook_hotkey now action) st = dispatch-hotkeys now action st
happen-hotkeys (op o) st = perform-hotkeys o st

happen_all-IsMirrored :
    (k : ℕ) (es : List Happening) (st : AppState)
    → k < 256
    → IsUnnamed k st.hotkeys
    → IsMirrored k st
    → IsMirrored k (happen_all es st)
unfolding happen_all
happen_all-IsMirrored k [] st h u m = m
happen_all-IsMirrored k (e ∷ es) st h u m =
    happen_all-IsMirrored k es _ h (subst (IsUnnamed k) (sym (happen-hotkeys e st)) u)
      (happen-IsMirrored k e st h u m)

happen_all-IsButtonMirrored :
    (i : ℕ) (es : List Happening) (st : AppState)
    → i < 5
    → IsButtonMirrored i st
    → IsButtonMirrored i (happen_all es st)
unfolding happen_all
happen_all-IsButtonMirrored i [] st h m = m
happen_all-IsButtonMirrored i (e ∷ es) st h m =
    happen_all-IsButtonMirrored i es _ h (happen-IsButtonMirrored i e st h m)

-- From the start of the program, after any keys, buttons, wheel turns, hotkeys and operations of
-- other threads: a key that no hotkey names is held on the Mac exactly when the Mac has the input
-- and the key is down and not left over from before a switch.
pub init-IsMirrored :
    (cfg : Config) (k : ℕ) (es : List Happening)
    → k < 256
    → IsUnnamed k (from_config cfg)
    → IsMirrored k (happen_all es (init_state cfg))
unfolding init_state mac_holds is_remote fold
init-IsMirrored cfg k es h u = happen_all-IsMirrored k es (init_state cfg) h u refl

-- From the start of the program, after any keys, buttons, wheel turns, hotkeys and operations of
-- other threads: a mouse button is held on the Mac exactly when the Mac has the input and the button
-- is down and not left over from before a switch.
pub init-IsButtonMirrored :
    (cfg : Config) (i : ℕ) (es : List Happening)
    → i < 5
    → IsButtonMirrored i (happen_all es (init_state cfg))
unfolding init_state mac_holds_button is_remote fold
init-IsButtonMirrored cfg i es h = happen_all-IsButtonMirrored i es (init_state cfg) h refl

nonzero_hid : (k : ℕ) → hid_to_vk k ≢ 0 → 0 < k
unfolding hid_to_vk find_entry hid_entries
nonzero_hid zero v = absurd (v refl)
nonzero_hid (suc k) v = omega arith

-- The release of a stale key is swallowed.
stale_release :
    (k now : ℕ) (st : AppState)
    → k < 256
    → hid_to_vk k ≢ 0
    → st.tracker.keys_stale k ≡ true
    → let st' = key_event now k false st in
      (st'.target ≡ st.target) × (st'.sent ≡ st.sent) × (st'.tracker.keys_down k ≡ false)
unfolding key_event handle_key_event on_key
stale_release k now st h v s =
    let range : 0 < k = nonzero_hid k v in (ground arith, ground arith, ground arith)

-- A press that fires the switch to the Mac while the Mac has the input sends nothing.
futile_press :
    (k now : ℕ) (st : AppState)
    → st.target ≡ remote_mac
    → k < 256
    → modifier_bit k ≡ 0
    → hid_to_vk k ≢ 0
    → match_vk st.hotkeys (hid_to_vk k) st.tracker.modifiers ≡ some switch_to_mac
    → let st' = key_event now k true st in
      (st'.target ≡ remote_mac) × (st'.sent ≡ st.sent) × (st'.tracker.keys_stale k ≡ true)
unfolding key_event handle_key_event on_key dispatch request_target
futile_press k now st t h b v f =
    let range : 0 < k = nonzero_hid k v in (ground arith, ground arith, ground arith)

-- A key held on the Mac, whose auto-repeat comes to match the hotkey of the switch to the Mac while
-- the Mac has the input already: after its release the Mac still holds it.
pub retriggered_key_sticks :
    (k now later : ℕ) (st : AppState)
    → st.target ≡ remote_mac
    → k < 256
    → modifier_bit k ≡ 0
    → hid_to_vk k ≢ 0
    → match_vk st.hotkeys (hid_to_vk k) st.tracker.modifiers ≡ some switch_to_mac
    → mac_holds k st ≡ true
    → let st' = happen_all (key_at now k true ∷ key_at later k false ∷ []) st in
      (st'.target ≡ remote_mac) × (st'.tracker.keys_down k ≡ false) × (mac_holds k st' ≡ true)
unfolding happen_all happen mac_holds
retriggered_key_sticks k now later st t h b v f m =
    let (t', e, s) = futile_press k now st t h b v f in
    let (t'', e', d) = stale_release k later (key_event now k true st) h v s in
    (t'' ∙ t', d, ap (fold (key_after k) false) (e' ∙ e) ∙ m)
