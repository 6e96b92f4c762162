-- ===== src/RawInput/Kept.antt =====
-- input/raw_input.rs: what `WM_INPUT` keeps of the state of the program.
use remote_input_bridge.Base.{ℕ, refl, List, [], ◌∷◌, Option, none, some, Bool, ◌==◌, if-either}
use remote_input_bridge.Base.{◌&&◌, ◌+◌, ◌/◌, ltb, leb, not, length, bit_and}
use remote_input_bridge.Keymap.{hid_usage, hid_none}
use remote_input_bridge.Telemetry.{Telemetry}
use remote_input_bridge.App.{AppState}
use remote_input_bridge.Input.Kept.{IsKept, key_event-keeps, handle_button_event-keeps}
use remote_input_bridge.Input.Kept.{handle_scroll-keeps}
use remote_input_bridge.RawInput.{Flags, RawMouse, RawKeyboard, RawEvent, RawState, Answer}
use remote_input_bridge.RawInput.{mouse, keyboard, other, drained, failure, batch}
use remote_input_bridge.RawInput.{has_flag, add_motion, move_absolute, move_relative, i32_sub}
use remote_input_bridge.RawInput.{scroll_wheel, press_buttons, count_mouse, count_keyboard}
use remote_input_bridge.RawInput.{count_message, button_flags, handle_mouse, handle_keyboard}
use remote_input_bridge.RawInput.{sign_extend, dispatch, dispatch_all, max_buffer_qwords, drain}
use remote_input_bridge.RawInput.{on_wm_input}

module _ (P : AppState → Type 0) (kept : IsKept P) where
  tel-keeps : (tel : Telemetry) (st : AppState) → P st → P (record st { tel = tel })
  tel-keeps tel st h =
      kept.alike st _
        (record {
          cfg = refl;
          hotkeys = refl;
          edge = refl;
          preference = refl;
          link = refl;
          target = refl;
          suppress = refl;
          clip = refl;
        })
        h

  add_motion-keeps : (dx dy : ℕ) (st : AppState) → P st → P (add_motion dx dy st)
  unfolding add_motion
  add_motion-keeps dx dy st h =
      kept.alike st _
        (record {
          cfg = refl;
          hotkeys = refl;
          edge = refl;
          preference = refl;
          link = refl;
          target = refl;
          suppress = refl;
          clip = refl;
        })
        h

  move_absolute-keeps : (x y : ℕ) (r : RawState) → P r.app → P (move_absolute x y r).app
  unfolding move_absolute
  move_absolute-keeps x y r h =
      let dx = i32_sub x r.abs_x in
      let dy = i32_sub y r.abs_y in
      if-either P (r.abs_valid && not (dx == 0 && dy == 0)) _ _
        (λ moved. add_motion-keeps dx dy r.app h) (λ still. h)

  move_relative-keeps : (x y : ℕ) (r : RawState) → P r.app → P (move_relative x y r).app
  unfolding move_relative
  move_relative-keeps x y r h =
      if-either P _ _ _ (λ still. h) (λ moved. add_motion-keeps x y r.app h)

  scroll_wheel-keeps :
      (raw : ℕ) (wheel hwheel : Bool) (st : AppState) → P st → P (scroll_wheel raw wheel hwheel st)
  unfolding scroll_wheel
  scroll_wheel-keeps raw wheel hwheel st h =
      let turned =
        if-either P wheel _ _ (λ yes. handle_scroll-keeps P kept 0 (sign_extend raw) st h)
          (λ no. h) in
      if-either P hwheel _ _ (λ yes. handle_scroll-keeps P kept (sign_extend raw) 0 _ turned)
        (λ no. turned)

  press_buttons-keeps :
      (flags : ℕ) (bs : List (ℕ × ℕ × Bool)) (st : AppState) → P st → P (press_buttons flags bs st)
  unfolding press_buttons
  press_buttons-keeps flags [] st h = h
  press_buttons-keeps flags ((flag, index, down) ∷ rest) st h = press_buttons-keeps flags rest _ (
      if-either P (has_flag flags flag) _ _
        (λ set. handle_button_event-keeps P kept index down st h) (λ clear. h))

  module _ (w : Flags) where
    handle_mouse-keeps : (m : RawMouse) (r : RawState) → P r.app → P (handle_mouse w m r).app
    unfolding handle_mouse count_mouse
    handle_mouse-keeps m r h =
        let counted : RawState = record r { app = count_mouse r.app } in
        let moved =
          if-either (λ (s : RawState). P s.app) (has_flag m.us_flags w.mouse_move_absolute) _ _
            (λ absolute. move_absolute-keeps m.last_x m.last_y counted (tel-keeps _ r.app h))
            (λ relative. move_relative-keeps m.last_x m.last_y counted (tel-keeps _ r.app h)) in
        if-either (λ (s : RawState). P s.app) (m.us_button_flags == 0) _ _ (λ none_set. moved)
          (λ some_set.
            press_buttons-keeps m.us_button_flags (button_flags w) _
              (scroll_wheel-keeps m.us_button_data _ _ _ moved))

    handle_keyboard-keeps :
        (now : ℕ) (k : RawKeyboard) (r : RawState) → P r.app → P (handle_keyboard w now k r).app
    unfolding handle_keyboard count_keyboard
    handle_keyboard-keeps now k r h =
        let counted = tel-keeps _ r.app h in
        let hid = hid_usage k.make_code (has_flag k.flags w.ri_key_e0) k.vkey in
        if-either (λ (s : RawState). P s.app) (k.vkey == 0xff) _ _ (λ fake. counted)
          (λ real.
            if-either (λ (s : RawState). P s.app)
              (has_flag k.flags w.ri_key_e1 && k.make_code == 0x1d) _ _ (λ prefix. counted)
              (λ whole.
                if-either (λ (s : RawState). P s.app) (hid == hid_none) _ _ (λ unmapped. counted)
                  (λ mapped.
                    key_event-keeps P kept now hid (bit_and k.flags w.ri_key_break == 0) _
                      counted)))

    dispatch-keeps : (now : ℕ) (e : RawEvent) (r : RawState) → P r.app → P (dispatch w now e r).app
    unfolding dispatch
    dispatch-keeps now (mouse m) r h = handle_mouse-keeps m r h
    dispatch-keeps now (keyboard k) r h = handle_keyboard-keeps now k r h
    dispatch-keeps now other r h = h

    dispatch_all-keeps :
        (now : ℕ) (es : List RawEvent) (r : RawState) → P r.app → P (dispatch_all w now es r).app
    unfolding dispatch_all
    dispatch_all-keeps now [] r h = h
    dispatch_all-keeps now (e ∷ es) r h =
        dispatch_all-keeps now es (dispatch w now e r) (dispatch-keeps now e r h)

    module _ (grow : ℕ → ℕ) where
      drain-keeps :
          (now : ℕ) (answers : List Answer) (n len : ℕ) (r : RawState)
          → P r.app
          → P (drain w grow now answers n len r).2.app
      unfolding drain
      drain-keeps now [] n len r h = h
      drain-keeps now (drained ∷ rest) n len r h = h
      drain-keeps now (failure size ∷ rest) n len r h =
          let needed = size / 8 + 2 in
          if-either (λ (x : ℕ × ℕ × RawState). P x.2.app)
            (ltb len needed && leb needed max_buffer_qwords)
            (drain w grow now rest n (grow needed) r) (n, len, r)
            (λ short. drain-keeps now rest n (grow needed) r h) (λ failed. h)
      drain-keeps now (batch events ∷ rest) n len r h =
          if-either (λ (x : ℕ × ℕ × RawState). P x.2.app) (length events == 0) _ _ (λ empty. h)
            (λ filled.
              drain-keeps now rest (n + length events) len _ (dispatch_all-keeps now events r h))

      single-keeps :
          (now : ℕ) (single : Option RawEvent) (r : RawState)
          → P r.app
          → P (elim single as (λ _. RawState) [ none ↦ r | some e ↦ dispatch w now e r ]).app
      single-keeps now none r h = h
      single-keeps now (some e) r h = dispatch-keeps now e r h

      -- Raw Input keeps what the keys, the buttons, the wheel and the hotkeys keep.
      pub on_wm_input-keeps :
          (now : ℕ) (answers : List Answer) (single : Option RawEvent) (len : ℕ) (r : RawState)
          → P r.app
          → P (on_wm_input w grow now answers single len r).1.app
      unfolding on_wm_input count_message
      on_wm_input-keeps now answers single len r h =
          let counted : RawState = record r { app = count_message r.app } in
          let (n, len', after) = drain w grow now answers 0 len counted in
          let held = drain-keeps now answers 0 len counted (tel-keeps _ r.app h) in
          if-either (λ (x : ℕ × RawState). P x.1.app) (n == 0)
            (
              len',
              elim single as (λ _. RawState) [ none ↦ after | some e ↦ dispatch w now e after ],
            )
            (len', after) (λ nothing. single-keeps now single after held) (λ something. held)
