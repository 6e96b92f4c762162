-- ===== src/RawInput.antt =====
-- input/raw_input.rs: the reports of Raw Input, from `WM_INPUT` to the handlers. The constants of
-- Windows are the parameter `Flags`; what the two reading calls give is an argument: the answers of
-- `GetRawInputBuffer`, one per call, and the report of `GetRawInputData`. The contents of the buffer
-- are left out, and so are log lines.
use remote_input_bridge.Base.{
  ℕ, suc, ◌+◌, ◌-◌, ◌*◌, ◌/◌, ◌%◌, ◌^◌, List, [], ◌∷◌, Option, none, some, Bool, true, false, not,
  ◌&&◌, ◌||◌, ◌==◌, ltb, leb, bit_and, if◌then◌else◌, length,
}
use remote_input_bridge.Wire.Message.Button
use remote_input_bridge.Keymap.{hid_usage, hid_none}
use remote_input_bridge.Telemetry.{bump}
use remote_input_bridge.App.{AppState}
use remote_input_bridge.Input.{handle_scroll, handle_button_event, key_event}
pub mod Absolute
pub mod Delivery
pub mod Kept

pub record Flags : Type 0 where
  pub mouse_move_absolute : ℕ
  pub ri_mouse_wheel : ℕ
  pub ri_mouse_hwheel : ℕ
  pub left_button_down : ℕ
  pub left_button_up : ℕ
  pub right_button_down : ℕ
  pub right_button_up : ℕ
  pub middle_button_down : ℕ
  pub middle_button_up : ℕ
  pub button_4_down : ℕ
  pub button_4_up : ℕ
  pub button_5_down : ℕ
  pub button_5_up : ℕ
  pub ri_key_e0 : ℕ
  pub ri_key_e1 : ℕ
  pub ri_key_break : ℕ

-- `RAWMOUSE`, with the bit patterns of its positions, and `RAWKEYBOARD`.
pub record RawMouse : Type 0 where
  pub us_flags : ℕ
  pub last_x : ℕ
  pub last_y : ℕ
  pub us_button_flags : ℕ
  pub us_button_data : ℕ

pub record RawKeyboard : Type 0 where
  pub make_code : ℕ
  pub flags : ℕ
  pub vkey : ℕ

pub data RawEvent : Type 0 where
  mouse : RawMouse → RawEvent
  keyboard : RawKeyboard → RawEvent
  other : RawEvent

-- The state of the program, with the position of the last absolute report.
pub record RawState : Type 0 where
  pub app : AppState
  pub abs_valid : Bool
  pub abs_x : ℕ
  pub abs_y : ℕ

abbrev has_flag : ℕ → ℕ → Bool
has_flag flags flag = not (bit_and flags flag == 0)

-- The `fetch_add`s of `handle_mouse`.
unfoldable pub add_motion : ℕ → ℕ → AppState → AppState
add_motion dx dy st = record st {
  total_x = (st.total_x + dx) % 2 ^ 32;
  total_y = (st.total_y + dy) % 2 ^ 32;
}

-- `-` on `i32`, with the wrap of a release build.
unfoldable pub i32_sub : ℕ → ℕ → ℕ
i32_sub a b = (a + 2 ^ 32 - b) % 2 ^ 32

-- `as i16 as i32`.
unfoldable pub sign_extend : ℕ → ℕ
sign_extend raw = if ltb raw (2 ^ 15) then raw else raw + (2 ^ 32 - 2 ^ 16)

unfoldable pub move_absolute : ℕ → ℕ → RawState → RawState
unfolding add_motion i32_sub
move_absolute x y r =
    let dx = i32_sub x r.abs_x in
    let dy = i32_sub y r.abs_y in
    let moved = if r.abs_valid && not (dx == 0 && dy == 0) then add_motion dx dy r.app else r.app in
    record { app = moved; abs_valid = true; abs_x = x; abs_y = y }

unfoldable pub move_relative : ℕ → ℕ → RawState → RawState
unfolding add_motion
move_relative x y r = record r { app = if x == 0 && y == 0 then r.app else add_motion x y r.app }

unfoldable pub scroll_wheel : ℕ → Bool → Bool → AppState → AppState
unfolding sign_extend
scroll_wheel raw wheel hwheel st =
    let turned = if wheel then handle_scroll 0 (sign_extend raw) st else st in
    if hwheel then handle_scroll (sign_extend raw) 0 turned else turned

-- The loop over `BUTTON_FLAGS`.
unfoldable pub press_buttons : ℕ → List (ℕ × ℕ × Bool) → AppState → AppState
press_buttons flags [] st = st
press_buttons flags ((flag, index, down) ∷ rest) st =
    press_buttons flags rest
      (if has_flag flags flag then (handle_button_event index down st).0 else st)

unfoldable pub count_mouse : AppState → AppState
unfolding bump
count_mouse st = record st {
  tel = record (st.tel) { raw_mouse_events = bump st.tel.raw_mouse_events 1 };
}

unfoldable pub count_message : AppState → AppState
unfolding bump
count_message st = record st {
  tel = record (st.tel) { wm_input_messages = bump st.tel.wm_input_messages 1 };
}

unfoldable pub count_keyboard : AppState → AppState
unfolding bump
count_keyboard st = record st {
  tel = record (st.tel) { raw_kbd_events = bump st.tel.raw_kbd_events 1 };
}

module _ (w : Flags) where
  unfoldable pub button_flags : List (ℕ × ℕ × Bool)
  button_flags =
      (w.left_button_down, Button.left, true)
      ∷ (w.left_button_up, Button.left, false)
      ∷ (w.right_button_down, Button.right, true)
      ∷ (w.right_button_up, Button.right, false)
      ∷ (w.middle_button_down, Button.middle, true)
      ∷ (w.middle_button_up, Button.middle, false)
      ∷ (w.button_4_down, Button.back, true)
      ∷ (w.button_4_up, Button.back, false)
      ∷ (w.button_5_down, Button.forward, true)
      ∷ (w.button_5_up, Button.forward, false)
      ∷ []

  unfoldable pub handle_mouse : RawMouse → RawState → RawState
  unfolding count_mouse move_absolute move_relative scroll_wheel press_buttons button_flags
  handle_mouse m r =
      let counted = record r { app = count_mouse r.app } in
      let moved =
        if has_flag m.us_flags w.mouse_move_absolute
        then move_absolute m.last_x m.last_y counted
        else move_relative m.last_x m.last_y counted in
      let flags = m.us_button_flags in
      let turned =
        scroll_wheel m.us_button_data (has_flag flags w.ri_mouse_wheel)
          (has_flag flags w.ri_mouse_hwheel) moved.app in
      if flags == 0 then moved else record moved { app = press_buttons flags button_flags turned }

  unfoldable pub handle_keyboard : ℕ → RawKeyboard → RawState → RawState
  unfolding count_keyboard
  handle_keyboard now k r =
      let counted = record r { app = count_keyboard r.app } in
      let hid = hid_usage k.make_code (has_flag k.flags w.ri_key_e0) k.vkey in
      let down = bit_and k.flags w.ri_key_break == 0 in
      if k.vkey == 0xff
      then counted
      else if has_flag k.flags w.ri_key_e1 && k.make_code == 0x1d
      then counted
      else if hid == hid_none
      then counted
      else record counted { app = key_event now hid down counted.app }

  unfoldable pub dispatch : ℕ → RawEvent → RawState → RawState
  unfolding handle_mouse handle_keyboard
  dispatch now (mouse m) r = handle_mouse m r
  dispatch now (keyboard k) r = handle_keyboard now k r
  dispatch now other r = r

  -- The reports of one answer.
  unfoldable pub dispatch_all : ℕ → List RawEvent → RawState → RawState
  unfolding dispatch
  dispatch_all now [] r = r
  dispatch_all now (e ∷ es) r = dispatch_all now es (dispatch now e r)

abbrev pub buffer_qwords : ℕ
buffer_qwords = 2048

abbrev pub max_buffer_qwords : ℕ
max_buffer_qwords = 65536

-- What `GetRawInputBuffer` answers: nothing left, a failure with the size in bytes that it asks for,
-- or reports.
pub data Answer : Type 0 where
  drained : Answer
  failure : (size : ℕ) → Answer
  batch : List RawEvent → Answer

module _ (w : Flags) (next_power_of_two : ℕ → ℕ) where
  -- The loop of `drain_buffered`, an answer a turn: the number of reports, the length of the buffer,
  -- the state. An empty batch is the answer `drained`.
  unfoldable pub drain : ℕ → List Answer → ℕ → ℕ → RawState → ℕ × ℕ × RawState
  unfolding dispatch_all
  drain now [] processed len r = (processed, len, r)
  drain now (drained ∷ rest) processed len r = (processed, len, r)
  drain now (failure size ∷ rest) processed len r =
      let needed = size / 8 + 2 in
      let grown = drain now rest processed (next_power_of_two needed) r in
      if ltb len needed && leb needed max_buffer_qwords then grown else (processed, len, r)
  drain now (batch events ∷ rest) processed len r =
      let next = drain now rest (processed + length events) len (dispatch_all w now events r) in
      if length events == 0 then (processed, len, r) else next

  -- `on_wm_input`, with the report that a single read would give.
  unfoldable pub on_wm_input : ℕ → List Answer → Option RawEvent → ℕ → RawState → ℕ × RawState
  unfolding drain dispatch count_message
  on_wm_input now answers single len r =
      let counted = record r { app = count_message r.app } in
      let (processed, len', after) = drain now answers 0 len counted in
      if processed == 0
      then (len', elim single [ none ↦ after | some e ↦ dispatch w now e after ])
      else (len', after)
