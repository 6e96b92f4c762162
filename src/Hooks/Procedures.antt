-- ===== src/Hooks/Procedures.antt =====
-- input/hooks.rs: `keyboard_proc` and `mouse_proc`. A procedure gives true when it swallows the event;
-- no result is the panic of an index out of bounds.
use remote_input_bridge.Base.{ℕ, ◌+◌, ◌-◌, ◌%◌, ◌^◌, Option, none, some, Bool, true, false, not}
use remote_input_bridge.Base.{◌&&◌, ◌||◌, ◌==◌, leb, ltb, bit_and, bit_or, if◌then◌else◌, update}
use remote_input_bridge.Keymap.{hid_usage, hid_none, modifier_bit_for_vk}
use remote_input_bridge.Hotkey.{format_hotkey}
use remote_input_bridge.Telemetry.{bump}
use remote_input_bridge.Tracker.{HotkeyAction, switch_to_mac, match_vk}
use remote_input_bridge.App.{is_remote}
use remote_input_bridge.Input.{dispatch, key_event}
use remote_input_bridge.Hooks.{Constants, HookState, edge_cooldown_us, clip_refresh_us}
use remote_input_bridge.Hooks.{capture_target, complete_capture}

-- `KBDLLHOOKSTRUCT`, and `MSLLHOOKSTRUCT` with the bit pattern of the horizontal position.
pub record KeyInfo : Type 0 where
  pub vk_code : ℕ
  pub scan_code : ℕ
  pub flags : ℕ

pub record MouseInfo : Type 0 where
  pub pt_x : ℕ
  pub flags : ℕ

-- `<=` on `i32`.
unfoldable pub signed_leb : ℕ → ℕ → Bool
signed_leb a b = leb ((a + 2 ^ 31) % 2 ^ 32) ((b + 2 ^ 31) % 2 ^ 32)

-- `SWALLOWED[vk].store(true)`.
unfoldable pub swallow : ℕ → HookState → Option HookState
swallow vk h =
    if ltb vk 256 then some (record h { swallowed = update h.swallowed vk true }) else none

abbrev pub swallow_and_stop : ℕ → HookState → Option (HookState × Bool)
swallow_and_stop vk h = elim (swallow vk h) [ none ↦ none | some h' ↦ some (h', true) ]

-- The modifier mask after an event of the key with bit `bit`.
unfoldable pub next_mods : ℕ → Bool → ℕ → ℕ
next_mods bit down mods =
    if bit == 0 then mods else if down then bit_or mods bit else bit_and mods (0xffff - bit)

-- The capture ends with the combination, if it has a text.
unfoldable pub end_capture : ℕ → ℕ → HookState → HookState
unfolding complete_capture
end_capture control vk h = elim (format_hotkey h.hook_mods vk) [
  | none ↦ h
  | some text ↦ complete_capture control text h
]

module _ (w : Constants) where
  unfoldable pub forward_swallowed_key : ℕ → KeyInfo → Bool → HookState → HookState
  unfolding bump
  forward_swallowed_key now info down h =
      let extended = not (bit_and info.flags w.llkhf_extended == 0) in
      let hid = hid_usage (info.scan_code % 2 ^ 16) extended (info.vk_code % 2 ^ 16) in
      let counted = record (h.app) {
        tel = record (h.app.tel) { raw_kbd_events = bump h.app.tel.raw_kbd_events 1 };
      } in
      if hid == hid_none then h else record h { app = key_event now hid down counted }

  -- The end of `keyboard_proc`.
  unfoldable pub suppress_key : ℕ → KeyInfo → Bool → HookState → HookState × Bool
  unfolding forward_swallowed_key
  suppress_key now info down h =
      if h.app.suppress then (forward_swallowed_key now info down h, true) else (h, false)

  unfoldable pub fire : ℕ → HotkeyAction → ℕ → HookState → Option (HookState × Bool)
  unfolding swallow
  fire now action vk h = swallow_and_stop vk (record h { app = dispatch now action h.app })

  -- A press of a key that is no modifier: a capture comes before a hotkey.
  unfoldable pub press_plain : ℕ → KeyInfo → ℕ → HookState → Option (HookState × Bool)
  unfolding capture_target end_capture swallow fire suppress_key
  press_plain now info vk h =
      let (asked, control) = capture_target now h in
      elim control [
        | some c ↦ swallow_and_stop vk (end_capture c vk asked)
        | none ↦ elim (match_vk asked.app.hotkeys vk asked.hook_mods) [
          | some action ↦ fire now action vk asked
          | none ↦ some (suppress_key now info true asked)
        ]
      ]

  unfoldable pub press : ℕ → KeyInfo → ℕ → HookState → Option (HookState × Bool)
  unfolding press_plain capture_target suppress_key
  press now info vk h =
      if modifier_bit_for_vk vk == 0
      then press_plain now info vk h
      else some (suppress_key now info true (capture_target now h).0)

  unfoldable pub release : ℕ → KeyInfo → ℕ → HookState → Option (HookState × Bool)
  unfolding suppress_key
  release now info vk h =
      if leb 256 vk
      then none
      else if h.swallowed vk
      then some (record h { swallowed = update h.swallowed vk false }, true)
      else some (suppress_key now info false h)

  -- `none` for a null `lparam`.
  unfoldable pub keyboard_proc : ℕ → ℕ → ℕ → Option KeyInfo → HookState → Option (HookState × Bool)
  unfolding press release next_mods
  keyboard_proc now code wparam none h = some (h, false)
  keyboard_proc now code wparam (some info) h =
      let vk = info.vk_code % 2 ^ 16 in
      let message = wparam % 2 ^ 32 in
      let down = message == w.wm_keydown || message == w.wm_syskeydown in
      let noted = record h { hook_mods = next_mods (modifier_bit_for_vk vk) down h.hook_mods } in
      if code == w.hc_action && bit_and info.flags w.llkhf_injected == 0
      then (if down then press now info vk noted else release now info vk noted)
      else some (h, false)

  -- A move while local input is suppressed: it passes, and the pin of the cursor is renewed.
  unfoldable pub renew_clip : ℕ → HookState → HookState
  renew_clip now h =
      if h.app.clip_active && ltb clip_refresh_us (now - h.last_clip_us)
      then record h { last_clip_us = now }
      else h

  unfoldable pub switch_at_edge : ℕ → HookState → HookState
  switch_at_edge now h =
      if ltb edge_cooldown_us (now - h.last_edge_switch_us)
      then record h { last_edge_switch_us = now; app = dispatch now switch_to_mac h.app }
      else h

  unfoldable pub mouse_proc : ℕ → ℕ → ℕ → Option MouseInfo → HookState → HookState × Bool
  unfolding renew_clip switch_at_edge signed_leb
  mouse_proc now code wparam none h = (h, false)
  mouse_proc now code wparam (some info) h =
      let moves = wparam % 2 ^ 32 == w.wm_mousemove in
      if code == w.hc_action && bit_and info.flags w.llmhf_injected == 0
      then (if h.app.suppress
          then (if moves then (renew_clip now h, false) else (h, true))
          else if moves
              && (not (is_remote h.app.target)
                  && (h.app.edge_switch && signed_leb info.pt_x h.virtual_left))
          then (switch_at_edge now h, false)
          else (h, false))
      else (h, false)
