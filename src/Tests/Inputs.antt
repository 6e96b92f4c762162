-- ===== src/Tests/Inputs.antt =====
-- The hooks and the Raw Input reports at concrete inputs, with the constants of Windows.
use remote_input_bridge.Base.{ℕ, ◌+◌, ◌%◌, ◌^◌, ◌≡◌, refl, List, [], ◌∷◌, none, some}
use remote_input_bridge.Base.{true, false, arith, update}
use remote_input_bridge.Keymap.{modifier_bit_for_vk}
use remote_input_bridge.Hotkey.{mods_match, same_group, has_group}
use remote_input_bridge.Tracker.{match_vk, hit, force_local}
use remote_input_bridge.App
use remote_input_bridge.App.{init_state, apply_target, same_target, is_remote}
use remote_input_bridge.Input.{dispatch, is_duplicate, action_code, perform_action}
use remote_input_bridge.Hooks.{Constants, HookState, capture_target}
use remote_input_bridge.Hooks.Procedures.{keyboard_proc, press}
use remote_input_bridge.Hooks.Procedures.{press_plain, release, next_mods, swallow, fire}
use remote_input_bridge.Hooks.Procedures.{suppress_key}
use remote_input_bridge.Hooks.Keyboard.{swallows, keyboard_proc-suppressed}
use remote_input_bridge.Hooks.Swallowed.{KeyEvent, proc, run_keys}
use remote_input_bridge.Hooks.Triggers.{trigger_pair, repeat_leaks}
use remote_input_bridge.Hooks.Mouse.{MouseEvent}
use remote_input_bridge.RawInput.{RawMouse, RawState}
use remote_input_bridge.RawInput.Absolute.{run_mouse, sum_relative, ahead, IsTracked}
use remote_input_bridge.RawInput.Absolute.{run_mouse-ahead}
use remote_input_bridge.Tests.Toy.{flags, linked, driving}

abbrev windows : Constants
windows = record {
  hc_action = 0;
  llkhf_extended = 1;
  llkhf_injected = 16;
  llmhf_injected = 1;
  wm_keydown = 256;
  wm_syskeydown = 260;
  wm_mousemove = 512;
}

-- The emergency hotkey is Ctrl+Alt+Left; both modifiers are down.
abbrev hooked : HookState
hooked = record {
  app = record linked {
    hotkeys = record {
      to_mac = none;
      to_windows = none;
      emergency = some (record { mods = 5; vk = 0x25 });
    };
  };
  keyboard_hook = true;
  mouse_hook = true;
  hooks_active = true;
  hook_mods = 5;
  swallowed = λ vk. false;
  virtual_left = 0;
  last_edge_switch_us = 1000000;
  last_clip_us = 0;
  capture_for = 0;
  capture_until_us = 0;
  captured = none;
}

abbrev left : ℕ → ℕ → KeyEvent
left now wparam = record {
  now = now;
  wparam = wparam;
  info = record { vk_code = 0x25; scan_code = 0x4b; flags = 1 };
}

abbrev suppressed : HookState
suppressed = record hooked { app = driving }

keyboard_proc-suppressed_example :
    swallows (keyboard_proc windows 5 0 256 (some (left 5 256).info) suppressed) ≡ true
keyboard_proc-suppressed_example =
    keyboard_proc-suppressed windows 5 0 256 (left 5 256).info suppressed
      (record { action = refl; physical = refl }) (omega arith) refl

abbrev held_trigger : HookState
held_trigger = record hooked { hook_mods = 1; swallowed = update (λ vk. false) 0x25 true }

plain : modifier_bit_for_vk 0x25 ≡ 0
unfolding modifier_bit_for_vk
plain = refl

missed : match_vk held_trigger.app.hotkeys 0x25 1 ≡ none
unfolding match_vk hit mods_match same_group has_group
missed = refl

matched : match_vk hooked.app.hotkeys 0x25 5 ≡ some force_local
unfolding match_vk hit mods_match same_group has_group
matched = refl

idle : (capture_target 5 held_trigger).1 ≡ none
unfolding capture_target
idle = refl

off : linked.suppress ≡ false
unfolding init_state
off = refl

repeat_leaks_example :
    (after : HookState) × (proc windows (left 5 256) held_trigger ≡ some (after, false))
    × (swallows (proc windows (left 6 257) after) ≡ true)
repeat_leaks_example =
    repeat_leaks windows (left 5 256) (left 6 257) held_trigger refl refl plain (omega arith) refl
      off idle missed refl refl refl

abbrev fired : HookState
fired = record hooked {
  app = dispatch 5 force_local hooked.app;
  swallowed = update hooked.swallowed 0x25 true;
}

pressed : proc windows (left 5 256) hooked ≡ some (fired, true)
unfolding keyboard_proc press press_plain capture_target match_vk hit mods_match same_group
    has_group fire swallow next_mods modifier_bit_for_vk
pressed = refl

-- The release of the right Ctrl key.
abbrev ctrl_up : KeyEvent
ctrl_up = record {
  now = 6;
  wparam = 257;
  info = record { vk_code = 0xa3; scan_code = 0x1d; flags = 1 };
}

passed : run_keys windows (ctrl_up ∷ []) fired ≡ some fired
unfolding run_keys keyboard_proc release next_mods modifier_bit_for_vk suppress_key dispatch
    is_duplicate action_code perform_action App.force_local apply_target same_target is_remote
    init_state
passed = refl

trigger_pair_example :
    (true ≡ true)
    × (proc windows (left 7 257) fired
        ≡ some (record fired { swallowed = update fired.swallowed 0x25 false }, true))
trigger_pair_example =
    trigger_pair windows (left 5 256) (left 7 257) (ctrl_up ∷ []) hooked fired fired force_local
      true refl refl plain matched pressed ((refl, λ e. omega arith), tt) passed refl refl refl

abbrev at_edge : MouseEvent
at_edge = record { now = 1500000; code = 0; wparam = 512; info = record { pt_x = 0; flags = 0 } }

abbrev tablet : RawState
tablet = record { app = linked; abs_valid = true; abs_x = 100; abs_y = 50 }

abbrev report : ℕ → ℕ → ℕ → RawMouse
report kind x y = record {
  us_flags = kind;
  last_x = x;
  last_y = y;
  us_button_flags = 1;
  us_button_data = 0;
}

tablet-IsTracked : IsTracked tablet
unfolding init_state
tablet-IsTracked = record {
  valid = refl;
  x-lt = omega arith;
  y-lt = omega arith;
  total_x-lt = omega arith;
  total_y-lt = omega arith;
}

abbrev reports : List RawMouse
reports = report 1 90 70 ∷ report 0 3 4 ∷ []

run_mouse-ahead_example :
    (ahead (run_mouse flags reports tablet).app.total_x (run_mouse flags reports tablet).abs_x
      ≡ (ahead linked.total_x 100 + sum_relative flags RawMouse.last_x reports) % 2 ^ 32)
    × (ahead (run_mouse flags reports tablet).app.total_y (run_mouse flags reports tablet).abs_y
        ≡ (ahead linked.total_y 50 + sum_relative flags RawMouse.last_y reports) % 2 ^ 32)
run_mouse-ahead_example =
    run_mouse-ahead flags reports tablet tablet-IsTracked
      ((omega arith, omega arith), ((omega arith, omega arith), tt))
