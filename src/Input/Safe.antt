-- ===== src/Input/Safe.antt =====
-- input/mod.rs: what happens to the state in a run, hotkeys and input included, and the fail-safe.
use remote_input_bridge.Base.{◌∙◌, sym}
use remote_input_bridge.Tracker.{HotkeyAction, switch_to_mac, switch_to_windows, force_local}
use remote_input_bridge.App.{AppState, remote_mac, local_windows}
use remote_input_bridge.App.FailSafe.{IsSafe, request, force, perform, perform-IsSafe}
use remote_input_bridge.Input.{perform_action}
use remote_input_bridge.Input.Kept.{IsKept, dispatch-keeps, key_event-keeps}
use remote_input_bridge.Input.Kept.{handle_button_event-keeps, handle_scroll-keeps}
use remote_input_bridge.Input.Mirror.{Happening, key_at, button, wheel, hook_hotkey, op, happen}

perform_action-IsSafe :
    (action : HotkeyAction) (st : AppState) → IsSafe st → IsSafe (perform_action action st)
unfolding perform_action perform
perform_action-IsSafe switch_to_mac st s = perform-IsSafe (request remote_mac) st s
perform_action-IsSafe switch_to_windows st s = perform-IsSafe (request local_windows) st s
perform_action-IsSafe force_local st s = perform-IsSafe force st s

-- The fail-safe rests on the target, the link, the suppression and the pin alone.
pub IsSafe-IsKept : IsKept IsSafe
IsSafe-IsKept = record {
  alike = λ a b e s. record {
    linked = λ h. e.link ∙ s.linked (sym e.target ∙ h);
    suppressed = λ h. e.target ∙ s.suppressed (sym e.suppress ∙ h);
    clipped = λ h. e.target ∙ s.clipped (sym e.clip ∙ h);
  };
  acts = perform_action-IsSafe;
}

pub happen-IsSafe : (e : Happening) (st : AppState) → IsSafe st → IsSafe (happen e st)
unfolding happen
happen-IsSafe (key_at now hid down) st s = key_event-keeps IsSafe IsSafe-IsKept now hid down st s
happen-IsSafe (button index down) st s =
    handle_button_event-keeps IsSafe IsSafe-IsKept index down st s
happen-IsSafe (wheel x y) st s = handle_scroll-keeps IsSafe IsSafe-IsKept x y st s
happen-IsSafe (hook_hotkey now action) st s = dispatch-keeps IsSafe IsSafe-IsKept now action st s
happen-IsSafe (op o) st s = perform-IsSafe o st s
