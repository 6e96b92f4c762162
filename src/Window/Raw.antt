-- ===== src/Window/Raw.antt =====
-- ui/window.rs, the arm `WM_INPUT` of `wnd_proc`: input leaves the program in order.
use remote_input_bridge.Base.{ℕ, ◌∙◌, sym, subst, ap, List, Option}
use remote_input_bridge.Tracker.{HotkeyAction, switch_to_mac, switch_to_windows, force_local}
use remote_input_bridge.Tracker.{from_config}
use remote_input_bridge.App.{AppState, remote_mac, local_windows}
use remote_input_bridge.Input.{perform_action}
use remote_input_bridge.Input.Kept.{IsKept}
use remote_input_bridge.RawInput.{Flags, RawEvent, Answer}
use remote_input_bridge.RawInput.Kept.{on_wm_input-keeps}
use remote_input_bridge.Window.{Program, Outcome}
use remote_input_bridge.Window.Messages.{read_input}
use remote_input_bridge.Window.Saved.{IsUsable, IsInOrder, request-IsInOrder, force_local-IsInOrder}

perform_action-IsInOrder :
    (action : HotkeyAction) (st : AppState) → IsInOrder st → IsInOrder (perform_action action st)
unfolding perform_action
perform_action-IsInOrder switch_to_mac st h = request-IsInOrder remote_mac st h
perform_action-IsInOrder switch_to_windows st h = request-IsInOrder local_windows st h
perform_action-IsInOrder force_local st h = force_local-IsInOrder st h

IsInOrder-IsKept : IsKept IsInOrder
IsInOrder-IsKept = record {
  alike = λ a b e h. record {
    usable = subst IsUsable (sym e.cfg) h.usable;
    hotkeys = e.hotkeys ∙ h.hotkeys ∙ ap from_config (sym e.cfg);
    edge = e.edge ∙ h.edge ∙ ap (λ c. c.edge_switch) (sym e.cfg);
    preference = e.preference ∙ h.preference ∙ ap (λ c. c.suppress_local_input) (sym e.cfg);
    linked = λ t. e.link ∙ h.linked (sym e.target ∙ t);
    suppressed = λ t. e.target ∙ h.suppressed (sym e.suppress ∙ t);
  };
  acts = perform_action-IsInOrder;
}

pub read_input-IsInOrder :
    (w : Flags) (next_power_of_two : ℕ → ℕ) (o : Outcome) (answers : List Answer)
    (single : Option RawEvent) (p : Program)
    → IsInOrder p.hooks.app
    → IsInOrder (read_input w next_power_of_two o answers single p).hooks.app
unfolding read_input
read_input-IsInOrder w next_power_of_two o answers single p h =
    on_wm_input-keeps IsInOrder IsInOrder-IsKept w next_power_of_two o.now_us answers single
      p.buffer_len _ h
