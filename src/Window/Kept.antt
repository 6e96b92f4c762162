-- ===== src/Window/Kept.antt =====
-- ui/window.rs: whatever messages reach the window, the program stays in order.
use remote_input_bridge.Base.{ℕ, zero, suc, ◌≡◌, refl, sym, subst, List, [], ◌∷◌, Option, none}
use remote_input_bridge.Base.{some, Bool, true, arith, if-either, get_elem?}
use remote_input_bridge.Config.{Config, is_blank, is_interval_choice}
use remote_input_bridge.Config.Sanitized.{sanitized-IsSane}
use remote_input_bridge.App.{NetMsg, remote_mac}
use remote_input_bridge.RawInput.{Flags}
use remote_input_bridge.Hooks.{HookState, capture_target, apply_mouse_hook}
use remote_input_bridge.Window.{Text, Program, Outcome, interval_choices, trim, refresh_status}
use remote_input_bridge.Window.{refresh_controls, fill, show}
use remote_input_bridge.Window.Save.{read_form, store, store_cleaned, save_settings}
use remote_input_bridge.Window.Commands.{Command, command_of, with_app, record_hotkey}
use remote_input_bridge.Window.Commands.{change_interval, write_file, pick_interval, pair_with}
use remote_input_bridge.Window.Commands.{request_pairing, perform, perform_if, handle_command}
use remote_input_bridge.Window.Commands.{destroy, flip_edge, show_window, switch_to_mac}
use remote_input_bridge.Window.Commands.{switch_to_windows, save, quit, open_config_dir}
use remote_input_bridge.Window.Commands.{toggle_edge, check_updates, find_macs, record_key}
use remote_input_bridge.Window.Commands.{set_interval}
use remote_input_bridge.Window.Messages.{Click, right_up, context_menu, double_click, left_up}
use remote_input_bridge.Window.Messages.{other_click, Message, taskbar_created, create, refresh}
use remote_input_bridge.Window.Messages.{resume, close, destroyed, set_focus, unhandled, raw_input}
use remote_input_bridge.Window.Messages.{command, input_hidden, timer, display_change}
use remote_input_bridge.Window.Messages.{tray_callback, move_banner, click_tray, wnd_proc, pump}
use remote_input_bridge.Window.Raw.{read_input-IsInOrder}
use remote_input_bridge.Window.Saved.{IsUsable, IsInOrder, cleaned-IsUsable, adopt-IsInOrder}
use remote_input_bridge.Window.Saved.{request-IsInOrder, force_local-IsInOrder, send-IsInOrder}
use remote_input_bridge.Window.Saved.{flip_edge-IsInOrder, change_interval-IsInOrder}

abbrev Ordered : Program → Type 0
Ordered p = IsInOrder p.hooks.app

capture_target-app : (now : ℕ) (h : HookState) → (capture_target now h).0.app ≡ h.app
unfolding capture_target
capture_target-app now h = ground arith

refresh_status-app : (o : Outcome) (p : Program) → (refresh_status o p).hooks.app ≡ p.hooks.app
unfolding refresh_status
refresh_status-app o p = ground arith

refresh_status-Ordered : (o : Outcome) (p : Program) → Ordered p → Ordered (refresh_status o p)
refresh_status-Ordered o p h = subst IsInOrder (sym (refresh_status-app o p)) h

refresh_controls-app : (o : Outcome) (p : Program) → (refresh_controls o p).hooks.app ≡ p.hooks.app
unfolding refresh_controls
refresh_controls-app o p =
    refresh_status-app o (record p { form = fill p.hooks.app.cfg p.autostart p.form })

refresh_controls-Ordered : (o : Outcome) (p : Program) → Ordered p → Ordered (refresh_controls o p)
refresh_controls-Ordered o p h = subst IsInOrder (sym (refresh_controls-app o p)) h

show-Ordered : (o : Outcome) (p : Program) → Ordered p → Ordered (show o p)
unfolding show
show-Ordered o p h = refresh_controls-Ordered o (record p { visible = true }) h

record_hotkey-app : (now index : ℕ) (h : HookState) → (record_hotkey now index h).app ≡ h.app
unfolding record_hotkey
record_hotkey-app now index h = ground arith

apply_mouse_hook-app : (granted : Bool) (h : HookState) → (apply_mouse_hook granted h).app ≡ h.app
unfolding apply_mouse_hook
apply_mouse_hook-app granted h = ground arith

write_file-app : (o : Outcome) (p : Program) → (write_file o p).hooks.app ≡ p.hooks.app
unfolding write_file
write_file-app o p = ground arith

write_file-Ordered : (o : Outcome) (p : Program) → Ordered p → Ordered (write_file o p)
write_file-Ordered o p h = subst IsInOrder (sym (write_file-app o p)) h

-- That a step does not panic and leaves the program in order.
abbrev Succeeds : Option Program → Type 0
Succeeds r = (q : Program) × (r ≡ some q) × Ordered q

store-Ordered :
    (o : Outcome) (c : Config) (p : Program) → IsUsable c → Ordered p → Ordered (store o c p)
unfolding store
store-Ordered o c p usable h =
    subst IsInOrder (sym (refresh_controls-app o _)) (adopt-IsInOrder c p.hooks.app usable h)

save_settings-Succeeds : (o : Outcome) (p : Program) → Ordered p → Succeeds (save_settings o p)
unfolding save_settings store_cleaned
save_settings-Succeeds o p h =
    let s = sanitized-IsSane o.hostname (read_form p.form p.hooks.app.cfg) in
    let usable = cleaned-IsUsable o.hostname p.form p.hooks.app.cfg h.usable s.1 in
    (store o s.0 p, rw s.1 refl, store-Ordered o s.0 p usable h)

pair_with-Ordered : (code : Text) (p : Program) → Ordered p → Ordered (pair_with code p)
unfolding pair_with
pair_with-Ordered code p h = send-IsInOrder (NetMsg.pair code) p.hooks.app h

request_pairing-Succeeds : (o : Outcome) (p : Program) → Ordered p → Succeeds (request_pairing o p)
unfolding request_pairing
request_pairing-Succeeds o p h =
    if-either Succeeds (is_blank (trim p.form.pair_code)) _ _ (λ blank. (_, refl, h))
      (λ filled.
        let (q, e, ordered) = save_settings-Succeeds o p h in
        (pair_with (trim p.form.pair_code) q, rw e refl, pair_with-Ordered _ q ordered))

interval_choices-choice :
    (index : ℕ) {ms : ℕ} → get_elem? interval_choices index ≡ some ms → is_interval_choice ms ≡ true
unfolding is_interval_choice
interval_choices-choice zero h = ground arith
interval_choices-choice (suc zero) h = ground arith
interval_choices-choice (suc (suc zero)) h = ground arith
interval_choices-choice (suc (suc (suc zero))) h = ground arith
interval_choices-choice (suc (suc (suc (suc n)))) h = cc

pick_interval-Ordered :
    (o : Outcome) (r : Option ℕ) (p : Program)
    → ((ms : ℕ) → r ≡ some ms → is_interval_choice ms ≡ true)
    → Ordered p
    → Ordered (pick_interval o r p)
unfolding pick_interval
pick_interval-Ordered o none p choice h = h
pick_interval-Ordered o (some ms) p choice h =
    refresh_controls-Ordered o (write_file o (with_app (change_interval ms) p)) (
      write_file-Ordered o (with_app (change_interval ms) p)
        (change_interval-IsInOrder ms p.hooks.app (choice ms refl) h))

perform-Succeeds : (o : Outcome) (c : Command) (p : Program) → Ordered p → Succeeds (perform o c p)
unfolding perform
perform-Succeeds o show_window p h = (_, refl, show-Ordered o p h)
perform-Succeeds o switch_to_mac p h = (_, refl, request-IsInOrder remote_mac p.hooks.app h)
perform-Succeeds o switch_to_windows p h = (_, refl, force_local-IsInOrder p.hooks.app h)
perform-Succeeds o Command.force_local p h = (_, refl, force_local-IsInOrder p.hooks.app h)
perform-Succeeds o Command.reconnect p h = (_, refl, send-IsInOrder NetMsg.reconnect p.hooks.app h)
perform-Succeeds o save p h = save_settings-Succeeds o p h
perform-Succeeds o Command.pair p h = request_pairing-Succeeds o p h
perform-Succeeds o (record_key index) p h = (
  _,
  refl,
  refresh_status-Ordered o _ (subst IsInOrder (sym (record_hotkey-app o.now_us index p.hooks)) h),
)
perform-Succeeds o find_macs p h = (_, refl, refresh_status-Ordered o _ h)
perform-Succeeds o open_config_dir p h = (_, refl, h)
perform-Succeeds o check_updates p h = (_, refl, refresh_status-Ordered o _ h)
perform-Succeeds o toggle_edge p h = (
  _,
  refl,
  refresh_controls-Ordered o (write_file o (with_app flip_edge p))
      (write_file-Ordered o (with_app flip_edge p) (flip_edge-IsInOrder p.hooks.app h)),
)
perform-Succeeds o quit p h = (_, refl, h)
perform-Succeeds o (set_interval index) p h =
    (_, refl, pick_interval-Ordered o _ p (λ ms e. interval_choices-choice index e) h)

perform_if-Succeeds :
    (o : Outcome) (c : Option Command) (p : Program) → Ordered p → Succeeds (perform_if o c p)
unfolding perform_if
perform_if-Succeeds o none p h = (p, refl, h)
perform_if-Succeeds o (some c) p h = perform-Succeeds o c p h

click_tray-Ordered :
    (o : Outcome) (c : Click) (p : Program) → Ordered p → Ordered (click_tray o c p)
unfolding click_tray
click_tray-Ordered o right_up p h = h
click_tray-Ordered o context_menu p h = h
click_tray-Ordered o double_click p h = show-Ordered o p h
click_tray-Ordered o left_up p h = h
click_tray-Ordered o other_click p h = h

module _ (w : Flags) (next_power_of_two : ℕ → ℕ) where
  wnd_proc-Succeeds :
      (o : Outcome) (m : Message) (p : Program)
      → Ordered p
      → Succeeds (wnd_proc w next_power_of_two o m p)
  unfolding wnd_proc handle_command destroy move_banner
  wnd_proc-Succeeds o taskbar_created p h = (_, refl, h)
  wnd_proc-Succeeds o create p h = (_, refl, h)
  wnd_proc-Succeeds o (raw_input answers single) p h =
      (_, refl, read_input-IsInOrder w next_power_of_two o answers single p h)
  wnd_proc-Succeeds o (command id) p h = perform_if-Succeeds o (command_of id) p h
  wnd_proc-Succeeds o refresh p h = (_, refl, refresh_status-Ordered o p h)
  wnd_proc-Succeeds o (input_hidden hidden granted) p h =
      (_, refl, subst IsInOrder (sym (apply_mouse_hook-app granted p.hooks)) h)
  wnd_proc-Succeeds o (timer granted) p h = (
    _,
    refl,
    subst IsInOrder (sym (apply_mouse_hook-app granted (refresh_status o p).hooks))
        (refresh_status-Ordered o p h),
  )
  wnd_proc-Succeeds o (display_change left) p h = (_, refl, h)
  wnd_proc-Succeeds o resume p h =
      (_, refl, send-IsInOrder NetMsg.reconnect _ (force_local-IsInOrder p.hooks.app h))
  wnd_proc-Succeeds o (tray_callback c) p h = (_, refl, click_tray-Ordered o c p h)
  wnd_proc-Succeeds o close p h = (_, refl, h)
  wnd_proc-Succeeds o destroyed p h = (_, refl, h)
  wnd_proc-Succeeds o set_focus p h =
      (_, refl, if-either Ordered p.controls _ _ (λ built. h) (λ missing. h))
  wnd_proc-Succeeds o unhandled p h = (_, refl, h)

  -- Whatever messages reach the window, Raw Input, clicks on the icon and the end of the window among
  -- them, and whatever stands in its fields, no message makes the program panic, and the program stays in
  -- order: the configuration is in range, with ports that are not zero and three hotkeys that parse, the
  -- hotkeys in use are those of the configuration, and the input is on the Mac only over a live link, and
  -- suppressed only while it is there.
  pub pump-IsInOrder :
      (ms : List (Outcome × Message)) (p : Program)
      → IsInOrder p.hooks.app
      → (q : Program) × (pump w next_power_of_two ms p ≡ some q) × IsInOrder q.hooks.app
  unfolding pump
  pump-IsInOrder [] p h = (p, refl, h)
  pump-IsInOrder ((o, m) ∷ rest) p h =
      let (after, e, ordered) = wnd_proc-Succeeds o m p h in
      let (q, f, final) = pump-IsInOrder rest after ordered in (q, rw e f, final)
