-- ===== src/Window/Messages.antt =====
-- ui/window.rs, `wnd_proc`. The calls of Windows that change nothing the program reads, the clip of the
-- cursor that the timer renews and `DefWindowProcW`, are left out.
use remote_input_bridge.Base.{ℕ, suc, List, [], ◌∷◌, ◌++◌, Option, some, Bool, true, false}
use remote_input_bridge.Base.{if◌then◌else◌, ◌>>=◌}
use remote_input_bridge.App.{NetMsg, send}
use remote_input_bridge.App
use remote_input_bridge.Hooks.{apply_mouse_hook, refresh_screen_bounds}
use remote_input_bridge.RawInput.{Flags, RawEvent, Answer, RawState, on_wm_input}
use remote_input_bridge.Tray.{readd}
use remote_input_bridge.Banner
use remote_input_bridge.Window.{Program, Outcome, refresh_status, show, answer}
use remote_input_bridge.Window.Commands.{with_app, handle_command, destroy}

-- What the mouse does on the icon.
pub data Click : Type 0 where
  right_up context_menu double_click left_up other_click : Click

-- The messages: the task bar is new, the controls are to be built, Raw Input with the answers to its
-- reads, a command by its id, a request to redraw, the input went to the Mac or came back (and whether
-- the mouse hook is granted), the timer of the refresh, a new arrangement of the displays, the wake from sleep, a
-- click on the icon, the close button, the end of the window, the focus, and any other message.
pub data Message : Type 0 where
  taskbar_created create refresh resume close destroyed set_focus unhandled : Message
  raw_input : List Answer → Option RawEvent → Message
  command : ℕ → Message
  input_hidden : (hidden granted : Bool) → Message
  timer : (granted : Bool) → Message
  display_change : (left : ℕ) → Message
  tray_callback : Click → Message

unfoldable pub move_banner : Outcome → Bool → Program → Program
unfolding Banner.show Banner.hide
move_banner o hidden p =
    let (moved, calls) =
      if hidden then Banner.show o.desktop p.banner else Banner.hide o.is_window p.banner in
    record p { banner = moved; calls = p.calls ++ calls }

unfoldable pub click_tray : Outcome → Click → Program → Program
unfolding show
click_tray o right_up p = record p { menus = suc p.menus }
click_tray o context_menu p = record p { menus = suc p.menus }
click_tray o double_click p = show o p
click_tray o left_up p = record p { menus = suc p.menus }
click_tray o other_click p = p

module _ (w : Flags) (next_power_of_two : ℕ → ℕ) where
  unfoldable pub read_input : Outcome → List Answer → Option RawEvent → Program → Program
  unfolding on_wm_input
  read_input o answers single p =
      let before : RawState = record {
        app = p.hooks.app;
        abs_valid = p.abs_valid;
        abs_x = p.abs_x;
        abs_y = p.abs_y;
      } in
      let (len, after) =
        on_wm_input w next_power_of_two o.now_us answers single p.buffer_len before in
      record p {
        hooks = record (p.hooks) { app = after.app };
        abs_valid = after.abs_valid;
        abs_x = after.abs_x;
        abs_y = after.abs_y;
        buffer_len = len;
      }

  unfoldable pub wnd_proc : Outcome → Message → Program → Option Program
  unfolding read_input handle_command apply_mouse_hook refresh_screen_bounds App.force_local send
      move_banner click_tray readd destroy refresh_status
  wnd_proc o taskbar_created p =
      some (record p { tray = readd (answer o.icon_added) (answer o.icon_changed) (λ s. s) p.tray })
  wnd_proc o create p = some (record p { controls = true })
  wnd_proc o (raw_input answers single) p = some (read_input o answers single p)
  wnd_proc o (command id) p = handle_command o id p
  wnd_proc o refresh p = some (refresh_status o p)
  wnd_proc o (input_hidden hidden granted) p =
      let moved = move_banner o hidden p in
      some (record moved { hooks = apply_mouse_hook granted moved.hooks })
  wnd_proc o (timer granted) p =
      let drawn = refresh_status o p in
      some (record drawn { hooks = apply_mouse_hook granted drawn.hooks })
  wnd_proc o (display_change left) p =
      some (record p { hooks = refresh_screen_bounds left p.hooks })
  wnd_proc o resume p = some (with_app (λ st. send NetMsg.reconnect (App.force_local st).0) p)
  wnd_proc o (tray_callback click) p = some (click_tray o click p)
  wnd_proc o close p = some (record p { visible = false })
  wnd_proc o destroyed p = some (destroy o p)
  wnd_proc o set_focus p = some (if p.controls then record p { focused = true } else p)
  wnd_proc o unhandled p = some p

  -- The message loop.
  unfoldable pub pump : List (Outcome × Message) → Program → Option Program
  unfolding wnd_proc
  pump [] p = some p
  pump ((o, m) ∷ rest) p = do after ← wnd_proc o m p; pump rest after
