-- ===== src/Startup/Main.antt =====
-- main.rs: `main`, `run` and `diagnose`. The window and the threads of Windows are outside: whether the
-- window could be made and the hooks are granted are arguments. What the message loop and the other
-- threads do to the state of the program, in the order in which it falls, is a list of turns: input and
-- hotkeys, operations of the state, messages to the network thread, changes of the mouse hook and saves of the
-- settings.
use remote_input_bridge.Base.{ℕ, ◌+◌, ◌%◌, ◌^◌, List, [], ◌∷◌, ◌++◌, Option, none, some, Bool}
use remote_input_bridge.Base.{true, false, not, ◌&&◌, ◌||◌, ◌==◌, if◌then◌else◌}
use remote_input_bridge.Frame.{Result, ok, err}
use remote_input_bridge.Config.{Config}
use remote_input_bridge.App.{
  AppState, NetMsg, pair, shutdown, init_state, send, force_local, is_remote,
}
use remote_input_bridge.Input.Mirror.{Happening, happen}
use remote_input_bridge.Hooks.{HookState, install, uninstall, apply_mouse_hook}
use remote_input_bridge.Window.Save.{adopt}
use remote_input_bridge.Startup.{Text, Args, parse_args, build_config}

-- A turn of the message loop or of another thread.
pub data Turn : Type 0 where
  happens : Happening → Turn
  sends : NetMsg → Turn
  hooks_mouse : (granted : Bool) → Turn
  saves : Config → Turn

unfoldable pub take_turn : Turn → HookState → HookState
unfolding happen send apply_mouse_hook adopt
take_turn (happens e) h = record h { app = happen e h.app }
take_turn (sends msg) h = record h { app = send msg h.app }
take_turn (hooks_mouse granted) h = apply_mouse_hook granted h
take_turn (saves cfg) h = record h { app = adopt cfg h.app }

unfoldable pub take_turns : List Turn → HookState → HookState
unfolding take_turn
take_turns [] h = h
take_turns (t ∷ ts) h = take_turns ts (take_turn t h)

-- What the process is told by its surroundings.
pub record World : Type 0 where
  pub words : List Text
  pub hostname : Text
  pub file : Option (Option Config)
  pub mutex_null : Bool
  pub already_exists : Bool
  pub window_made : Bool
  pub virtual_left : ℕ
  pub keyboard_granted : Bool
  pub mouse_granted : Bool
  pub turns : List Turn

-- How the process ends: with a message and status 2, with a text, because there is another copy, by a
-- panic, or after it has run.
pub data Ending : Type 0 where
  refused : Text → Ending
  told_help : Ending
  told_version : Ending
  other_copy : Ending
  panicked : Ending
  ran : HookState → Ending

unfoldable pub no_hooks : AppState → HookState
no_hooks st = record {
  app = st;
  keyboard_hook = false;
  mouse_hook = false;
  hooks_active = false;
  hook_mods = 0;
  swallowed = λ vk. false;
  virtual_left = 0;
  last_edge_switch_us = 0;
  last_clip_us = 0;
  capture_for = 0;
  capture_until_us = 0;
  captured = none;
}

unfoldable pub with_pairing : Option Text → AppState → AppState
unfolding send
with_pairing none st = st
with_pairing (some code) st = send (pair code) st

-- `run`: without a window nothing is hooked.
unfoldable pub run : World → HookState → HookState
unfolding install uninstall take_turns
run w h =
    if w.window_made
    then uninstall
        (take_turns w.turns (install w.virtual_left w.keyboard_granted w.mouse_granted h).0)
    else h

-- The last two lines of `main` that touch the state.
unfoldable pub shut_down : HookState → HookState
unfolding force_local send
shut_down h = record h { app = send shutdown (force_local h.app).0 }

unfoldable pub claim_single_instance : World → Bool
claim_single_instance w = w.mutex_null || not w.already_exists

unfoldable pub start : World → Args → Config → Ending
unfolding claim_single_instance no_hooks with_pairing run shut_down init_state
start w args cfg =
    if claim_single_instance w
    then ran (shut_down (run w (no_hooks (with_pairing args.pair_code (init_state cfg)))))
    else other_copy

unfoldable pub configured : World → Args → Option Config → Ending
unfolding start
configured w args none = panicked
configured w args (some cfg) = start w args cfg

unfoldable pub after_parsing : World → Result Text Args → Ending
unfolding configured build_config
after_parsing w (err e) = refused e
after_parsing w (ok args) =
    if args.help
    then told_help
    else if args.version
    then told_version
    else configured w args (build_config w.hostname w.file args)

unfoldable pub main : World → Ending
unfolding after_parsing parse_args
main w = after_parsing w (parse_args w.words)

-- The statics of `diagnose`.
pub record Reported : Type 0 where
  pub no_messages : Bool
  pub no_events : Bool
  pub no_suppression : Bool

pub data Report : Type 0 where
  no_messages_arrive no_events_read suppression_inactive : Report

-- The flag and the report of one condition: `!FLAG.swap(true)`.
unfoldable pub report_messages : ℕ → ℕ → Reported → List Report × Reported
report_messages messages events r =
    if messages == 0
    then (if r.no_messages
        then ([], r)
        else (no_messages_arrive ∷ [], record r { no_messages = true }))
    else if events == 0 && not r.no_events
    then (no_events_read ∷ [], record r { no_events = true })
    else ([], r)

unfoldable pub report_suppression : Bool → Bool → Reported → List Report × Reported
report_suppression wanted active r =
    if wanted && (not active && not r.no_suppression)
    then (suppression_inactive ∷ [], record r { no_suppression = true })
    else ([], r)

unfoldable pub diagnose : HookState → Reported → List Report × Reported
unfolding is_remote report_messages report_suppression
diagnose h r =
    if not (is_remote h.app.target)
    then ([], r)
    else (let events = (h.app.tel.raw_mouse_events + h.app.tel.raw_kbd_events) % 2 ^ 64 in
        let (first, r1) = report_messages h.app.tel.wm_input_messages events r in
        let (second, r2) = report_suppression h.app.cfg.suppress_local_input h.hooks_active r1 in
        (first ++ second, r2))
