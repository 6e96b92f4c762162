-- ===== src/Tests/Windows.antt =====
-- The start, the settings window and the banner at concrete inputs.
use remote_input_bridge.Base.{ℕ, ◌≡◌, refl, List, [], ◌∷◌, ◌++◌, none, some, true, false}
use remote_input_bridge.Base.{if◌then◌else◌, arith, leb}
use remote_input_bridge.Base.Text.{ascii}
use remote_input_bridge.Hotkey.{parse_hotkey}
use remote_input_bridge.Config.{Config, sanitized, clamp, is_interval_choice}
use remote_input_bridge.Config
use remote_input_bridge.Config.Sanitized.{IsSane}
use remote_input_bridge.Tracker.{from_config, switch_to_mac}
use remote_input_bridge.App.{init_state, connected}
use remote_input_bridge.App.FailSafe.{link, save_suppress}
use remote_input_bridge.Input.Mirror.{hook_hotkey, op}
use remote_input_bridge.Update.Install.{boot}
use remote_input_bridge.Discovery.Search.{initial}
use remote_input_bridge.Startup.{Flag, no_args, load, merge, build_config, parse_words}
use remote_input_bridge.Startup.{parse_args}
use remote_input_bridge.Startup.Arguments.{Choice, flag, mac_host, tcp_port, IsInRange, render}
use remote_input_bridge.Startup.Arguments.{choose_all, parse_words-render}
use remote_input_bridge.Startup.Merged.{IsMerged, build_config-IsSane}
use remote_input_bridge.Startup.Main.{
  happens, hooks_mouse, World, no_hooks, with_pairing, run, shut_down, main, start,
}
use remote_input_bridge.Startup.Main.{configured, after_parsing, claim_single_instance}
use remote_input_bridge.Startup.Exit.{IsReleased, main-IsReleased}
use remote_input_bridge.Window.{Program, Outcome}
use remote_input_bridge.RawInput.{RawKeyboard, keyboard, drained, batch}
use remote_input_bridge.Window.Messages.{Message, raw_input, command, input_hidden, timer, resume}
use remote_input_bridge.Window.Messages.{tray_callback, double_click, pump}
use remote_input_bridge.Window.Saved.{IsInOrder}
use remote_input_bridge.Window.Kept.{pump-IsInOrder}
use remote_input_bridge.Tests.Toy.{flags}
use remote_input_bridge.Banner.{Banner, hide_window, set_foreground, minimise, restore, Desktop}
use remote_input_bridge.Banner.{ensure, show, hide}
use remote_input_bridge.Banner.Focus.{has_call, show-hide}

abbrev host : List ℕ
host = ascii "PC"

abbrev choices : List Choice
choices = mac_host (ascii "studio.local") ∷ tcp_port 5000 ∷ flag Flag.no_udp ∷ tcp_port 6000 ∷ []

parse_words-render_example :
    parse_words (render choices ++ ascii "--quick" ∷ []) no_args
    ≡ parse_words (ascii "--quick" ∷ []) (choose_all choices no_args)
unfolding IsInRange
parse_words-render_example =
    parse_words-render choices (ascii "--quick" ∷ []) no_args
      (tt, (omega arith, (tt, (omega arith, tt))))

abbrev odd : Config
odd = record (Config.default host) { heartbeat_ms = 0; mouse_interval_ms = 3 }

build_config-IsSane_example :
    (c : Config) × (d : Config) × (load host (some (some odd)) ≡ some c)
    × (build_config host (some (some odd)) (choose_all choices no_args) ≡ some d)
    × IsSane d
    × IsMerged (choose_all choices no_args) c d
build_config-IsSane_example =
    build_config-IsSane host (some (some odd)) (choose_all choices no_args)

abbrev world : World
world = record {
  words = [];
  hostname = host;
  file = none;
  mutex_null = false;
  already_exists = false;
  window_made = true;
  virtual_left = 0;
  keyboard_granted = true;
  mouse_granted = true;
  turns =
      happens (op (link connected))
      ∷ happens (hook_hotkey 0 switch_to_mac)
      ∷ happens (op (save_suppress false))
      ∷ hooks_mouse true
      ∷ [];
}

main-IsReleased_example :
    IsReleased
      (shut_down (run world (no_hooks (with_pairing none (init_state (Config.default host))))))
unfolding main parse_args parse_words after_parsing configured build_config start
    claim_single_instance load merge sanitized clamp is_interval_choice Config.default
    remote_input_bridge.Hotkey.trim_end remote_input_bridge.Hotkey.trim_start
    remote_input_bridge.Hotkey.is_whitespace
main-IsReleased_example = main-IsReleased world refl

abbrev desktop : Desktop
desktop = record { created = 7; before = 20; after = 20; attached = true }

abbrev unmade : Banner
unmade = record { banner = 0; previous = 0; minimised = false }

show-hide_example :
    ((hide true (show desktop unmade).0).1
      ≡ hide_window (ensure 7 unmade).banner
          ∷ (if has_call (minimise 20) (show desktop unmade).1 then restore 20 ∷ [] else [])
        ++ set_foreground 20 ∷ [])
    × ((hide true (show desktop unmade).0).0.previous ≡ 0)
    × ((hide true (show desktop unmade).0).0.minimised ≡ false)
unfolding ensure
show-hide_example =
    show-hide desktop unmade (λ e. absurd (omega arith)) (λ e. absurd (omega arith))
      (λ e. absurd (omega arith))

abbrev program : Program
program = record {
  hooks = no_hooks (init_state (Config.default host));
  updater = boot;
  searcher = record { search = initial; threads = 0 };
  form = record {
    host = ascii " 10.0.0.5 ";
    name = [];
    tcp = ascii "70000";
    udp = ascii "0";
    hotkey_mac = ascii "Ctrl+Nothing";
    hotkey_windows = ascii "Win+F5";
    hotkey_emergency = [];
    pair_code = ascii "1234";
    edge = true;
    suppress = false;
    autoconnect = true;
    use_udp = false;
    diag_on = false;
    auto_update = true;
    autostart = false;
    interval = some 9;
    hosts = [];
    error = [];
    find_label = [];
    recording = none;
    update_label = [];
    update_enabled = true;
  };
  autostart = false;
  disk = none;
  dialogs = 0;
  visible = true;
  destroyed = false;
  controls = true;
  focused = false;
  quitting = false;
  menus = 0;
  tray = record { present = false; shell = tt };
  banner = unmade;
  calls = [];
  abs_valid = false;
  abs_x = 0;
  abs_y = 0;
  buffer_len = 2048;
}

abbrev outcome : Outcome
outcome = record {
  now_us = 5000;
  hostname = host;
  registry_written = true;
  file_written = true;
  spawned = true;
  icon_added = true;
  icon_changed = true;
  desktop = desktop;
  is_window = true;
}

abbrev pressed : RawKeyboard
pressed = record { make_code = 0x1e; flags = 0; vkey = 0x41 }

-- Pairing, which saves the form, a change of the interval, a recording, a key that Raw Input reports,
-- the banner, the timer, a click on the icon, a wake and the end.
abbrev messages : List (Outcome × Message)
messages =
    (outcome, command 104)
    ∷ (outcome, command 121)
    ∷ (outcome, command 111)
    ∷ (outcome, raw_input (batch (keyboard pressed ∷ []) ∷ drained ∷ []) none)
    ∷ (outcome, input_hidden true true)
    ∷ (outcome, timer true)
    ∷ (outcome, tray_callback double_click)
    ∷ (outcome, resume)
    ∷ (outcome, command 106)
    ∷ []

program-IsInOrder : IsInOrder program.hooks.app
unfolding no_hooks init_state Config.default from_config parse_hotkey is_interval_choice
program-IsInOrder = record {
  usable = record {
    sane = record {
      interval = refl;
      keepalive = omega arith;
      heartbeat_low = omega arith;
      heartbeat_high = omega arith;
      timeout_low = omega arith;
      timeout_high = omega arith;
    };
    tcp = λ e. absurd (omega (arith, e));
    udp = λ e. absurd (omega (arith, e));
    to_mac = λ e. cc;
    to_windows = λ e. cc;
    emergency = λ e. cc;
  };
  hotkeys = refl;
  edge = refl;
  preference = refl;
  linked = λ e. cc;
  suppressed = λ e. cc;
}

-- The least power of two from the number on, for the sizes that come up here.
abbrev double : ℕ → ℕ
double n = if leb n 4096 then 4096 else 65536

pump-IsInOrder_example :
    (q : Program) × (pump flags double messages program ≡ some q) × IsInOrder q.hooks.app
pump-IsInOrder_example = pump-IsInOrder flags double messages program program-IsInOrder
