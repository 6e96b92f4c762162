-- ===== src/Tray/Menu/Choices.antt =====
-- ui/tray.rs, `show_menu`, against the commands of the window: what can be chosen in the menu.
use remote_input_bridge.Base.{ℕ, ◌≡◌, sym, ◌&&◌, refl, List, [], ◌∷◌, ◌++◌, Bool, false, not}
use remote_input_bridge.Base.{some, Option, if◌then◌else◌, arith}
use remote_input_bridge.Base.Text.{ascii}
use remote_input_bridge.Config.{Config}
use remote_input_bridge.App.{AppState, remote_mac, is_connected, is_remote, request_target}
use remote_input_bridge.App.{force_local, apply_target, same_target}
use remote_input_bridge.Update.Install.{Stage}
use remote_input_bridge.Window.Commands.{Command, command_of, switch_to_mac, switch_to_windows}
use remote_input_bridge.Window.Commands.{set_interval, toggle_edge, show_window, open_config_dir}
use remote_input_bridge.Window.Commands.{check_updates, quit}
use remote_input_bridge.Tray.Menu.{Item, separator, entry, menu, switch_items, other_items}
use remote_input_bridge.Tray.Menu.{interval_items, with_hotkey}

-- The commands that can be chosen, in order; none stands for an id that the window does not know.
pub chosen : List Item → List (Option Command)
unfolding command_of
chosen [] = []
chosen (separator ∷ rest) = chosen rest
chosen (entry grayed checked id text ∷ rest) =
    if grayed then chosen rest else command_of id ∷ chosen rest

abbrev pub offered_if : Bool → Command → List (Option Command)
offered_if b c = if b then some c ∷ [] else []

chosen-entry :
    (b checked : Bool) (id : ℕ) (text : List ℕ) (c : Command) (rest : List Item)
    → command_of id ≡ some c
    → chosen (entry (not b) checked id text ∷ rest) ≡ offered_if b c ++ chosen rest
unfolding chosen
chosen-entry b checked id text c rest e = ground arith

request_target-answer :
    (st : AppState)
    → (is_connected st.link && not (is_remote st.target)) ≡ (request_target remote_mac st).1
unfolding request_target apply_target same_target is_remote
request_target-answer st = ground arith

force_local-answer : (st : AppState) → is_remote st.target ≡ (force_local st).1
unfolding force_local apply_target same_target is_remote
force_local-answer st = ground arith

-- The commands behind the switches.
abbrev pub others : List (Option Command)
others =
    some (set_interval 0)
    ∷ some (set_interval 1)
    ∷ some (set_interval 2)
    ∷ some (set_interval 3)
    ∷ some toggle_edge
    ∷ some show_window
    ∷ some Command.reconnect
    ∷ some open_config_dir
    ∷ some check_updates
    ∷ some quit
    ∷ []

chosen-other_items : (cfg : Config) (stage : Stage) → chosen (other_items cfg stage) ≡ others
unfolding chosen other_items command_of interval_items
chosen-other_items cfg stage = refl

-- The menu offers a switch just when choosing it would change the target in the state that the menu is
-- made for, and else the four intervals, the settings and the other commands, each with an id that the
-- window takes for that command.
pub menu-chosen :
    (st : AppState) (stage : Stage)
    → chosen (menu st stage)
      ≡ offered_if (request_target remote_mac st).1 switch_to_mac
        ++ (offered_if (force_local st).1 switch_to_windows ++ others)
unfolding chosen menu switch_items
menu-chosen st stage =
    rw
      (
        sym (request_target-answer st),
        sym (force_local-answer st),
        chosen-entry (is_connected st.link && not (is_remote st.target)) false 101
            (with_hotkey (ascii "Switch to Mac") st.cfg.hotkey_switch_to_mac) switch_to_mac
            (entry (not (is_remote st.target)) false 102
                (with_hotkey (ascii "Switch to Windows") st.cfg.hotkey_switch_to_windows)
              ∷ other_items st.cfg stage)
            (unfold command_of in refl),
        chosen-entry (is_remote st.target) false 102
            (with_hotkey (ascii "Switch to Windows") st.cfg.hotkey_switch_to_windows)
            switch_to_windows (other_items st.cfg stage) (unfold command_of in refl),
        chosen-other_items st.cfg stage,
      )
      refl
