-- ===== src/Tray/Menu.antt =====
-- ui/tray.rs, `show_menu`: the items of the menu.
use remote_input_bridge.Base.{
  ℕ, ◌+◌, suc, List, [], ◌∷◌, ◌++◌, Bool, true, false, not, ◌&&◌, ◌==◌, if◌then◌else◌,
}
use remote_input_bridge.Base.Text.{ascii}
use remote_input_bridge.Base.Decimal.{decimal}
use remote_input_bridge.Config.{Config}
use remote_input_bridge.App.{AppState, is_connected, is_remote}
use remote_input_bridge.App.Labels.{target_label, link_label}
use remote_input_bridge.Update.Install.{Stage, available}
use remote_input_bridge.Window.{interval_choices}
pub mod Choices

-- A line between items, or an item: whether it is grayed and checked, its command and its text.
pub data Item : Type 0 where
  separator : Item
  entry : (grayed checked : Bool) (id : ℕ) (text : List ℕ) → Item

-- A format of a text and a hotkey, behind a tab.
unfoldable pub with_hotkey : List ℕ → List ℕ → List ℕ
with_hotkey text hotkey = text ++ 9 ∷ hotkey

-- The loop over the intervals, from the index on.
unfoldable pub interval_items : ℕ → ℕ → List ℕ → List Item
interval_items current index [] = []
interval_items current index (ms ∷ rest) =
    entry false (ms == current) (120 + index)
      (ascii "Mouse interval: " ++ (decimal ms ++ ascii " ms"))
    ∷ interval_items current (suc index) rest

unfoldable pub update_text : Stage → List ℕ
update_text (available version) = ascii "Install version " ++ (version ++ ascii "...")
update_text _ = ascii "Check for updates..."

unfoldable pub switch_items : AppState → List Item
unfolding is_connected is_remote with_hotkey
switch_items st =
    let remote = is_remote st.target in
    entry (not (is_connected st.link && not remote)) false 101
      (with_hotkey (ascii "Switch to Mac") st.cfg.hotkey_switch_to_mac)
    ∷ entry (not remote) false 102
        (with_hotkey (ascii "Switch to Windows") st.cfg.hotkey_switch_to_windows)
    ∷ []

-- The items behind the switches.
unfoldable pub other_items : Config → Stage → List Item
unfolding interval_items update_text
other_items cfg stage =
    separator ∷ interval_items cfg.mouse_interval_ms 0 interval_choices
    ++ separator
      ∷ entry false cfg.edge_switch 108 (ascii "Switch by screen edge")
      ∷ entry false false 100 (ascii "Status and settings...")
      ∷ entry false false 103 (ascii "Reconnect now")
      ∷ entry false false 107 (ascii "Open config folder")
      ∷ entry false false 110 (update_text stage)
      ∷ separator
      ∷ entry false false 106 (ascii "Quit")
      ∷ []

unfoldable pub menu : AppState → Stage → List Item
unfolding target_label link_label switch_items other_items
menu st stage =
    entry true false 0 (ascii "Remote Input Bridge - " ++ link_label st.link)
      ∷ entry true false 0 (ascii "Active input: " ++ target_label st.target)
      ∷ separator
      ∷ switch_items st
    ++ other_items st.cfg stage
