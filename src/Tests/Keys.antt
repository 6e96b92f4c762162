-- ===== src/Tests/Keys.antt =====
-- Keys, hotkeys, the tracker, the configuration and the estimates at concrete inputs.
use remote_input_bridge.Base.{ℕ, ◌≡◌, ◌≢◌, refl, [], ◌∷◌, arith}
use remote_input_bridge.Base.{none, some, true, false}
use remote_input_bridge.Base.Text.{ascii}
use remote_input_bridge.Keymap.{letter_vk, find_entry, hid_entries, vk_entries, letters}
use remote_input_bridge.Keymap.{set1_entries, set1_to_hid, vk_to_hid, hid_to_vk}
use remote_input_bridge.Keymap.{table_usage, modifier_bit}
use remote_input_bridge.Hotkey.{same_group, has_group, Hotkey, parse_hotkey, format_hotkey}
use remote_input_bridge.Hotkey.{mods_match}
use remote_input_bridge.Hotkey.RoundTrip.{parse_hotkey-format_hotkey}
use remote_input_bridge.Tracker.{match_vk, hit, Hotkeys, switch_to_mac, InputTracker, new, on_key}
use remote_input_bridge.Tracker.{mark_all_stale, hotkey}
use remote_input_bridge.Tracker.Stale.{step, key_event, run, IsQuiet, mark_all_stale-IsQuiet}
use remote_input_bridge.Tracker.Modifiers.{IsInStep, run_modifiers}

-- `Ctrl+Alt+Left` for the Mac.
abbrev hotkeys : Hotkeys
hotkeys = record {
  to_mac = some (record { mods = 0x55; vk = 0x25 });
  to_windows = none;
  emergency = none;
}

-- The key A, and the arrow to the left.
abbrev holding_a : InputTracker
holding_a = (on_key 0x04 true hotkeys new).0

abbrev holding_ctrl_alt : InputTracker
holding_ctrl_alt = run hotkeys new (key_event 0xe0 true ∷ key_event 0xe2 true ∷ [])

abbrev key_a : ℕ
key_a = 0x04

abbrev scan_a : ℕ
scan_a = 0x1e

left_fires : (on_key 0x50 true hotkeys holding_ctrl_alt).1 ≡ hotkey switch_to_mac
unfolding on_key modifier_bit hid_to_vk find_entry hid_entries match_vk hit mods_match same_group
    has_group run step new
left_fires = refl

vk_a_known : vk_to_hid 0x41 ≢ 0
unfolding vk_to_hid find_entry vk_entries letters
vk_a_known e = omega (arith, e)

scan_a_known : table_usage scan_a false ≢ 0
unfolding table_usage set1_to_hid find_entry set1_entries
scan_a_known e = omega (arith, e)

parse_hotkey-format_hotkey_example :
    (h : Hotkey) × (parse_hotkey (ascii "Ctrl+Alt+LEFT") ≡ some h)
    × (h.vk ≡ 0x25)
    × (mods_match h.mods 0x05 ≡ true)
unfolding has_group
parse_hotkey-format_hotkey_example =
    parse_hotkey-format_hotkey 0x05 0x25 (ascii "Ctrl+Alt+LEFT") (unfold format_hotkey in refl)

mark_all_stale-IsQuiet_example :
    IsQuiet key_a hotkeys (mark_all_stale holding_a) (key_event 0x05 true ∷ [])
    × ((on_key key_a false hotkeys
            (run hotkeys (mark_all_stale holding_a) (key_event 0x05 true ∷ []))).0.keys_down
          key_a
        ≡ false)
    × ((on_key key_a false hotkeys
            (run hotkeys (mark_all_stale holding_a) (key_event 0x05 true ∷ []))).0.keys_stale
          key_a
        ≡ false)
unfolding modifier_bit hid_to_vk letter_vk match_vk hit
mark_all_stale-IsQuiet_example =
    mark_all_stale-IsQuiet key_a hotkeys holding_a (key_event 0x05 true ∷ []) (omega arith)
      (omega arith) (unfold on_key in refl) ((λ e. cc), tt)

run_modifiers_example : IsInStep (
    run hotkeys
      (mark_all_stale (run hotkeys new (key_event 0xe1 true ∷ [])))
      (key_event 0xe5 true ∷ []))
run_modifiers_example = run_modifiers hotkeys (key_event 0xe1 true ∷ []) (key_event 0xe5 true ∷ [])
