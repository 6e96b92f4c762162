-- ===== src/Tracker.antt =====
-- input/mod.rs, the part that is shared by both input paths: the hotkey table and `InputTracker`.
-- The arrays of flags are functions of the index; the handlers' guards keep an index in bounds.
use remote_input_bridge.Base.{
  ℕ, ◌-◌, Option, none, some, Bool, true, false, ◌&&◌, ◌||◌, ◌==◌, leb, ltb, if◌then◌else◌, update,
  bit_and, bit_or,
}
use remote_input_bridge.Wire.Message.Button
use remote_input_bridge.Keymap.{modifier_bit, hid_to_vk}
use remote_input_bridge.Hotkey.{Hotkey, mods_match, parse_hotkey}
use remote_input_bridge.Config.{Config}
pub mod Stale
pub mod Modifiers

pub data HotkeyAction : Type 0 where
  switch_to_mac switch_to_windows force_local : HotkeyAction

pub record Hotkeys : Type 0 where
  pub to_mac : Option Hotkey
  pub to_windows : Option Hotkey
  pub emergency : Option Hotkey

unfoldable pub from_config : Config → Hotkeys
from_config cfg = record {
  to_mac = parse_hotkey cfg.hotkey_switch_to_mac;
  to_windows = parse_hotkey cfg.hotkey_switch_to_windows;
  emergency = parse_hotkey cfg.hotkey_emergency_local;
}

unfoldable pub hit : ℕ → ℕ → Option Hotkey → Bool
hit vk mods none = false
hit vk mods (some h) = h.vk == vk && mods_match h.mods mods

unfoldable pub match_vk : Hotkeys → ℕ → ℕ → Option HotkeyAction
match_vk hk vk mods =
    if hit vk mods hk.emergency
    then some force_local
    else if hit vk mods hk.to_mac
    then some switch_to_mac
    else if hit vk mods hk.to_windows
    then some switch_to_windows
    else none

pub data KeyDecision : Type 0 where
  forward : (repeat : Bool) → KeyDecision
  drop : KeyDecision
  hotkey : HotkeyAction → KeyDecision

pub record InputTracker : Type 0 where
  pub keys_down : ℕ → Bool
  pub keys_stale : ℕ → Bool
  pub buttons_down : ℕ → Bool
  pub buttons_stale : ℕ → Bool
  pub modifiers : ℕ

unfoldable pub new : InputTracker
new = record {
  keys_down = λ i. false;
  keys_stale = λ i. false;
  buttons_down = λ i. false;
  buttons_stale = λ i. false;
  modifiers = 0;
}

-- `keys_down.len()`.
abbrev pub key_count : ℕ
key_count = 256

-- The end of a press that is no hotkey.
press_decision : ℕ → Bool → InputTracker → InputTracker × KeyDecision
press_decision hid repeat t = (t, if t.keys_stale hid then drop else forward repeat)

press_trigger : Option HotkeyAction → ℕ → Bool → InputTracker → InputTracker × KeyDecision
unfolding press_decision
press_trigger none hid repeat t = press_decision hid repeat t
press_trigger (some action) hid repeat t =
    (record t { keys_stale = update t.keys_stale hid true }, hotkey action)

key_press : ℕ → Hotkeys → InputTracker → InputTracker × KeyDecision
unfolding press_trigger press_decision
key_press hid hk t =
    let repeat = t.keys_down hid in
    let bit = modifier_bit hid in
    let vk = hid_to_vk hid in
    let pressed = record t { keys_down = update t.keys_down hid true } in
    if bit == 0
    then (if vk == 0
        then press_decision hid repeat pressed
        else press_trigger (match_vk hk vk pressed.modifiers) hid repeat pressed)
    else press_decision hid repeat (record pressed { modifiers = bit_or pressed.modifiers bit })

key_release : ℕ → InputTracker → InputTracker × KeyDecision
key_release hid t =
    let bit = modifier_bit hid in
    let mods = if bit == 0 then t.modifiers else bit_and t.modifiers (0xffff - bit) in
    let released = record t { keys_down = update t.keys_down hid false; modifiers = mods } in
    if t.keys_stale hid
    then (record released { keys_stale = update t.keys_stale hid false }, drop)
    else (released, forward false)

unfoldable pub on_key : ℕ → Bool → Hotkeys → InputTracker → InputTracker × KeyDecision
unfolding key_press key_release
on_key hid down hk t =
    if hid == 0 || leb key_count hid
    then (t, drop)
    else if down
    then key_press hid hk t
    else key_release hid t

unfoldable pub on_button : ℕ → Bool → InputTracker → InputTracker × KeyDecision
on_button index down t =
    let moved = record t { buttons_down = update t.buttons_down index down } in
    if leb Button.count index
    then (t, drop)
    else if down
    then (moved, if t.buttons_stale index then drop else forward false)
    else if t.buttons_stale index
    then (record moved { buttons_stale = update t.buttons_stale index false }, drop)
    else (moved, forward false)

-- The two loops over the tables.
unfoldable pub mark_all_stale : InputTracker → InputTracker
mark_all_stale t = record t {
  keys_stale = λ i. if ltb i key_count && t.keys_down i then true else t.keys_stale i;
  buttons_stale = λ i. if ltb i Button.count && t.buttons_down i then true else t.buttons_stale i;
}
