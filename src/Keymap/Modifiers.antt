-- ===== src/Keymap/Modifiers.antt =====
-- The modifier bits of input/keymap.rs against those of input/hooks.rs.
use remote_input_bridge.Base.{ℕ, ◌≤◌, ◌≡◌, refl, arith, ◌==◌, ==_iff, true}
use remote_input_bridge.Base.Masks.{each_below, each_below_sound}
use remote_input_bridge.Keymap.{find_entry, hid_entries, letter_vk, hid_to_vk, modifier_bit}
use remote_input_bridge.Keymap.{modifier_bit_for_vk}
use remote_input_bridge.Keymap.RoundTrip.{find_entry_above}
use native.Mathlib.Decide.{dec_lt}

agree_table : each_below 256 (λ hid. modifier_bit_for_vk (hid_to_vk hid) == modifier_bit hid) ≡ true
unfolding each_below modifier_bit_for_vk modifier_bit hid_to_vk find_entry hid_entries letter_vk
agree_table = refl

modifier_bits_above : (hid : ℕ) → 256 ≤ hid → modifier_bit_for_vk (hid_to_vk hid) ≡ modifier_bit hid
unfolding modifier_bit_for_vk modifier_bit hid_to_vk
modifier_bits_above hid h =
    ground (arith, find_entry_above hid 256 hid_entries (unfold hid_entries in omega arith) h)

-- For every usage, the bit that the keyboard hook takes from the virtual key of a key is the bit
-- that the tracker takes from its usage.
modifier_bits_agree : (hid : ℕ) → modifier_bit_for_vk (hid_to_vk hid) ≡ modifier_bit hid
modifier_bits_agree hid = elim (dec_lt hid 256) [
  | yes lt ↦ (==_iff _ _).0 (each_below_sound 256 _ hid agree_table lt)
  | no ge ↦ modifier_bits_above hid (omega arith)
]
