-- ===== src/Keymap/RoundTrip.antt =====
-- The mappings against each other: virtual keys to usages and back, and scan codes told apart.
use remote_input_bridge.Base.{ℕ, ◌+◌, ◌-◌, ◌≤◌, ◌<◌, ◌≡◌, ◌≢◌, ◌⊎◌, refl, arith, ap, [], ◌∷◌}
use remote_input_bridge.Base.{Bool, All, true, false, ◌&&◌, ◌||◌, ◌==◌, not, ◌++◌, if◌then◌else◌}
use native.Mathlib.Decide.{dec_lt}
use remote_input_bridge.Base.Masks.{each_below, each_below_sound}
use remote_input_bridge.Keymap.{Table, find_entry, within, set1_entries, extended_entries}
use remote_input_bridge.Keymap.{vk_entries, hid_entries, letters, letter_vk, set1_to_hid}
use remote_input_bridge.Keymap.{extended_to_hid, table_usage, vk_to_hid, hid_to_vk}

pub find_entry_above : (k n : ℕ) (t : Table) → All (λ e. e.0 < n) t → n ≤ k → find_entry k t ≡ 0
unfolding find_entry
find_entry_above k n [] h le = refl
find_entry_above k n ((j, v) ∷ rest) h le = ground (arith, find_entry_above k n rest h.1)

-- No virtual key from 256 on has a usage.
vk_to_hid_above : (vk : ℕ) → 256 ≤ vk → vk_to_hid vk ≡ 0
unfolding vk_to_hid
vk_to_hid_above vk h =
    ground (arith, find_entry_above vk 256 vk_entries (unfold vk_entries in omega arith) h)

back_table :
    each_below 256
      (λ vk. vk_to_hid vk == 0 || (within 0x7c 0x87 vk || hid_to_vk (vk_to_hid vk) == vk))
    ≡ true
unfolding each_below vk_to_hid hid_to_vk find_entry vk_entries hid_entries letters letter_vk
back_table = refl

lost_table : each_below 12 (λ n. not (hid_to_vk (vk_to_hid (0x7c + n)) == 0x7c + n)) ≡ true
unfolding each_below vk_to_hid hid_to_vk find_entry vk_entries hid_entries letters letter_vk
lost_table = refl

-- The fallback through a virtual key keeps the key's identity, F13 to F24 excepted: a key that it
-- knows comes back from its usage.
pub hid_to_vk-vk_to_hid :
    (vk : ℕ) → vk_to_hid vk ≢ 0 → (vk < 0x7c) ⊎ (0x87 < vk) → hid_to_vk (vk_to_hid vk) ≡ vk
unfolding within
hid_to_vk-vk_to_hid vk known outside = elim (dec_lt vk 256) [
  | yes lt ↦ ground (arith, each_below_sound 256 _ vk back_table lt)
  | no ge ↦ absurd (known (vk_to_hid_above vk (omega arith)))
]

-- Each of F13 to F24 is given by the fallback the usage `0x3a + (vk - 0x70)`, which `hid_to_vk` does
-- not take back to it.
pub function_keys_lost :
    (vk : ℕ)
    → 0x7c ≤ vk
    → vk ≤ 0x87
    → (vk_to_hid vk ≡ 0x3a + (vk - 0x70)) × (hid_to_vk (vk_to_hid vk) ≢ vk)
function_keys_lost vk lo hi =
    let back : 0x7c + (vk - 0x7c) ≡ vk = omega arith in
    let lost = each_below_sound 12 _ (vk - 0x7c) lost_table (omega arith) in
    (unfold vk_to_hid within in ground arith, rw back at (lost_key (vk - 0x7c) lost))
  where
    lost_key :
        (n : ℕ)
        → not (hid_to_vk (vk_to_hid (0x7c + n)) == 0x7c + n) ≡ true
        → hid_to_vk (vk_to_hid (0x7c + n)) ≢ 0x7c + n
    lost_key n h = ground arith

-- The scan code behind a usage: an extended one is counted from 256 on.
flip_entries : ℕ → Table → Table
flip_entries base [] = []
flip_entries base ((scan, usage) ∷ rest) = (usage, base + scan) ∷ flip_entries base rest

scan_of : ℕ → ℕ
unfolding find_entry flip_entries set1_entries extended_entries
scan_of usage = find_entry usage (flip_entries 0 set1_entries ++ flip_entries 256 extended_entries)

scan_table :
    each_below 256 (λ scan.
      (table_usage scan false == 0 || scan_of (table_usage scan false) == scan)
      && (table_usage scan true == 0 || scan_of (table_usage scan true) == 256 + scan))
    ≡ true
unfolding each_below scan_of table_usage set1_to_hid extended_to_hid
scan_table = refl

table_usage_above : (scan : ℕ) (e0 : Bool) → 256 ≤ scan → table_usage scan e0 ≡ 0
unfolding table_usage extended_to_hid
table_usage_above scan true h =
    find_entry_above scan 256 extended_entries (unfold extended_entries in omega arith) h
table_usage_above scan false h = ground arith

scan_of-table_usage :
    (scan : ℕ) (e0 : Bool)
    → table_usage scan e0 ≢ 0
    → (scan < 256) × (scan_of (table_usage scan e0) ≡ (if e0 then 256 + scan else scan))
scan_of-table_usage scan e0 known = elim (dec_lt scan 256) [
  | yes lt ↦ (lt, ground (arith, each_below_sound 256 _ scan scan_table lt))
  | no ge ↦ absurd (known (table_usage_above scan e0 (omega arith)))
]

-- Two keys for which the scan tables give the same usage, other than none, are the same key, prefix
-- included.
table_usage_injective :
    (s t : ℕ) (d e : Bool)
    → table_usage s d ≢ 0
    → table_usage s d ≡ table_usage t e
    → (s ≡ t) × (d ≡ e)
table_usage_injective s t d e known same =
    ground (arith, scan_of-table_usage s d known, scan_of-table_usage t e, ap scan_of same)
