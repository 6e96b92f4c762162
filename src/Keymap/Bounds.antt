-- ===== src/Keymap/Bounds.antt =====
-- input/keymap.rs: the range of the usages. The tracker's tables have 256 entries.
use remote_input_bridge.Base.{ℕ, ◌-◌, ◌<◌, arith, List, [], ◌∷◌, Bool, All, get_or, zero, suc}
use remote_input_bridge.Keymap.{Table, find_entry, set1_entries, extended_entries, vk_entries}
use remote_input_bridge.Keymap.{letters, set1_to_hid, extended_to_hid, vk_to_hid, table_usage}
use remote_input_bridge.Keymap.{hid_usage}

find_entry-lt : (k : ℕ) (t : Table) → All (λ e. e.1 < 256) t → find_entry k t < 256
unfolding find_entry
find_entry-lt k [] h = omega arith
find_entry-lt k ((j, v) ∷ rest) h = ground (arith, find_entry-lt k rest h.1)

get_or-lt : (xs : List ℕ) (i : ℕ) → All (λ x. x < 256) xs → get_or xs i 0 < 256
get_or-lt [] i h = omega arith
get_or-lt (x ∷ xs) zero h = h.0
get_or-lt (x ∷ xs) (suc i) h = get_or-lt xs i h.1

set1-lt : (scan : ℕ) → set1_to_hid scan < 256
unfolding set1_to_hid
set1-lt scan = find_entry-lt scan set1_entries (unfold set1_entries in omega arith)

extended-lt : (scan : ℕ) → extended_to_hid scan < 256
unfolding extended_to_hid
extended-lt scan = find_entry-lt scan extended_entries (unfold extended_entries in omega arith)

vk_to_hid-lt : (vk : ℕ) → vk_to_hid vk < 256
unfolding vk_to_hid
vk_to_hid-lt vk = ground (
  arith,
  find_entry-lt vk vk_entries (unfold vk_entries in omega arith),
  get_or-lt letters (vk - 0x41) (unfold letters in omega arith),
)

-- The usage of a key event is below 256, whatever the device reports.
hid_usage-lt : (scan : ℕ) (e0 : Bool) (vk : ℕ) → hid_usage scan e0 vk < 256
unfolding hid_usage table_usage
hid_usage-lt scan e0 vk = ground (arith, vk_to_hid-lt vk, set1-lt scan, extended-lt scan)
