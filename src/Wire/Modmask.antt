-- ===== src/Wire/Modmask.antt =====
-- protocol.rs, `mod modmask`: the bits of the physical modifiers, and the masks of each pair.
use remote_input_bridge.Base.{ℕ, bit_or}

abbrev pub l_ctrl : ℕ
l_ctrl = 1

abbrev pub l_shift : ℕ
l_shift = 2

abbrev pub l_alt : ℕ
l_alt = 4

abbrev pub l_gui : ℕ
l_gui = 8

abbrev pub r_ctrl : ℕ
r_ctrl = 16

abbrev pub r_shift : ℕ
r_shift = 32

abbrev pub r_alt : ℕ
r_alt = 64

abbrev pub r_gui : ℕ
r_gui = 128

abbrev pub any_ctrl : ℕ
any_ctrl = bit_or l_ctrl r_ctrl

abbrev pub any_shift : ℕ
any_shift = bit_or l_shift r_shift

abbrev pub any_alt : ℕ
any_alt = bit_or l_alt r_alt

abbrev pub any_gui : ℕ
any_gui = bit_or l_gui r_gui
