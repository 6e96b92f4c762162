-- ===== src/Keymap.antt =====
-- input/keymap.rs: scan codes and virtual keys to HID usages and back, and the modifier bits.
-- The tables are lists of the source's entries; a code with no entry gives 0 (`HID_NONE`).
use remote_input_bridge.Base.{
  ℕ, ◌+◌, ◌-◌, List, [], ◌∷◌, Bool, ◌&&◌, ◌||◌, ◌==◌, leb, ltb, if◌then◌else◌, get_or,
}
use remote_input_bridge.Wire.Modmask
pub mod Bounds
pub mod RoundTrip
pub mod Modifiers

abbrev pub hid_none : ℕ
hid_none = 0

abbrev pub Table : Type 0
Table = List (ℕ × ℕ)

unfoldable pub find_entry : ℕ → Table → ℕ
find_entry k [] = hid_none
find_entry k ((j, v) ∷ rest) = if j == k then v else find_entry k rest

unfoldable pub within : ℕ → ℕ → ℕ → Bool
within lo hi x = leb lo x && leb x hi

-- Non-extended scan codes below 0x80.
unfoldable pub set1_entries : Table
set1_entries =
    (0x01, 0x29)
    ∷ (0x02, 0x1e)
    ∷ (0x03, 0x1f)
    ∷ (0x04, 0x20)
    ∷ (0x05, 0x21)
    ∷ (0x06, 0x22)
    ∷ (0x07, 0x23)
    ∷ (0x08, 0x24)
    ∷ (0x09, 0x25)
    ∷ (0x0a, 0x26)
    ∷ (0x0b, 0x27)
    ∷ (0x0c, 0x2d)
    ∷ (0x0d, 0x2e)
    ∷ (0x0e, 0x2a)
    ∷ (0x0f, 0x2b)
    ∷ (0x10, 0x14)
    ∷ (0x11, 0x1a)
    ∷ (0x12, 0x08)
    ∷ (0x13, 0x15)
    ∷ (0x14, 0x17)
    ∷ (0x15, 0x1c)
    ∷ (0x16, 0x18)
    ∷ (0x17, 0x0c)
    ∷ (0x18, 0x12)
    ∷ (0x19, 0x13)
    ∷ (0x1a, 0x2f)
    ∷ (0x1b, 0x30)
    ∷ (0x1c, 0x28)
    ∷ (0x1d, 0xe0)
    ∷ (0x1e, 0x04)
    ∷ (0x1f, 0x16)
    ∷ (0x20, 0x07)
    ∷ (0x21, 0x09)
    ∷ (0x22, 0x0a)
    ∷ (0x23, 0x0b)
    ∷ (0x24, 0x0d)
    ∷ (0x25, 0x0e)
    ∷ (0x26, 0x0f)
    ∷ (0x27, 0x33)
    ∷ (0x28, 0x34)
    ∷ (0x29, 0x35)
    ∷ (0x2a, 0xe1)
    ∷ (0x2b, 0x31)
    ∷ (0x2c, 0x1d)
    ∷ (0x2d, 0x1b)
    ∷ (0x2e, 0x06)
    ∷ (0x2f, 0x19)
    ∷ (0x30, 0x05)
    ∷ (0x31, 0x11)
    ∷ (0x32, 0x10)
    ∷ (0x33, 0x36)
    ∷ (0x34, 0x37)
    ∷ (0x35, 0x38)
    ∷ (0x36, 0xe5)
    ∷ (0x37, 0x55)
    ∷ (0x38, 0xe2)
    ∷ (0x39, 0x2c)
    ∷ (0x3a, 0x39)
    ∷ (0x3b, 0x3a)
    ∷ (0x3c, 0x3b)
    ∷ (0x3d, 0x3c)
    ∷ (0x3e, 0x3d)
    ∷ (0x3f, 0x3e)
    ∷ (0x40, 0x3f)
    ∷ (0x41, 0x40)
    ∷ (0x42, 0x41)
    ∷ (0x43, 0x42)
    ∷ (0x44, 0x43)
    ∷ (0x45, 0x53)
    ∷ (0x46, 0x47)
    ∷ (0x47, 0x5f)
    ∷ (0x48, 0x60)
    ∷ (0x49, 0x61)
    ∷ (0x4a, 0x56)
    ∷ (0x4b, 0x5c)
    ∷ (0x4c, 0x5d)
    ∷ (0x4d, 0x5e)
    ∷ (0x4e, 0x57)
    ∷ (0x4f, 0x59)
    ∷ (0x50, 0x5a)
    ∷ (0x51, 0x5b)
    ∷ (0x52, 0x62)
    ∷ (0x53, 0x63)
    ∷ (0x56, 0x64)
    ∷ (0x57, 0x44)
    ∷ (0x58, 0x45)
    ∷ (0x59, 0x67)
    ∷ (0x64, 0x68)
    ∷ (0x65, 0x69)
    ∷ (0x66, 0x6a)
    ∷ (0x67, 0x6b)
    ∷ (0x68, 0x6c)
    ∷ (0x69, 0x6d)
    ∷ (0x6a, 0x6e)
    ∷ (0x6b, 0x6f)
    ∷ (0x70, 0x88)
    ∷ (0x73, 0x87)
    ∷ (0x79, 0x8a)
    ∷ (0x7b, 0x8b)
    ∷ (0x7d, 0x89)
    ∷ []

unfoldable pub extended_entries : Table
extended_entries =
    (0x1c, 0x58)
    ∷ (0x1d, 0xe4)
    ∷ (0x35, 0x54)
    ∷ (0x37, 0x46)
    ∷ (0x38, 0xe6)
    ∷ (0x46, 0x48)
    ∷ (0x47, 0x4a)
    ∷ (0x48, 0x52)
    ∷ (0x49, 0x4b)
    ∷ (0x4b, 0x50)
    ∷ (0x4d, 0x4f)
    ∷ (0x4f, 0x4d)
    ∷ (0x50, 0x51)
    ∷ (0x51, 0x4e)
    ∷ (0x52, 0x49)
    ∷ (0x53, 0x4c)
    ∷ (0x5b, 0xe3)
    ∷ (0x5c, 0xe7)
    ∷ (0x5d, 0x65)
    ∷ (0x5e, 0x66)
    ∷ []

unfoldable pub vk_entries : Table
vk_entries =
    (0x08, 0x2a)
    ∷ (0x09, 0x2b)
    ∷ (0x0d, 0x28)
    ∷ (0x13, 0x48)
    ∷ (0x14, 0x39)
    ∷ (0x1b, 0x29)
    ∷ (0x20, 0x2c)
    ∷ (0x21, 0x4b)
    ∷ (0x22, 0x4e)
    ∷ (0x23, 0x4d)
    ∷ (0x24, 0x4a)
    ∷ (0x25, 0x50)
    ∷ (0x26, 0x52)
    ∷ (0x27, 0x4f)
    ∷ (0x28, 0x51)
    ∷ (0x2d, 0x49)
    ∷ (0x2e, 0x4c)
    ∷ (0x5b, 0xe3)
    ∷ (0x5c, 0xe7)
    ∷ (0x5d, 0x65)
    ∷ (0xa0, 0xe1)
    ∷ (0xa1, 0xe5)
    ∷ (0xa2, 0xe0)
    ∷ (0xa3, 0xe4)
    ∷ (0xa4, 0xe2)
    ∷ (0xa5, 0xe6)
    ∷ []

unfoldable pub hid_entries : Table
hid_entries =
    (0x27, 0x30)
    ∷ (0x28, 0x0d)
    ∷ (0x29, 0x1b)
    ∷ (0x2a, 0x08)
    ∷ (0x2b, 0x09)
    ∷ (0x2c, 0x20)
    ∷ (0x39, 0x14)
    ∷ (0x46, 0x2c)
    ∷ (0x47, 0x91)
    ∷ (0x48, 0x13)
    ∷ (0x49, 0x2d)
    ∷ (0x4a, 0x24)
    ∷ (0x4b, 0x21)
    ∷ (0x4c, 0x2e)
    ∷ (0x4d, 0x23)
    ∷ (0x4e, 0x22)
    ∷ (0x4f, 0x27)
    ∷ (0x50, 0x25)
    ∷ (0x51, 0x28)
    ∷ (0x52, 0x26)
    ∷ (0x53, 0x90)
    ∷ (0x65, 0x5d)
    ∷ (0xe0, 0xa2)
    ∷ (0xe1, 0xa0)
    ∷ (0xe2, 0xa4)
    ∷ (0xe3, 0x5b)
    ∷ (0xe4, 0xa3)
    ∷ (0xe5, 0xa1)
    ∷ (0xe6, 0xa5)
    ∷ (0xe7, 0x5c)
    ∷ []

unfoldable pub set1_to_hid : ℕ → ℕ
set1_to_hid scan = find_entry scan set1_entries

unfoldable pub extended_to_hid : ℕ → ℕ
extended_to_hid scan = find_entry scan extended_entries

unfoldable pub letters : List ℕ
letters =
    0x04 ∷ 0x05 ∷ 0x06 ∷ 0x07 ∷ 0x08 ∷ 0x09 ∷ 0x0a ∷ 0x0b ∷ 0x0c ∷ 0x0d ∷ 0x0e ∷ 0x0f ∷ 0x10 ∷ 0x11
    ∷ 0x12 ∷ 0x13 ∷ 0x14 ∷ 0x15 ∷ 0x16 ∷ 0x17 ∷ 0x18 ∷ 0x19 ∷ 0x1a ∷ 0x1b ∷ 0x1c ∷ 0x1d ∷ []

unfoldable pub letter_vk : List ℕ
letter_vk =
    b'A' ∷ b'B' ∷ b'C' ∷ b'D' ∷ b'E' ∷ b'F' ∷ b'G' ∷ b'H' ∷ b'I' ∷ b'J' ∷ b'K' ∷ b'L' ∷ b'M' ∷ b'N'
    ∷ b'O' ∷ b'P' ∷ b'Q' ∷ b'R' ∷ b'S' ∷ b'T' ∷ b'U' ∷ b'V' ∷ b'W' ∷ b'X' ∷ b'Y' ∷ b'Z' ∷ []

unfoldable pub vk_to_hid : ℕ → ℕ
unfolding within
vk_to_hid vk =
    if within 0x30 0x39 vk
    then (if vk == 0x30 then 0x27 else 0x1e + (vk - 0x31))
    else if within 0x41 0x5a vk
    then get_or letters (vk - 0x41) 0
    else if within 0x70 0x87 vk
    then 0x3a + (vk - 0x70)
    else find_entry vk vk_entries

-- An extended scan code through its table, any other below 0x80 through the first one.
unfoldable pub table_usage : ℕ → Bool → ℕ
table_usage scan e0 =
    if e0 then extended_to_hid scan else if ltb scan 0x80 then set1_to_hid scan else hid_none

unfoldable pub hid_usage : ℕ → Bool → ℕ → ℕ
hid_usage scan e0 vk =
    if e0 && (scan == 0x2a || scan == 0x36)
    then hid_none
    else if table_usage scan e0 == hid_none
    then vk_to_hid vk
    else table_usage scan e0

unfoldable pub modifier_bit : ℕ → ℕ
modifier_bit hid =
    if hid == 0xe0
    then Modmask.l_ctrl
    else if hid == 0xe1
    then Modmask.l_shift
    else if hid == 0xe2
    then Modmask.l_alt
    else if hid == 0xe3
    then Modmask.l_gui
    else if hid == 0xe4
    then Modmask.r_ctrl
    else if hid == 0xe5
    then Modmask.r_shift
    else if hid == 0xe6
    then Modmask.r_alt
    else if hid == 0xe7
    then Modmask.r_gui
    else 0

unfoldable pub hid_to_vk : ℕ → ℕ
unfolding within
hid_to_vk hid =
    if within 0x04 0x1d hid
    then get_or letter_vk (hid - 0x04) 0
    else if within 0x1e 0x26 hid
    then 0x31 + (hid - 0x1e)
    else if within 0x3a 0x45 hid
    then 0x70 + (hid - 0x3a)
    else if within 0x68 0x6f hid
    then 0x7c + (hid - 0x68)
    else find_entry hid hid_entries

-- input/hooks.rs: the modifier bit of a virtual key, for the mask that the hook keeps itself.
unfoldable pub modifier_bit_for_vk : ℕ → ℕ
modifier_bit_for_vk vk =
    if vk == 0xa0
    then Modmask.l_shift
    else if vk == 0xa1
    then Modmask.r_shift
    else if vk == 0xa2
    then Modmask.l_ctrl
    else if vk == 0xa3
    then Modmask.r_ctrl
    else if vk == 0xa4
    then Modmask.l_alt
    else if vk == 0xa5
    then Modmask.r_alt
    else if vk == 0x5b
    then Modmask.l_gui
    else if vk == 0x5c
    then Modmask.r_gui
    else 0
