-- ===== src/Wire/Message/Button.antt =====
-- protocol.rs, `mod button`: the mouse buttons' numbers, and how many there are.
use remote_input_bridge.Base.{ℕ}

abbrev pub left : ℕ
left = 0

abbrev pub right : ℕ
right = 1

abbrev pub middle : ℕ
middle = 2

abbrev pub back : ℕ
back = 3

abbrev pub forward : ℕ
forward = 4

abbrev pub count : ℕ
count = 5
