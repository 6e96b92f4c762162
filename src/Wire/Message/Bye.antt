-- ===== src/Wire/Message/Bye.antt =====
-- protocol.rs, `mod bye`: the reasons of a goodbye.
use remote_input_bridge.Base.{ℕ}

abbrev pub user : ℕ
user = 0

abbrev pub shutdown : ℕ
shutdown = 1

abbrev pub protocol_error : ℕ
protocol_error = 2
