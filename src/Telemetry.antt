-- ===== src/Telemetry.antt =====
-- telemetry.rs: the counters and the running estimates of the round trip. The rates that the
-- sampler derives from the counters are floats, and are not modelled.
use remote_input_bridge.Base.{ℕ, ◌+◌, ◌-◌, ◌*◌, ◌/◌, ◌%◌, ◌^◌, ◌==◌, leb, if◌then◌else◌}
pub mod Estimates

pub record Telemetry : Type 0 where
  pub wm_input_messages : ℕ
  pub raw_mouse_events : ℕ
  pub raw_kbd_events : ℕ
  pub udp_packets_sent : ℕ
  pub udp_bytes_sent : ℕ
  pub reliable_sent : ℕ
  pub dropped_no_link : ℕ
  pub coalesced_ticks_idle : ℕ
  pub reconnects : ℕ
  pub rtt_us : ℕ
  pub rtt_ewma_us : ℕ
  pub jitter_us : ℕ
  pub remote_applied : ℕ
  pub remote_udp_recv : ℕ
  pub remote_udp_dropped : ℕ

unfoldable pub default : Telemetry
default = record {
  wm_input_messages = 0;
  raw_mouse_events = 0;
  raw_kbd_events = 0;
  udp_packets_sent = 0;
  udp_bytes_sent = 0;
  reliable_sent = 0;
  dropped_no_link = 0;
  coalesced_ticks_idle = 0;
  reconnects = 0;
  rtt_us = 0;
  rtt_ewma_us = 0;
  jitter_us = 0;
  remote_applied = 0;
  remote_udp_recv = 0;
  remote_udp_dropped = 0;
}

-- `fetch_add` on a 64-bit counter.
unfoldable pub bump : ℕ → ℕ → ℕ
bump counter n = (counter + n) % 2 ^ 64

unfoldable pub abs_diff : ℕ → ℕ → ℕ
abs_diff a b = if leb b a then a - b else b - a

-- A first sample is taken whole, a later one by an eighth. The arithmetic is in 64 bits.
unfoldable pub smooth : ℕ → ℕ → ℕ
smooth prev sample = if prev == 0 then sample else (prev * 7 + sample) % 2 ^ 64 / 8

unfoldable pub record_rtt : Telemetry → ℕ → Telemetry
unfolding smooth abs_diff
record_rtt tel rtt_us =
    let mean = smooth tel.rtt_ewma_us rtt_us in
    let deviation = abs_diff rtt_us mean in
    record tel { rtt_us = rtt_us; rtt_ewma_us = mean; jitter_us = smooth tel.jitter_us deviation }
