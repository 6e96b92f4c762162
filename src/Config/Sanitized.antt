-- ===== src/Config/Sanitized.antt =====
-- What `sanitized` guarantees of a configuration that was read from the disk.
use remote_input_bridge.Base.{ℕ, ◌*◌, ◌^◌, ◌≤◌, ◌≡◌, arith, List, some, true, ltb, if◌then◌else◌}
use remote_input_bridge.Base.{lt→ltb}
use remote_input_bridge.Hotkey.{trim_start, trim_end}
use remote_input_bridge.Config.{Config, clamp, is_interval_choice, is_blank, sanitized}
use remote_input_bridge.Config.{mouse_interval_us}

-- The ranges that the rest of the program relies on.
pub record IsSane (c : Config) : Type 0 where
  pub interval : is_interval_choice c.mouse_interval_ms ≡ true
  pub keepalive : c.keepalive_interval_ms ≤ 500
  pub heartbeat_low : 50 ≤ c.heartbeat_ms
  pub heartbeat_high : c.heartbeat_ms ≤ 5000
  pub timeout_low : c.heartbeat_ms * 2 ≤ c.heartbeat_timeout_ms
  pub timeout_high : c.heartbeat_timeout_ms ≤ 30000

clamp-some : (lo hi x : ℕ) → lo ≤ hi → (y : ℕ) × (clamp lo hi x ≡ some y) × (lo ≤ y) × (y ≤ hi)
unfolding clamp
clamp-some lo hi x h =
    (if ltb x lo then lo else if ltb hi x then hi else x, ground arith, ground arith, ground arith)

abbrev chosen : ℕ → ℕ
chosen ms = if is_interval_choice ms then ms else 2

is_interval_choice-chosen : (ms : ℕ) → is_interval_choice (chosen ms) ≡ true
unfolding is_interval_choice
is_interval_choice-chosen ms = ground arith

-- Cleaning a configuration never panics, and gives one in range whose tick interval in microseconds
-- is exactly the thousandfold, between 1000 and 8000.
pub sanitized-IsSane :
    (hostname : List ℕ) (c : Config)
    → (d : Config) × (sanitized hostname c ≡ some d)
      × IsSane d
      × (mouse_interval_us d ≡ d.mouse_interval_ms * 1000)
      × (1000 ≤ mouse_interval_us d)
      × (mouse_interval_us d ≤ 8000)
unfolding sanitized mouse_interval_us
sanitized-IsSane hostname c =
    let (keepalive, k, k0, k1) = clamp-some 0 500 c.keepalive_interval_ms (omega arith) in
    let (heartbeat, b, b0, b1) = clamp-some 50 5000 c.heartbeat_ms (omega arith) in
    let fits = lt→ltb (heartbeat * 2) (2 ^ 64) (omega arith) in
    let (timeout, t, t0, t1) =
      clamp-some (heartbeat * 2) 30000 c.heartbeat_timeout_ms (omega arith) in
    let name = if is_blank (trim_end (trim_start c.device_name)) then hostname else c.device_name in
    let choice = is_interval_choice-chosen c.mouse_interval_ms in
    (
      record c {
        mouse_interval_ms = chosen c.mouse_interval_ms;
        keepalive_interval_ms = keepalive;
        heartbeat_ms = heartbeat;
        heartbeat_timeout_ms = timeout;
        device_name = name;
      },
      rw (k, b, fits, t),
      record {
        interval = choice;
        keepalive = k1;
        heartbeat_low = b0;
        heartbeat_high = b1;
        timeout_low = t0;
        timeout_high = t1;
      },
      unfold is_interval_choice in ground (arith, choice),
      unfold is_interval_choice in ground (arith, choice),
      unfold is_interval_choice in ground (arith, choice),
    )
