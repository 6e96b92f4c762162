-- ===== src/Realtime.antt =====
-- net/realtime.rs, the loop of the realtime thread: what one tick of the timer does. A tick runs
-- against a state that other threads leave alone meanwhile; the clock and what the socket reports
-- are arguments of the tick.
use remote_input_bridge.Base.{
  ℕ, ◌+◌, ◌-◌, ◌%◌, ◌^◌, List, [], ◌∷◌, Option, none, some, Bool, true, false, not, ◌&&◌, ◌||◌,
  ◌==◌, ltb, leb, if◌then◌else◌,
}
use remote_input_bridge.Wire.Message.{mouse_move_rel, scroll}
use remote_input_bridge.Crypto.{Primitives}
use remote_input_bridge.Packet.{MouseMovePacket, encode}
use remote_input_bridge.Telemetry.{bump}
use remote_input_bridge.App.{AppState, input, send, is_remote}
pub mod Follow
pub mod Timer
pub mod Datagrams

pub record RealtimeParams : Type 0 where
  pub session_id : ℕ
  pub udp_key : List ℕ
  pub use_udp : Bool
  pub keepalive_stream : Bool
  pub keepalive_interval_us : ℕ

-- The variables of the loop, and whether it has a socket.
pub record Loop : Type 0 where
  pub has_socket : Bool
  pub sequence : ℕ
  pub last_x : ℕ
  pub last_y : ℕ
  pub last_sent_us : ℕ

-- Before the loop. `bound` says whether the socket could be bound.
unfoldable pub start : RealtimeParams → (bound : Bool) → AppState → Loop × AppState
start params bound st =
    let has_socket = params.use_udp && bound in
    (
      record {
        has_socket = has_socket;
        sequence = 0;
        last_x = st.total_x;
        last_y = st.total_y;
        last_sent_us = 0;
      },
      record st { udp_ready = has_socket || st.udp_ready },
    )

-- `wrapping_sub` on 32 bits.
unfoldable pub wrapping_sub : ℕ → ℕ → ℕ
wrapping_sub a b = (a + 2 ^ 32 - b) % 2 ^ 32

-- What the socket reports: the bytes sent, or an error.
unfoldable pub count_sent : Option ℕ → AppState → AppState
unfolding bump
count_sent none st = st
count_sent (some n) st = record st {
  tel = record (st.tel) {
    udp_packets_sent = bump st.tel.udp_packets_sent 1;
    udp_bytes_sent = bump st.tel.udp_bytes_sent n;
  };
}

unfoldable pub keepalive_due : RealtimeParams → ℕ → Loop → Bool
keepalive_due params now_us loop =
    params.keepalive_stream
    && (ltb 0 params.keepalive_interval_us
        && leb params.keepalive_interval_us (now_us - loop.last_sent_us))

unfoldable pub send_scroll : AppState → AppState
unfolding send
send_scroll st =
    let drained = record st { scroll_x = 0; scroll_y = 0 } in
    if not (st.scroll_x == 0) || not (st.scroll_y == 0)
    then send (input (scroll st.scroll_x st.scroll_y)) drained
    else drained

unfoldable pub send_delta : ℕ → ℕ → AppState → AppState
unfolding send
send_delta dx dy st =
    if not (dx == 0) || not (dy == 0) then send (input (mouse_move_rel dx dy)) st else st

-- The movement half of a tick while the Mac has the input: the datagram handed to the socket, if
-- one is.
unfoldable pub send_movement :
    Primitives → RealtimeParams → ℕ → Option ℕ → Loop → AppState → Loop × AppState × Option (List ℕ)
unfolding wrapping_sub count_sent send_delta bump
send_movement p params now_us outcome loop st =
    let rebased = record loop {
      sequence = (loop.sequence + 1) % 2 ^ 64;
      last_x = st.total_x;
      last_y = st.total_y;
      last_sent_us = now_us;
    } in
    let packet = encode p params.udp_key (record {
      session_id = params.session_id;
      sequence = rebased.sequence;
      timestamp_us = now_us;
      total_x = st.total_x;
      total_y = st.total_y;
    }) in
    let dx = wrapping_sub st.total_x loop.last_x in
    let dy = wrapping_sub st.total_y loop.last_y in
    if not (st.total_x == loop.last_x)
      || (not (st.total_y == loop.last_y) || keepalive_due params now_us loop)
    then (if loop.has_socket
        then (rebased, count_sent outcome st, some packet)
        else (rebased, send_delta dx dy st, none))
    else (
      loop,
      record st {
        tel = record (st.tel) { coalesced_ticks_idle = bump st.tel.coalesced_ticks_idle 1 };
      },
      none,
    )

unfoldable pub tick :
    Primitives → RealtimeParams → ℕ → Option ℕ → Loop → AppState → Loop × AppState × Option (List ℕ)
unfolding send_movement send_scroll is_remote
tick p params now_us outcome loop st =
    let (moved, sent, packet) = send_movement p params now_us outcome loop st in
    if is_remote st.target then (moved, send_scroll sent, packet) else (
      record loop { last_x = st.total_x; last_y = st.total_y },
      record st { scroll_x = 0; scroll_y = 0 },
      none,
    )
