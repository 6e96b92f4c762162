-- ===== src/Net.antt =====
-- net/mod.rs, the network thread: the connection, its loop of (re)connect, message and heartbeat,
-- and the handlers of each. Times are in microseconds of one clock. The handshake and the writes to
-- the socket are outside: the outcome of a handshake is an argument of a round, and `fails` says
-- which writes fail, by their number. Log lines are left out, with the text they remember.
use remote_input_bridge.Base.{
  ℕ, suc, ◌+◌, ◌-◌, ◌*◌, ◌/◌, ◌%◌, ◌^◌, min, List, [], ◌∷◌, ◌++◌, Option, none, some, Bool, true,
  false, not, ◌&&◌, ◌||◌, ◌==◌, ltb, leb, if◌then◌else◌, get_or,
}
use remote_input_bridge.Base.Text.{ascii}
use remote_input_bridge.Wire.Message.{
  Reliable, session_start, ping, pong, target_active, modifier_sync, release_all, bye, edge_hit,
  mouse_button, scroll, key, mouse_move_rel,
}
use remote_input_bridge.Wire.Message.Bye
use remote_input_bridge.Config.{
  Config, TransportKey, transport_key, transport_eq, mouse_interval_us, is_blank,
}
use remote_input_bridge.Telemetry.{record_rtt, bump}
use remote_input_bridge.App.{
  AppState, Target, local_windows, remote_mac, is_remote, NetMsg, input, target_changed, incoming,
  link_lost, reconnect, pair, log_line, config_changed, shutdown, connecting, authenticating,
  connected, disconnected, set_link, set_status_error, set_remote_name, request_target,
}
pub mod Linked
pub mod Turns
pub mod Loss

pub data ConnectError : Type 0 where
  io : ConnectError
  protocol : (text : List ℕ) → ConnectError
  needs_pairing pairing_disabled bad_pairing_code auth_rejected : ConnectError
  version_mismatch : (version : ℕ) → ConnectError
  remote : (code message : List ℕ) → ConnectError

-- What a handshake leaves of its session, apart from the keys and the socket.
pub record Session : Type 0 where
  pub session_id : ℕ
  pub server_name : List ℕ

pub data Outcome : Type 0 where
  session : Session → Outcome
  failed : ConnectError → (text : List ℕ) → Outcome

pub record Connection : Type 0 where
  pub generation : ℕ
  pub last_ping : ℕ
  pub last_pong : ℕ

-- The variables of `run` and the shared state; `written` are the messages that reached the socket,
-- each with the generation of its connection, oldest first, and `writes` counts the attempts.
pub record NetState : Type 0 where
  pub app : AppState
  pub conn : Option Connection
  pub generation : ℕ
  pub attempt : ℕ
  pub next_attempt : ℕ
  pub pair_code : Option (List ℕ)
  pub manual_request : Bool
  pub transport : TransportKey
  pub connected_once : Bool
  pub written : List (ℕ × Reliable)
  pub writes : ℕ

-- `BACKOFF_MS[i]`, in microseconds.
unfoldable pub backoff_us : ℕ → ℕ
backoff_us i = get_or (500 ∷ 1000 ∷ 2000 ∷ 5000 ∷ 5000 ∷ []) i 0 * 1000

unfoldable pub pairing_required : ConnectError → Bool
pairing_required needs_pairing = true
pairing_required pairing_disabled = true
pairing_required bad_pairing_code = true
pairing_required auth_rejected = true
pairing_required _ = false

unfoldable pub with_app : (AppState → AppState) → NetState → NetState
with_app f n = record n { app = f n.app }

unfoldable pub is_current : ℕ → NetState → Bool
is_current generation n = elim (n.conn) [ none ↦ false | some c ↦ c.generation == generation ]

unfoldable pub switch_sequence : Target → List Reliable
switch_sequence remote_mac = release_all ∷ modifier_sync 0 ∷ target_active true ∷ []
switch_sequence local_windows = target_active false ∷ release_all ∷ modifier_sync 0 ∷ []

unfoldable pub count_sent : NetState → NetState
unfolding with_app bump
count_sent =
    with_app
      (λ st. record st { tel = record (st.tel) { reliable_sent = bump st.tel.reliable_sent 1 } })

unfoldable pub count_dropped : NetState → NetState
unfolding with_app bump
count_dropped =
    with_app (λ st. record st {
      tel = record (st.tel) { dropped_no_link = bump st.tel.dropped_no_link 1 };
    })

-- A pong that was received at `now`.
unfoldable pub store_pong : ℕ → ℕ → ℕ → ℕ → AppState → AppState
unfolding record_rtt
store_pong rtt applied recv dropped st = record st {
  tel = record (record_rtt st.tel rtt) {
    remote_applied = applied;
    remote_udp_recv = recv;
    remote_udp_dropped = dropped;
  };
}

handle_pong : ℕ → ℕ → ℕ → ℕ → ℕ → NetState → NetState
unfolding with_app store_pong
handle_pong now t applied recv dropped n =
    with_app (store_pong (now - t) applied recv dropped) (record n {
      conn = elim (n.conn) [ none ↦ none | some c ↦ some (record c { last_pong = now }) ];
    })

handle_edge_hit : NetState → NetState
unfolding with_app
handle_edge_hit n =
    if n.app.cfg.edge_switch then with_app (λ st. (request_target local_windows st).0) n else n

-- A log line is a raw frame, whose outcome nobody looks at.
write_log : NetState → NetState
write_log n = elim (n.conn) [ none ↦ n | some c ↦ record n { writes = suc n.writes } ]

unfoldable pub wants_connection : Config → NetState → Bool
wants_connection cfg n =
    not (is_blank cfg.mac_host)
    && (cfg.auto_connect
        || (n.manual_request || elim (n.pair_code) [ none ↦ false | some c ↦ true ]))

unfoldable pub connect_failed : ℕ → ConnectError → List ℕ → NetState → NetState
unfolding with_app pairing_required backoff_us
connect_failed now error text n =
    let wait = if pairing_required error then 5000000 else backoff_us (min n.attempt 4) in
    record (with_app
      (λ st. set_link disconnected (record st {
        status = record (st.status) {
          last_error = text;
          pairing_required = pairing_required error;
        };
      }))
      n) { attempt = suc n.attempt; next_attempt = now + wait }

module _ (fails : ℕ → Bool) where
  -- `Session::send` and what the socket makes of it: false if the write fails.
  unfoldable pub write : Connection → Reliable → NetState → NetState × Bool
  write c msg n =
      let counted = record n { writes = suc n.writes } in
      if fails n.writes
      then (counted, false)
      else (record counted { written = n.written ++ (c.generation, msg) ∷ [] }, true)

  -- `conn.take()` and `close`.
  unfoldable pub close : ℕ → NetState → NetState
  unfolding write
  close reason n = elim (n.conn) [
    | none ↦ n
    | some c ↦ record (write c (bye reason) n).0 { conn = none }
  ]

  unfoldable pub drop_connection : List ℕ → NetState → NetState
  unfolding close with_app
  drop_connection reason n =
      with_app (λ st. set_link disconnected (set_status_error reason st))
        (close Bye.protocol_error n)

  -- `if let Some(c) = conn.take()`, with the fall of the link.
  unfoldable pub close_link : ℕ → NetState → NetState
  unfolding close with_app
  close_link reason n = elim (n.conn) [
    | none ↦ n
    | some c ↦ with_app (set_link disconnected) (close reason n)
  ]

  -- The loop over the three messages of a switch.
  unfoldable pub write_all : Connection → List Reliable → NetState → NetState
  unfolding write
  write_all c [] n = n
  write_all c (m ∷ ms) n =
      let (n', ok) = write c m n in
      let rest = write_all c ms n' in if ok then rest else drop_connection (ascii "write failed") n'

  unfoldable pub announce : Target → NetState → NetState
  unfolding write_all switch_sequence
  announce target n = elim (n.conn) [ none ↦ n | some c ↦ write_all c (switch_sequence target) n ]

  -- An input event; it is looked at again whether the Mac still has the input.
  unfoldable pub forward_input : Reliable → NetState → NetState
  unfolding write count_sent count_dropped
  forward_input msg n = elim (n.conn) [
    | none ↦ count_dropped n
    | some c ↦
        let (n', ok) = write c msg n in
        if is_remote n.app.target
        then (if ok then count_sent n' else drop_connection (ascii "write failed") n')
        else n
  ]

  unfoldable pub handle_incoming : ℕ → Reliable → NetState → NetState
  unfolding handle_pong handle_edge_hit
  handle_incoming now (pong t applied recv dropped) n = handle_pong now t applied recv dropped n
  handle_incoming now (edge_hit e) n = handle_edge_hit n
  handle_incoming now (bye reason) n = drop_connection (ascii "receiver said goodbye") n
  handle_incoming now _ n = n

  unfoldable pub handle_link_lost : ℕ → List ℕ → NetState → NetState
  handle_link_lost now reason n = record (drop_connection reason n) {
    attempt = 0;
    next_attempt = now + backoff_us 0;
  }

  unfoldable pub change_transport : ℕ → NetState → NetState
  change_transport now n =
      let fresh = transport_key n.app.cfg in
      if transport_eq fresh n.transport
      then n
      else record (close_link Bye.user (record n { transport = fresh })) {
        attempt = 0;
        next_attempt = now;
      }

  -- One message; false ends the loop.
  unfoldable pub handle_message : ℕ → NetMsg → NetState → NetState × Bool
  unfolding is_current handle_link_lost change_transport write_log
  handle_message now shutdown n = (with_app (set_link disconnected) (close Bye.shutdown n), false)
  handle_message now (input msg) n = (forward_input msg n, true)
  handle_message now (log_line level text) n = (write_log n, true)
  handle_message now (target_changed target) n = (announce target n, true)
  handle_message now (incoming generation msg) n =
      (if is_current generation n then handle_incoming now msg n else n, true)
  handle_message now (link_lost generation reason) n =
      (if is_current generation n then handle_link_lost now reason n else n, true)
  handle_message now reconnect n = (
    close_link Bye.user (record n { manual_request = true; attempt = 0; next_attempt = now }),
    true,
  )
  handle_message now (pair code) n = (
    close_link Bye.user (record n { pair_code = some code; attempt = 0; next_attempt = now }),
    true,
  )
  handle_message now config_changed n = (change_transport now n, true)

  -- The timings are of the configuration that the round read before it waited.
  unfoldable pub heartbeat_conn : Config → ℕ → Connection → NetState → NetState
  unfolding write
  heartbeat_conn cfg now c n =
      let pinged = record n { conn = some (record c { last_ping = now }) } in
      let (n', ok) = write c (ping now) pinged in
      if ltb (cfg.heartbeat_timeout_ms * 1000) (now - c.last_pong)
      then record (drop_connection (ascii "heartbeat timeout") n) {
        next_attempt = now + backoff_us 0;
      }
      else if leb (cfg.heartbeat_ms * 1000) (now - c.last_ping)
      then (if ok then n' else drop_connection (ascii "heartbeat write failed") n')
      else n

  unfoldable pub heartbeat : Config → ℕ → NetState → NetState
  heartbeat cfg now n = elim (n.conn) [ none ↦ n | some c ↦ heartbeat_conn cfg now c n ]

  unfoldable pub start_session : ℕ → Session → Config → NetState → NetState
  unfolding write with_app
  start_session now s cfg n =
      let c : Connection = record { generation = n.generation; last_ping = now; last_pong = now } in
      let n1 =
        (write c (session_start (mouse_interval_us cfg) (if cfg.edge_switch then 1 else 0))
          (with_app (greet s) n)).0 in
      let n2 = (write c release_all (write c (target_active false) n1).0).0 in
      let counted = if n.connected_once then with_app count_reconnect n2 else n2 in
      record (with_app (set_link connected) counted) { conn = some c }
    where
      greet : Session → AppState → AppState
      greet s st = record st {
        session_id = s.session_id;
        status = record { remote_name = s.server_name; last_error = []; pairing_required = false };
      }

      count_reconnect : AppState → AppState
      count_reconnect st = record st {
        tel = record (st.tel) { reconnects = bump st.tel.reconnects 1 };
      }

  -- The handshake sees the configuration and the typed code; `outcome` is what it returns.
  unfoldable pub connect_round : ℕ → Outcome → Config → NetState → NetState
  unfolding with_app start_session connect_failed
  connect_round now outcome cfg n =
      let trying = record (with_app (λ st. set_link authenticating (set_link connecting st)) n) {
        manual_request = false;
        generation = (n.generation + 1) % 2 ^ 64;
        pair_code = none;
      } in
      finish outcome trying
    where
      finish : Outcome → NetState → NetState
      finish (session s) trying = record (start_session now s cfg (record trying { attempt = 0 })) {
        connected_once = true;
      }
      finish (failed error text) trying = connect_failed now error text trying

  unfoldable pub reconnect_phase : ℕ → Outcome → NetState → NetState
  unfolding wants_connection connect_round
  reconnect_phase now outcome n =
      let cfg = n.app.cfg in
      let connected = connect_round now outcome cfg n in
      elim (n.conn) [
        | none ↦ if wants_connection cfg n && leb n.next_attempt now then connected else n
        | some c ↦ n
      ]

-- What `recv_timeout` gives: a message, nothing in time, or the end of the channel.
pub data Received : Type 0 where
  message : NetMsg → Received
  timeout : Received
  hung_up : Received

-- What a round meets: the time it starts and the outcome of a handshake, then what it receives and
-- when.
pub record Inputs : Type 0 where
  pub started : ℕ
  pub outcome : Outcome
  pub received : Received
  pub now : ℕ

module _ (fails : ℕ → Bool) where
  unfoldable pub receive : ℕ → Received → NetState → NetState × Bool
  receive now (message msg) n = handle_message fails now msg n
  receive now timeout n = (n, true)
  receive now hung_up n = (close fails Bye.shutdown n, false)

  -- One turn of the loop; false when the thread returns.
  unfoldable pub round : Inputs → NetState → NetState × Bool
  unfolding reconnect_phase receive heartbeat
  round i n =
      let ready = reconnect_phase fails i.started i.outcome n in
      let cfg = ready.app.cfg in
      let (handled, running) = receive i.now i.received ready in
      (if running then heartbeat fails cfg i.now handled else handled, running)
