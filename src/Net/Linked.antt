-- ===== src/Net/Linked.antt =====
-- net/mod.rs: the link state of the shared state against the connection of the network thread.
use remote_input_bridge.Base.{ℕ, ◌+◌, ◌%◌, ◌^◌, ◌≡◌, ◌≢◌, refl, arith, List, [], ◌∷◌, Option}
use remote_input_bridge.Base.{none, some, Bool, true, false, ap, Option-cases, inl, inr}
use remote_input_bridge.Base.Text.{ascii}
use remote_input_bridge.Config.{Config, transport_key}
use remote_input_bridge.Wire.Message.{Reliable, session_start, ping, pong, target_active}
use remote_input_bridge.Wire.Message.{modifier_sync, release_all, bye, edge_hit, mouse_button}
use remote_input_bridge.Wire.Message.{scroll, key, mouse_move_rel}
use remote_input_bridge.App.{AppState, Target, local_windows, LinkState, is_connected, NetMsg}
use remote_input_bridge.App.{input, target_changed, incoming, link_lost, reconnect, pair}
use remote_input_bridge.App.{log_line, config_changed, shutdown, connecting, authenticating}
use remote_input_bridge.App.{connected, disconnected, set_link, set_status_error, request_target}
use remote_input_bridge.Net.{NetState, Connection, ConnectError, Session, Outcome, session}
use remote_input_bridge.Net.{failed, Received, message, timeout, hung_up, Inputs, with_app, write}
use remote_input_bridge.Net.{close, drop_connection, close_link, write_all, switch_sequence}
use remote_input_bridge.Net.{announce, count_sent, count_dropped, forward_input, handle_incoming}
use remote_input_bridge.Net.{handle_message, heartbeat_conn, heartbeat, start_session}
use remote_input_bridge.Net.{connect_failed, connect_round, reconnect_phase, receive, round}

unfoldable pub is_some {ℓ} : {A : Type ℓ} → Option A → Bool
is_some none = false
is_some (some a) = true

abbrev pub IsLinked : NetState → Type 0
IsLinked n = is_connected n.app.link ≡ is_some n.conn

-- `set_link` stores the link, whatever it does to the target.
link-set_link : (l : LinkState) (st : AppState) → (set_link l st).link ≡ l
unfolding set_link
link-set_link l st = ground arith

module _ (fails : ℕ → Bool) where
  write-app :
      (c : Connection) (m : Reliable) (n : NetState)
      → ((write fails c m n).0.app ≡ n.app) × ((write fails c m n).0.conn ≡ n.conn)
  unfolding write
  write-app c m n = (ground arith, ground arith)

  close-app :
      (reason : ℕ) (n : NetState)
      → ((close fails reason n).app ≡ n.app) × ((close fails reason n).conn ≡ none)
  unfolding close write
  close-app reason n = (ground arith, ground arith)

  drop_connection-IsLinked :
      (reason : List ℕ) (n : NetState) → IsLinked (drop_connection fails reason n)
  unfolding drop_connection is_connected with_app is_some
  drop_connection-IsLinked reason n =
      ground (arith, close-app 2 n, link-set_link disconnected (set_status_error reason n.app))

  close_link-IsLinked :
      (reason : ℕ) (n : NetState) → IsLinked n → IsLinked (close_link fails reason n)
  unfolding close_link is_connected with_app is_some
  close_link-IsLinked reason n h =
      ground (arith, close-app reason n, link-set_link disconnected n.app)

  write_all-IsLinked :
      (c : Connection) (ms : List Reliable) (n : NetState)
      → IsLinked n
      → IsLinked (write_all fails c ms n)
  unfolding write_all
  write_all-IsLinked c [] n h = h
  write_all-IsLinked c (m ∷ ms) n h = ground (
    arith,
    write-app c m n,
    drop_connection-IsLinked (ascii "write failed") (write fails c m n).0,
    write_all-IsLinked c ms (write fails c m n).0,
  )

  announce-IsLinked : (t : Target) (n : NetState) → IsLinked n → IsLinked (announce fails t n)
  unfolding announce
  announce-IsLinked t n h =
      elim (n.conn)
        as (λ o.
          IsLinked (elim o [ none ↦ n | some c ↦ write_all fails c (switch_sequence t) n ])) [
            | none ↦ h
            | some c ↦ write_all-IsLinked c (switch_sequence t) n h
          ]

  forward_input-IsLinked :
      (m : Reliable) (n : NetState) → IsLinked n → IsLinked (forward_input fails m n)
  unfolding forward_input count_sent count_dropped with_app
  forward_input-IsLinked m n h = elim (Option-cases n.conn) [
    | inl e ↦ ground arith
    | inr (c, e) ↦ ground (
      arith,
      write-app c m n,
      drop_connection-IsLinked (ascii "write failed") (write fails c m n).0,
    )
  ]

  link-request : (t : Target) (st : AppState) → (request_target t st).0.link ≡ st.link
  unfolding request_target
  link-request t st = ground arith

  handle_incoming-IsLinked :
      (now : ℕ) (m : Reliable) (n : NetState)
      → IsLinked n
      → IsLinked (handle_incoming fails now m n)
  unfolding handle_incoming with_app is_some
  handle_incoming-IsLinked now (pong t a r d) n h = ground arith
  handle_incoming-IsLinked now (edge_hit e) n h = ground (arith, link-request local_windows n.app)
  handle_incoming-IsLinked now (bye reason) n h = drop_connection-IsLinked _ n
  handle_incoming-IsLinked now (session_start i f) n h = h
  handle_incoming-IsLinked now (ping t) n h = h
  handle_incoming-IsLinked now (target_active b) n h = h
  handle_incoming-IsLinked now (mouse_button b d) n h = h
  handle_incoming-IsLinked now (scroll x y) n h = h
  handle_incoming-IsLinked now (key k d r) n h = h
  handle_incoming-IsLinked now (modifier_sync k) n h = h
  handle_incoming-IsLinked now release_all n h = h
  handle_incoming-IsLinked now (mouse_move_rel x y) n h = h

  handle_message-IsLinked :
      (now : ℕ) (m : NetMsg) (n : NetState) → IsLinked n → IsLinked (handle_message fails now m n).0
  unfolding handle_message with_app is_connected is_some
  handle_message-IsLinked now shutdown n h =
      ground (arith, close-app 1 n, link-set_link disconnected n.app)
  handle_message-IsLinked now (input msg) n h = forward_input-IsLinked msg n h
  handle_message-IsLinked now (log_line level text) n h = ground arith
  handle_message-IsLinked now (target_changed t) n h = announce-IsLinked t n h
  handle_message-IsLinked now (incoming g msg) n h =
      ground (arith, handle_incoming-IsLinked now msg n h)
  handle_message-IsLinked now (link_lost g reason) n h =
      ground (arith, drop_connection-IsLinked reason n)
  handle_message-IsLinked now reconnect n h = close_link-IsLinked 0 _ h
  handle_message-IsLinked now (pair code) n h = close_link-IsLinked 0 _ h
  handle_message-IsLinked now config_changed n h =
      ground (arith, close_link-IsLinked 0 (record n { transport = transport_key n.app.cfg }) h)

  heartbeat-IsLinked :
      (cfg : Config) (now : ℕ) (n : NetState) → IsLinked n → IsLinked (heartbeat fails cfg now n)
  unfolding heartbeat heartbeat_conn is_some
  heartbeat-IsLinked cfg now n h = elim (Option-cases n.conn) [
    | inl e ↦ ground arith
    | inr (c, e) ↦
        let pinged = record n { conn = some (record c { last_ping = now }) } in
        ground (
          arith,
          write-app c (ping now) pinged,
          drop_connection-IsLinked (ascii "heartbeat timeout") n,
          drop_connection-IsLinked (ascii "heartbeat write failed")
              (write fails c (ping now) pinged).0,
        )
  ]

  start_session-IsLinked :
      (now : ℕ) (s : Session) (cfg : Config) (n : NetState)
      → IsLinked (start_session fails now s cfg n)
  unfolding start_session with_app is_connected is_some
  start_session-IsLinked now s cfg n = ap is_connected (link-set_link connected _)

  connect_failed-IsLinked :
      (now : ℕ) (e : ConnectError) (text : List ℕ) (n : NetState)
      → n.conn ≡ none
      → IsLinked (connect_failed now e text n)
  unfolding connect_failed with_app is_connected is_some
  connect_failed-IsLinked now e text n h =
      rw (h, is_some) (ap is_connected (link-set_link disconnected _))

  abbrev trying : ℕ → NetState → NetState
  trying now n = record (with_app (λ st. set_link authenticating (set_link connecting st)) n) {
    manual_request = false;
    generation = (n.generation + 1) % 2 ^ 64;
    pair_code = none;
  }

  reconnect_phase-IsLinked :
      (now : ℕ) (o : Outcome) (n : NetState) → IsLinked n → IsLinked (reconnect_phase fails now o n)
  unfolding reconnect_phase connect_round
  reconnect_phase-IsLinked now (session s) n h = elim (Option-cases n.conn) [
    | inl e ↦
        let trying = trying now n in
        ground (arith, start_session-IsLinked now s n.app.cfg (record trying { attempt = 0 }))
    | inr (c, e) ↦ ground arith
  ]
  reconnect_phase-IsLinked now (failed e text) n h = elim (Option-cases n.conn) [
    | inl e' ↦ ground (arith, connect_failed-IsLinked now e text (trying now n) e')
    | inr (c, e') ↦ ground arith
  ]

  receive-IsLinked :
      (now : ℕ) (r : Received) (n : NetState)
      → r ≢ hung_up
      → IsLinked n
      → IsLinked (receive fails now r n).0
  unfolding receive
  receive-IsLinked now (message m) n here h = handle_message-IsLinked now m n h
  receive-IsLinked now timeout n here h = h
  receive-IsLinked now hung_up n here h = absurd (here refl)

  -- A round of the network thread that receives a message or waits in vain, the handshake, the
  -- message, the failing writes and the heartbeat included: if it finds the link state `Connected`
  -- exactly when there is a connection, it leaves it so.
  pub round-IsLinked :
      (i : Inputs) (n : NetState) → i.received ≢ hung_up → IsLinked n → IsLinked (round fails i n).0
  unfolding round
  round-IsLinked i n here h =
      let ready = reconnect_phase fails i.started i.outcome n in
      let h' =
        receive-IsLinked i.now i.received ready here
          (reconnect_phase-IsLinked i.started i.outcome n h) in
      ground (
        arith,
        h',
        heartbeat-IsLinked ready.app.cfg i.now (receive fails i.now i.received ready).0 h',
      )
