-- ===== src/Net/Loss.antt =====
-- What the network thread does when the Mac falls silent, when a write fails, and with messages of
-- a connection that is gone.
use remote_input_bridge.Base.{ℕ, ◌+◌, ◌*◌, ◌-◌, ◌<◌, ◌≡◌, refl, arith, List, [], ◌∷◌, ◌++◌}
use remote_input_bridge.Base.{Option, none, some, Bool, true, false, ◌⊎◌, inl, inr, append_assoc}
use remote_input_bridge.Base.{append-nil, Bool-cases, sym, ap, suc, zero, ◌∙◌, subst, length, take}
use remote_input_bridge.Base.{if◌then◌else◌}
use remote_input_bridge.Base.Text.{ascii}
use remote_input_bridge.Wire.Message.{Reliable, bye}
use remote_input_bridge.Wire.Message.Bye
use remote_input_bridge.Config.{Config}
use remote_input_bridge.App.{Target, local_windows, disconnected, incoming, link_lost}
use remote_input_bridge.App.{set_status_error}
use remote_input_bridge.App.FailSafe.{set_link_local}
use remote_input_bridge.Net.{NetState, Connection, with_app, write, close, drop_connection}
use remote_input_bridge.Net.{is_current, write_all, switch_sequence, announce, handle_message}
use remote_input_bridge.Net.{heartbeat, heartbeat_conn, backoff_us}

-- The messages with the generation of their connection.
unfoldable pub tagged : ℕ → List Reliable → List (ℕ × Reliable)
tagged g [] = []
tagged g (m ∷ ms) = (g, m) ∷ tagged g ms

-- The link is gone, and the input is with it on Windows.
pub record IsLost (n : NetState) : Type 0 where
  pub conn : n.conn ≡ none
  pub link : n.app.link ≡ disconnected
  pub target : n.app.target ≡ local_windows

module _ (fails : ℕ → Bool) where
  close-conn : (reason : ℕ) (n : NetState) → (close fails reason n).conn ≡ none
  unfolding close write
  close-conn reason n = ground arith

  pub drop_connection-IsLost :
      (reason : List ℕ) (n : NetState) → IsLost (drop_connection fails reason n)
  unfolding drop_connection with_app
  drop_connection-IsLost reason n =
      let down =
        set_link_local (set_status_error reason (close fails Bye.protocol_error n).app) disconnected
          (λ e. cc) in
      record { conn = close-conn Bye.protocol_error n; link = down.1; target = down.0 }

  -- A Mac that has not answered for longer than the timeout loses the connection at the next
  -- heartbeat, and the input with it; the next attempt is half a second away.
  pub heartbeat_silent :
      (cfg : Config) (now : ℕ) (c : Connection) (n : NetState)
      → n.conn ≡ some c
      → cfg.heartbeat_timeout_ms * 1000 < now - c.last_pong
      → IsLost (heartbeat fails cfg now n)
        × ((heartbeat fails cfg now n).next_attempt ≡ now + 500000)
  unfolding heartbeat heartbeat_conn backoff_us
  heartbeat_silent cfg now c n e silent =
      let lost = drop_connection-IsLost (ascii "heartbeat timeout") n in
      (ground (arith, lost.conn, lost.link, lost.target), ground arith)

  -- A message or a loss that belongs to another connection than the present one changes nothing.
  handle_message_outdated :
      (now generation : ℕ) (msg : Reliable) (reason : List ℕ) (n : NetState)
      → is_current generation n ≡ false
      → (handle_message fails now (incoming generation msg) n ≡ (n, true))
        × (handle_message fails now (link_lost generation reason) n ≡ (n, true))
  unfolding handle_message
  handle_message_outdated now generation msg reason n old = (ground arith, ground arith)

  -- The writes of a list of messages that all succeed.
  pub record AllWritten (c : Connection) (ms : List Reliable) (n after : NetState) : Type 0 where
    pub conn : after.conn ≡ n.conn
    pub app : after.app ≡ n.app
    pub written : after.written ≡ n.written ++ tagged c.generation ms
    pub succeed : (i : ℕ) → i < length ms → fails (n.writes + i) ≡ false

  -- One of the writes fails: those before it succeed and are what is written, but for the farewell, and
  -- the connection is gone.
  pub record Broken (c : Connection) (ms : List Reliable) (n after : NetState) : Type 0 where
    pub index : ℕ
    pub within : index < length ms
    pub succeed : (i : ℕ) → i < index → fails (n.writes + i) ≡ false
    pub breaks : fails (n.writes + index) ≡ true
    pub written :
        after.written
        ≡ (n.written ++ tagged c.generation (take index ms))
          ++ (if fails (n.writes + suc index)
              then []
              else (c.generation, bye Bye.protocol_error) ∷ [])
    pub lost : IsLost after

  drop_connection-written :
      (c : Connection) (reason : List ℕ) (n : NetState)
      → n.conn ≡ some c
      → (drop_connection fails reason n).written
        ≡ n.written ++ (if fails n.writes then [] else (c.generation, bye Bye.protocol_error) ∷ [])
  unfolding drop_connection with_app close write
  drop_connection-written c reason n e = ground (arith, append-nil n.written)

  -- A write that succeeds before the others.
  later-succeed :
      (b k : ℕ)
      → fails b ≡ false
      → ((i : ℕ) → i < k → fails (suc b + i) ≡ false)
      → (i : ℕ) → i < suc k
      → fails (b + i) ≡ false
  later-succeed b k first rest zero h = subst (λ m. fails m ≡ false) (omega arith) first
  later-succeed b k first rest (suc i) h =
      subst (λ m. fails m ≡ false) (omega arith) (rest i (omega arith))

  farewell_at :
      (c : Connection) {ms ms' : List (ℕ × Reliable)} {a b : ℕ}
      → ms ≡ ms'
      → a ≡ b
      → ms ++ (if fails a then [] else (c.generation, bye Bye.protocol_error) ∷ [])
        ≡ ms' ++ (if fails b then [] else (c.generation, bye Bye.protocol_error) ∷ [])
  farewell_at c same e = rw (same, e) refl

  write_all-outcome :
      (c : Connection) (ms : List Reliable) (n : NetState)
      → n.conn ≡ some c
      → AllWritten c ms n (write_all fails c ms n) ⊎ Broken c ms n (write_all fails c ms n)
  unfolding write_all write tagged
  write_all-outcome c [] n here = inl (record {
    conn = refl;
    app = refl;
    written = sym (append-nil n.written);
    succeed = λ i h. absurd (omega (arith, h));
  })
  write_all-outcome c (m ∷ ms) n here = elim (Bool-cases (fails n.writes)) [
    | inl bad ↦
        let tried : NetState = record n { writes = suc n.writes } in
        inr (
          rw bad record {
            index = 0;
            within = omega arith;
            succeed = λ i h. absurd (omega (arith, h));
            breaks = subst (λ i. fails i ≡ true) (omega arith) bad;
            written =
                drop_connection-written c (ascii "write failed") tried here
                ∙ farewell_at c (sym (append-nil n.written)) (omega arith);
            lost = drop_connection-IsLost _ tried;
          })
    | inr good ↦
        let done : NetState = record n {
          writes = suc n.writes;
          written = n.written ++ (c.generation, m) ∷ [];
        } in
        rw good (elim (write_all-outcome c ms done here) [
          | inl all ↦ inl (record {
            conn = all.conn;
            app = all.app;
            written =
                all.written
                ∙ append_assoc n.written ((c.generation, m) ∷ []) (tagged c.generation ms);
            succeed = later-succeed n.writes (length ms) good all.succeed;
          })
          | inr broken ↦ inr (record {
            index = suc broken.index;
            within = omega (arith, broken.within);
            succeed = later-succeed n.writes broken.index good broken.succeed;
            breaks = subst (λ i. fails i ≡ true) (omega arith) broken.breaks;
            written =
                broken.written
                ∙ farewell_at c
                    (append_assoc n.written ((c.generation, m) ∷ [])
                      (tagged c.generation (take broken.index ms)))
                    (omega arith);
            lost = broken.lost;
          })
        ])
  ]

  announce-some :
      (c : Connection) (t : Target) (n : NetState)
      → n.conn ≡ some c
      → announce fails t n ≡ write_all fails c (switch_sequence t) n
  unfolding announce
  announce-some c t n e =
      ap
        (λ (o : Option Connection). elim o [
          | none ↦ n
          | some c ↦ write_all fails c (switch_sequence t) n
        ])
        e

  pub announce-outcome :
      (c : Connection) (t : Target) (n : NetState)
      → n.conn ≡ some c
      → AllWritten c (switch_sequence t) n (announce fails t n)
        ⊎ Broken c (switch_sequence t) n (announce fails t n)
  announce-outcome c t n e =
      rw (announce-some c t n e) (write_all-outcome c (switch_sequence t) n e)
