-- ===== src/Realtime/Datagrams.antt =====
-- The datagrams of a run of ticks, and what a tick does while Windows has the input.
use remote_input_bridge.Base.{ℕ, ◌+◌, ◌^◌, ◌<◌, ◌≡◌, arith, List, [], ◌∷◌, Option, none, some}
use remote_input_bridge.Base.{true, All, Option-cases, inl, inr, length, ◌∙◌, subst}
use remote_input_bridge.Wire.Message.{int_at}
use remote_input_bridge.Crypto.{Primitives}
use remote_input_bridge.App.{AppState, local_windows, is_remote}
use remote_input_bridge.Packet.{MouseMovePacket, encode}
use remote_input_bridge.Packet.Layout.{encode_fields}
use remote_input_bridge.Realtime.{RealtimeParams, Loop, tick, send_movement}

-- What a tick finds: the time, what the socket will say, and the state.
pub record Seen : Type 0 where
  pub now : ℕ
  pub outcome : Option ℕ
  pub state : AppState

pub record IsSane (s : Seen) : Type 0 where
  pub now : s.now < 2 ^ 64
  pub total_x : s.state.total_x < 2 ^ 32
  pub total_y : s.state.total_y < 2 ^ 32

unfoldable pub cons? {ℓ} : {A : Type ℓ} → Option A → List A → List A
cons? none xs = xs
cons? (some x) xs = x ∷ xs

module _ (p : Primitives) (params : RealtimeParams) where
  -- The datagrams handed to the socket, oldest first; other threads change the state between ticks.
  unfoldable pub datagrams : Loop → List Seen → List (List ℕ)
  unfolding cons?
  datagrams loop [] = []
  datagrams loop (s ∷ ss) =
      let (loop', _, packet) = tick p params s.now s.outcome loop s.state in
      cons? packet (datagrams loop' ss)

  -- While Windows has the input a tick sends nothing: it drops the wheel, and moves the loop to the
  -- totals, so a later switch does not replay what happened before it.
  tick_local :
      (now : ℕ) (outcome : Option ℕ) (loop : Loop) (st : AppState)
      → st.target ≡ local_windows
      → let (loop', st', packet) = tick p params now outcome loop st in
        (packet ≡ none)
        × (st'.sent ≡ st.sent)
        × (st'.scroll_x ≡ 0)
        × (st'.scroll_y ≡ 0)
        × (loop'.last_x ≡ st.total_x)
        × (loop'.last_y ≡ st.total_y)
        × (loop'.sequence ≡ loop.sequence)
  unfolding tick is_remote
  tick_local now outcome loop st here = (
    ground arith,
    ground arith,
    ground arith,
    ground arith,
    ground arith,
    ground arith,
    ground arith,
  )

  -- The packet of a tick that hands one over.
  abbrev handed : ℕ → Loop → AppState → MouseMovePacket
  handed now loop st = record {
    session_id = params.session_id;
    sequence = loop.sequence + 1;
    timestamp_us = now;
    total_x = st.total_x;
    total_y = st.total_y;
  }

  tick-some :
      (now : ℕ) (outcome : Option ℕ) (loop : Loop) (st : AppState) (packet : List ℕ)
      → loop.sequence + 1 < 2 ^ 64
      → (tick p params now outcome loop st).2 ≡ some packet
      → ((tick p params now outcome loop st).0.sequence ≡ loop.sequence + 1)
        × (packet ≡ encode p params.udp_key (handed now loop st))
  unfolding tick send_movement is_remote
  tick-some now outcome loop st packet h e = (ground arith, ground arith)

  tick-none :
      (now : ℕ) (outcome : Option ℕ) (loop : Loop) (st : AppState)
      → loop.has_socket ≡ true
      → (tick p params now outcome loop st).2 ≡ none
      → (tick p params now outcome loop st).0.sequence ≡ loop.sequence
  unfolding tick send_movement is_remote
  tick-none now outcome loop st h e = ground arith

  tick_socket :
      (now : ℕ) (outcome : Option ℕ) (loop : Loop) (st : AppState)
      → (tick p params now outcome loop st).0.has_socket ≡ loop.has_socket
  unfolding tick send_movement is_remote
  tick_socket now outcome loop st = ground arith

  -- Each carries the next number, at its place in the layout.
  abbrev pub AreNumbered : ℕ → List (List ℕ) → Type 0
  AreNumbered n [] = Unit {0}
  AreNumbered n (packet ∷ packets) = (int_at 8 packet 12 ≡ some n) × AreNumbered (n + 1) packets

  -- The datagrams of a loop with a socket carry consecutive sequence numbers, from the one after the
  -- number of the loop on, whatever the states that its ticks find, the target and the keep-alive
  -- included, as long as the numbers, times and totals fit their fields.
  pub datagrams-AreNumbered :
      (loop : Loop) (seen : List Seen)
      → params.session_id < 2 ^ 64
      → All IsSane seen
      → loop.has_socket ≡ true
      → loop.sequence + length seen < 2 ^ 64
      → AreNumbered (loop.sequence + 1) (datagrams loop seen)
  unfolding datagrams
  datagrams-AreNumbered loop [] session sane h fits = tt
  datagrams-AreNumbered loop (s ∷ ss) session sane h fits =
      let (loop', _, packet) = tick p params s.now s.outcome loop s.state in
      let socket : loop'.has_socket ≡ true = tick_socket s.now s.outcome loop s.state ∙ h in
      elim (Option-cases packet) [
        | inl e ↦
            let same = tick-none s.now s.outcome loop s.state h e in
            rw (e, cons?)
              (subst (λ n. AreNumbered (n + 1) (datagrams loop' ss)) same
                (datagrams-AreNumbered loop' ss session sane.1 socket (omega (arith, same, fits))))
        | inr (x, e) ↦
            let (next, is) = tick-some s.now s.outcome loop s.state x (omega (arith, fits)) e in
            rw (e, cons?)
              (
                number s x (omega (arith, fits)) session sane.0 is,
                subst (λ n. AreNumbered (n + 1) (datagrams loop' ss)) next
                    (datagrams-AreNumbered loop' ss session sane.1 socket
                      (omega (arith, next, fits))),
              )
      ]
    where
      number :
          (s : Seen) (x : List ℕ)
          → loop.sequence + 1 < 2 ^ 64
          → params.session_id < 2 ^ 64
          → IsSane s
          → x ≡ encode p params.udp_key (handed s.now loop s.state)
          → int_at 8 x 12 ≡ some (loop.sequence + 1)
      number s x lt session sane e =
          rw e
            (encode_fields p params.udp_key (handed s.now loop s.state) (record {
              session_id = session;
              sequence = lt;
              timestamp_us = sane.now;
              total_x = sane.total_x;
              total_y = sane.total_y;
            })).3
