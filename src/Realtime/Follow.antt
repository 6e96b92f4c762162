-- ===== src/Realtime/Follow.antt =====
-- Without a socket movement goes over the reliable channel as deltas: what the Mac adds up.
use remote_input_bridge.Base.{ℕ, ◌+◌, ◌%◌, ◌^◌, ◌<◌, ◌≡◌, refl, arith, List, [], ◌∷◌, ◌++◌}
use remote_input_bridge.Base.{Option, false, ◌∙◌}
use remote_input_bridge.Wire.Message.{mouse_move_rel, scroll}
use remote_input_bridge.Crypto.{Primitives}
use remote_input_bridge.RawInput.{add_motion}
use remote_input_bridge.App.{AppState, NetMsg, input, send, remote_mac}
use remote_input_bridge.Input.{handle_scroll}
use remote_input_bridge.Realtime.{RealtimeParams, Loop, tick, send_movement, send_scroll}
use remote_input_bridge.Realtime.{send_delta, wrapping_sub}

-- A receiver that adds the deltas to a position, 32 bits wide.
unfoldable pub add_move : ℕ × ℕ → NetMsg → ℕ × ℕ
add_move (x, y) (input (mouse_move_rel dx dy)) = ((x + dx) % 2 ^ 32, (y + dy) % 2 ^ 32)
add_move at _ = at

unfoldable pub total : (ℕ × ℕ → NetMsg → ℕ × ℕ) → ℕ × ℕ → List NetMsg → ℕ × ℕ
total f at [] = at
total f at (m ∷ ms) = total f (f at m) ms

total-append :
    (f : ℕ × ℕ → NetMsg → ℕ × ℕ) (at : ℕ × ℕ) (ms : List NetMsg) (m : NetMsg)
    → total f at (ms ++ m ∷ []) ≡ f (total f at ms) m
unfolding total
total-append f at [] m = refl
total-append f at (x ∷ ms) m = total-append f (f at x) ms m

-- The mouse moves, the wheel turns, or the timer ticks.
pub data Moment : Type 0 where
  move : (dx dy : ℕ) → Moment
  wheel : (units_x units_y : ℕ) → Moment
  timer : (now : ℕ) (outcome : Option ℕ) → Moment

module _ (p : Primitives) (params : RealtimeParams) where
  unfoldable pub step : Moment → Loop × AppState → Loop × AppState
  step (move dx dy) (loop, st) = (loop, add_motion dx dy st)
  step (wheel x y) (loop, st) = (loop, handle_scroll x y st)
  step (timer now outcome) (loop, st) =
      let (loop', st', _) = tick p params now outcome loop st in (loop', st')

  unfoldable pub steps : List Moment → Loop × AppState → Loop × AppState
  steps [] w = w
  steps (e ∷ es) w = steps es (step e w)

  -- Over TCP, with the input on the Mac: what the Mac has added up from the start position `at` is
  -- the total that the loop last read.
  pub record IsFollowing (at : ℕ × ℕ) (w : Loop × AppState) : Type 0 where
    pub over_tcp : w.0.has_socket ≡ false
    pub remote : w.1.target ≡ remote_mac
    pub x : (total add_move at w.1.sent).0 ≡ w.0.last_x
    pub y : (total add_move at w.1.sent).1 ≡ w.0.last_y
    pub x-lt : w.1.total_x < 2 ^ 32
    pub y-lt : w.1.total_y < 2 ^ 32
    pub last_x-lt : w.0.last_x < 2 ^ 32
    pub last_y-lt : w.0.last_y < 2 ^ 32

  wrapping_add-sub : (a b : ℕ) → a < 2 ^ 32 → b < 2 ^ 32 → (b + wrapping_sub a b) % 2 ^ 32 ≡ a
  unfolding wrapping_sub
  wrapping_add-sub a b h k = omega arith

  send_scroll-total :
      (at : ℕ × ℕ) (st : AppState)
      → total add_move at (send_scroll st).sent ≡ total add_move at st.sent
  unfolding send_scroll send add_move
  send_scroll-total at st =
      ground (arith, total-append add_move at st.sent (input (scroll st.scroll_x st.scroll_y)))

  send_delta-total :
      (at : ℕ × ℕ) (dx dy : ℕ) (st : AppState)
      → (total add_move at st.sent).0 < 2 ^ 32
      → (total add_move at st.sent).1 < 2 ^ 32
      → ((total add_move at (send_delta dx dy st).sent).0
          ≡ ((total add_move at st.sent).0 + dx) % 2 ^ 32)
        × ((total add_move at (send_delta dx dy st).sent).1
            ≡ ((total add_move at st.sent).1 + dy) % 2 ^ 32)
  unfolding send_delta send add_move
  send_delta-total at dx dy st h k = (
    ground (arith, total-append add_move at st.sent (input (mouse_move_rel dx dy))),
    ground (arith, total-append add_move at st.sent (input (mouse_move_rel dx dy))),
  )

  send_delta-state :
      (dx dy : ℕ) (st : AppState)
      → ((send_delta dx dy st).target ≡ st.target)
        × ((send_delta dx dy st).total_x ≡ st.total_x)
        × ((send_delta dx dy st).total_y ≡ st.total_y)
  unfolding send_delta send
  send_delta-state dx dy st = (ground arith, ground arith, ground arith)

  send_scroll-state :
      (st : AppState)
      → ((send_scroll st).target ≡ st.target)
        × ((send_scroll st).total_x ≡ st.total_x)
        × ((send_scroll st).total_y ≡ st.total_y)
  unfolding send_scroll send
  send_scroll-state st = (ground arith, ground arith, ground arith)

  movement-IsFollowing :
      (at : ℕ × ℕ) (now : ℕ) (outcome : Option ℕ) (loop : Loop) (st : AppState)
      → IsFollowing at (loop, st)
      → let (loop', st', _) = send_movement p params now outcome loop st in
        IsFollowing at (loop', st') × (loop'.last_x ≡ st.total_x) × (loop'.last_y ≡ st.total_y)
  unfolding send_movement
  movement-IsFollowing at now outcome loop st f =
      let dx = wrapping_sub st.total_x loop.last_x in
      let dy = wrapping_sub st.total_y loop.last_y in
      ground (
        arith,
        f.over_tcp,
        f.remote,
        f.x,
        f.y,
        f.x-lt,
        f.y-lt,
        f.last_x-lt,
        f.last_y-lt,
        send_delta-total at dx dy st,
        send_delta-state dx dy st,
        wrapping_add-sub st.total_x loop.last_x f.x-lt f.last_x-lt,
        wrapping_add-sub st.total_y loop.last_y f.y-lt f.last_y-lt,
      )

  tick-IsFollowing :
      (at : ℕ × ℕ) (now : ℕ) (outcome : Option ℕ) (loop : Loop) (st : AppState)
      → IsFollowing at (loop, st)
      → let w = step (timer now outcome) (loop, st) in
        IsFollowing at w × (w.0.last_x ≡ w.1.total_x) × (w.0.last_y ≡ w.1.total_y)
  unfolding step tick
  tick-IsFollowing at now outcome loop st f =
      let (loop', st', _) = send_movement p params now outcome loop st in
      let (g, ex, ey) = movement-IsFollowing at now outcome loop st f in
      ground (
        arith,
        f.remote,
        g.over_tcp,
        g.remote,
        g.x,
        g.y,
        g.x-lt,
        g.y-lt,
        g.last_x-lt,
        g.last_y-lt,
        ex,
        ey,
        send_scroll-total at st',
        send_scroll-state st',
      )

  step-IsFollowing :
      (at : ℕ × ℕ) (e : Moment) (w : Loop × AppState) → IsFollowing at w → IsFollowing at (step e w)
  unfolding step add_motion handle_scroll
  step-IsFollowing at (move dx dy) w f =
      ground (arith, f.over_tcp, f.remote, f.x, f.y, f.x-lt, f.y-lt, f.last_x-lt, f.last_y-lt)
  step-IsFollowing at (wheel x y) w f =
      ground (arith, f.over_tcp, f.remote, f.x, f.y, f.x-lt, f.y-lt, f.last_x-lt, f.last_y-lt)
  step-IsFollowing at (timer now outcome) w f = (tick-IsFollowing at now outcome w.0 w.1 f).0

  steps-IsFollowing :
      (at : ℕ × ℕ) (es : List Moment) (w : Loop × AppState)
      → IsFollowing at w
      → IsFollowing at (steps es w)
  unfolding steps
  steps-IsFollowing at [] w f = f
  steps-IsFollowing at (e ∷ es) w f = steps-IsFollowing at es (step e w) (step-IsFollowing at e w f)

  -- Without a socket, with the input on the Mac, and from a state in which a receiver that adds up
  -- the deltas stands where the loop last read the totals, which are in 32 bits: after any moves,
  -- wheel turns and ticks, each tick leaves the receiver exactly at the total of the moves, although
  -- both wrap at 32 bits.
  pub deltas_follow :
      (at : ℕ × ℕ) (es : List Moment) (now : ℕ) (outcome : Option ℕ) (w : Loop × AppState)
      → IsFollowing at w
      → let w' = step (timer now outcome) (steps es w) in
        ((total add_move at w'.1.sent).0 ≡ w'.1.total_x)
        × ((total add_move at w'.1.sent).1 ≡ w'.1.total_y)
  deltas_follow at es now outcome w f =
      let (g, ex, ey) =
        tick-IsFollowing at now outcome (steps es w).0 (steps es w).1
          (steps-IsFollowing at es w f) in
      (g.x ∙ ex, g.y ∙ ey)
