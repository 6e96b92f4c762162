-- ===== src/Net/Turns.antt =====
-- net/mod.rs, `run`: the network thread from its start, its rounds between what other threads do.
use remote_input_bridge.Base.{ℕ, ◌≡◌, ◌≢◌, refl, ◌∙◌, ap, List, [], ◌∷◌, none, Bool, false}
use remote_input_bridge.Base.{if◌then◌else◌, if-either, All}
use remote_input_bridge.Config.{Config, transport_key}
use remote_input_bridge.App.{AppState, is_connected, init_state}
use remote_input_bridge.Net.{NetState, Inputs, hung_up, with_app, round}
use remote_input_bridge.Net.Linked.{is_some, IsLinked, round-IsLinked}

-- The variables of `run` before the loop.
unfoldable pub start : ℕ → AppState → NetState
start now st = record {
  app = st;
  conn = none;
  generation = 0;
  attempt = 0;
  next_attempt = now;
  pair_code = none;
  manual_request = false;
  transport = transport_key st.cfg;
  connected_once = false;
  written = [];
  writes = 0;
}

-- A round of the loop, or a change of the shared state by another thread.
pub data Turn : Type 0 where
  rounds : Inputs → Turn
  others : (AppState → AppState) → Turn

-- Other threads leave the link state to the network thread, whose channel stays open.
unfoldable pub IsRegular : Turn → Type 0
IsRegular (rounds i) = i.received ≢ hung_up
IsRegular (others f) = (st : AppState) → (f st).link ≡ st.link

module _ (fails : ℕ → Bool) where
  -- The loop, until a round ends it.
  unfoldable pub run : List Turn → NetState → NetState
  unfolding with_app round
  run [] n = n
  run (rounds i ∷ rest) n =
      let (after, running) = round fails i n in
      let later = run rest after in if running then later else after
  run (others f ∷ rest) n = run rest (with_app f n)

  turns-IsLinked :
      (ts : List Turn) (n : NetState) → All IsRegular ts → IsLinked n → IsLinked (run ts n)
  unfolding run IsRegular with_app
  turns-IsLinked [] n regular h = h
  turns-IsLinked (rounds i ∷ rest) n regular h =
      let h' = round-IsLinked fails i n regular.0 h in
      if-either IsLinked (round fails i n).1 _ _ (λ on. turns-IsLinked rest _ regular.1 h')
        (λ off. h')
  turns-IsLinked (others f ∷ rest) n regular h =
      turns-IsLinked rest (with_app f n) regular.1 (ap is_connected (regular.0 n.app) ∙ h)

  -- From the start of the network thread, after any rounds, with messages, handshakes and writes that
  -- succeed or fail, and any changes of the shared state by other threads that leave the link state
  -- alone, the link state is `Connected` exactly when the thread holds a connection.
  pub run-IsLinked :
      (cfg : Config) (now : ℕ) (ts : List Turn)
      → All IsRegular ts
      → IsLinked (run ts (start now (init_state cfg)))
  run-IsLinked cfg now ts regular =
      turns-IsLinked ts (start now (init_state cfg)) regular
        (unfold start init_state is_connected is_some in refl)
