-- ===== src/App/FailSafe.antt =====
-- The fail-safe of state.rs (`set_link`), and the operations of the state together.
use remote_input_bridge.Base.{◌≡◌, ◌≢◌, arith, List, [], ◌∷◌, ◌++◌, Bool, true, false}
use remote_input_bridge.Base.{if◌then◌else◌}
use remote_input_bridge.Config.{Config}
use remote_input_bridge.Tracker.{mark_all_stale}
use remote_input_bridge.App.{AppState, Target, local_windows, remote_mac, LinkState, connected}
use remote_input_bridge.App.{
  is_remote, init_state, set_config, set_link, request_target, force_local,
}
use remote_input_bridge.App.{target_changed}

-- The three facts that keep the user's input from being lost.
pub record IsSafe (st : AppState) : Type 0 where
  pub linked : st.target ≡ remote_mac → st.link ≡ connected
  pub suppressed : st.suppress ≡ true → st.target ≡ remote_mac
  pub clipped : st.clip_active ≡ true → st.target ≡ remote_mac

-- The operations of state.rs that the window and the network thread call, and the store of the flag by
-- which a save of the settings changes the suppression (ui/window.rs, `save_settings`).
pub data Op : Type 0 where
  configure : Config → Op
  link : LinkState → Op
  request : Target → Op
  force : Op
  save_suppress : (suppress : Bool) → Op

unfoldable pub perform : Op → AppState → AppState
perform (configure cfg) st = set_config cfg st
perform (link l) st = set_link l st
perform (request t) st = (request_target t st).0
perform force st = (force_local st).0
perform (save_suppress b) st = if is_remote st.target then record st { suppress = b } else st

unfoldable pub perform_all : List Op → AppState → AppState
perform_all [] st = st
perform_all (o ∷ os) st = perform_all os (perform o st)

pub init_state-IsSafe : (cfg : Config) → IsSafe (init_state cfg)
unfolding init_state
init_state-IsSafe cfg = ground arith

pub perform-IsSafe : (o : Op) (st : AppState) → IsSafe st → IsSafe (perform o st)
unfolding perform set_config set_link request_target force_local is_remote
perform-IsSafe (configure cfg) st s = ground (arith, s.linked, s.suppressed, s.clipped)
perform-IsSafe (link l) st s = ground (arith, s.linked, s.suppressed, s.clipped)
perform-IsSafe (request t) st s = ground (arith, s.linked, s.suppressed, s.clipped)
perform-IsSafe force st s = ground (arith, s.linked, s.suppressed, s.clipped)
perform-IsSafe (save_suppress b) st s = ground (arith, s.linked, s.suppressed, s.clipped)

perform_all-IsSafe : (os : List Op) (st : AppState) → IsSafe st → IsSafe (perform_all os st)
unfolding perform_all
perform_all-IsSafe [] st s = s
perform_all-IsSafe (o ∷ os) st s = perform_all-IsSafe os (perform o st) (perform-IsSafe o st s)

-- After any sequence of whole calls of `set_config`, `set_link`, `request_target` and `force_local` and
-- of the suppression's store in a save of the settings, from the start, the input is on the Mac only
-- over a live link, and local input is suppressed and the cursor is pinned only while the input is on
-- the Mac.
pub init-IsSafe : (cfg : Config) (os : List Op) → IsSafe (perform_all os (init_state cfg))
init-IsSafe cfg os = perform_all-IsSafe os (init_state cfg) (init_state-IsSafe cfg)

-- Whatever the target was, it is on Windows after the link went to anything but connected.
pub set_link_local :
    (st : AppState) (l : LinkState)
    → l ≢ connected
    → ((set_link l st).target ≡ local_windows) × ((set_link l st).link ≡ l)
unfolding set_link
set_link_local st l down = (ground arith, ground arith)

-- From every state with the input on the Mac, safe or not, a link that goes to anything but connected
-- puts the target on Windows, gives local input back, frees the cursor, makes all the keys and
-- buttons that are down stale, and sends the switch to the network thread.
set_link_down :
    (st : AppState) (l : LinkState)
    → l ≢ connected
    → st.target ≡ remote_mac
    → ((set_link l st).target ≡ local_windows)
      × ((set_link l st).link ≡ l)
      × ((set_link l st).suppress ≡ false)
      × ((set_link l st).clip_active ≡ false)
      × ((set_link l st).tracker ≡ mark_all_stale st.tracker)
      × ((set_link l st).sent ≡ st.sent ++ target_changed local_windows ∷ [])
unfolding set_link
set_link_down st l down remote =
    (ground arith, ground arith, ground arith, ground arith, ground arith, ground arith)
