-- ===== src/App/Race.antt =====
-- The operations of state.rs are chains of atomic accesses. Here a switch to the Mac on one thread
-- runs against the loss of the link on another, one access at a time.
use remote_input_bridge.Base.{◌≡◌, ◌≢◌, arith, List, [], ◌∷◌, true, false, if◌then◌else◌}
use remote_input_bridge.App.{AppState, local_windows, remote_mac, LinkState, connected}
use remote_input_bridge.App.{disconnected, is_remote, is_connected, set_link, request_target}
use remote_input_bridge.App.{force_local, target_changed, on_target_changed, set_status_error}
use remote_input_bridge.App.{send}
use remote_input_bridge.App.FailSafe.{set_link_local}
use remote_input_bridge.Base.Text.{ascii}

-- Where a thread is in `request_target(RemoteMac)`: before the read of the link, before the swap of
-- the target, before the store of the flag, before the rest.
pub data Requesting : Type 0 where
  read_link swap_target store_flag announce done : Requesting

-- Where a thread is in `set_link(Disconnected)`.
pub data Losing : Type 0 where
  store_link read_target swap_back clear_flag announce_back done : Losing

pub record World : Type 0 where
  pub app : AppState
  pub requesting : Requesting
  pub losing : Losing

request_step : Requesting → AppState → AppState × Requesting
request_step read_link st =
    if is_connected st.link
    then (st, swap_target)
    else (set_status_error (ascii "Cannot switch to Mac: not connected") st, Requesting.done)
request_step swap_target st =
    if is_remote st.target
    then (st, Requesting.done)
    else (record st { target = remote_mac }, store_flag)
request_step store_flag st = (record st { suppress = st.suppress_preference }, announce)
request_step announce st =
    (send (target_changed remote_mac) (on_target_changed remote_mac st), Requesting.done)
request_step Requesting.done st = (st, Requesting.done)

losing_step : Losing → AppState → AppState × Losing
losing_step store_link st = (record st { link = disconnected }, read_target)
losing_step read_target st = if is_remote st.target then (st, swap_back) else (st, Losing.done)
losing_step swap_back st =
    if is_remote st.target
    then (record st { target = local_windows }, clear_flag)
    else (st, Losing.done)
losing_step clear_flag st = (record st { suppress = false }, announce_back)
losing_step announce_back st =
    (send (target_changed local_windows) (on_target_changed local_windows st), Losing.done)
losing_step Losing.done st = (st, Losing.done)

-- Which thread makes the next access.
pub data Turn : Type 0 where
  requester loser : Turn

world_step : Turn → World → World
unfolding request_step losing_step
world_step requester w =
    let (st, pc) = request_step w.requesting w.app in record w { app = st; requesting = pc }
world_step loser w = let (st, pc) = losing_step w.losing w.app in record w { app = st; losing = pc }

unfoldable pub run : List Turn → World → World
unfolding world_step
run [] w = w
run (t ∷ ts) w = run ts (world_step t w)

abbrev pub start : AppState → World
start st = record { app = st; requesting = read_link; losing = store_link }

-- One after the other, the accesses add up to the operations.
abbrev pub request_turns : List Turn
request_turns = requester ∷ requester ∷ requester ∷ requester ∷ []

abbrev pub losing_turns : List Turn
losing_turns = loser ∷ loser ∷ loser ∷ loser ∷ loser ∷ []

-- Run without interruption, the accesses of each thread are the whole operation.
run_alone :
    (st : AppState)
    → ((run request_turns (start st)).app ≡ (request_target remote_mac st).0)
      × ((run request_turns (start st)).requesting ≡ Requesting.done)
      × ((run losing_turns (start st)).app ≡ set_link disconnected st)
      × ((run losing_turns (start st)).losing ≡ Losing.done)
unfolding run request_target set_link
run_alone st = ground arith

-- The target goes to the Mac, the link is lost and clears the flag, and the flag is set after that.
abbrev pub lockout_turns : List Turn
lockout_turns =
    requester ∷ requester ∷ loser ∷ loser ∷ loser ∷ loser ∷ requester ∷ loser ∷ requester ∷ []

-- From every state with a live link and the input on Windows, with suppression preferred, the two
-- threads can end with local input suppressed although the input is on Windows and the link is
-- down. Neither the emergency switch nor a further loss of the link lifts the suppression.
pub race_lockout :
    (st : AppState)
    → st.link ≡ connected
    → st.target ≡ local_windows
    → st.suppress_preference ≡ true
    → let w = run lockout_turns (start st) in
      (w.requesting ≡ Requesting.done)
      × (w.losing ≡ Losing.done)
      × (w.app.target ≡ local_windows)
      × (w.app.link ≡ disconnected)
      × (w.app.suppress ≡ true)
      × ((force_local w.app).0.suppress ≡ true)
      × ((set_link disconnected w.app).suppress ≡ true)
unfolding run force_local set_link
race_lockout st up here prefer = ground arith

-- The link is lost between the check of the link and the swap of the target.
abbrev pub stale_check_turns : List Turn
stale_check_turns = requester ∷ loser ∷ loser ∷ requester ∷ requester ∷ requester ∷ []

-- From every state with a live link and the input on Windows, the two threads can end with the
-- input on the Mac over a link that is down; the next change of the link to anything but
-- connected takes it back.
pub race_stale_check :
    (st : AppState) (l : LinkState)
    → st.link ≡ connected
    → st.target ≡ local_windows
    → l ≢ connected
    → let w = run stale_check_turns (start st) in
      (w.requesting ≡ Requesting.done)
      × (w.losing ≡ Losing.done)
      × (w.app.target ≡ remote_mac)
      × (w.app.link ≡ disconnected)
      × ((set_link l w.app).target ≡ local_windows)
unfolding run is_remote is_connected force_local
race_stale_check st l up here down =
    (ground arith, ground arith, ground arith, ground arith, (set_link_local _ l down).0)
