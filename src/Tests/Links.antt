-- ===== src/Tests/Links.antt =====
-- The shared state, the handlers of input, the realtime ticks and the network thread at concrete
-- inputs.
use remote_input_bridge.Base.{ℕ, ◌-◌, ◌^◌, ◌≡◌, refl, List, [], ◌∷◌, arith, ◌⊎◌}
use remote_input_bridge.Base.{none, some, Bool, true, false, leb}
use remote_input_bridge.Base.Text.{ascii}
use remote_input_bridge.Wire.Message.{key}
use remote_input_bridge.Keymap.{letter_vk, modifier_bit, hid_to_vk, find_entry, hid_entries}
use remote_input_bridge.Config.{default}
use remote_input_bridge.Tracker.{new, switch_to_mac, match_vk, hit}
use remote_input_bridge.Tracker.{from_config}
use remote_input_bridge.Hotkey.{parse_hotkey, mods_match, same_group, has_group}
use remote_input_bridge.App.{AppState, Target, local_windows, remote_mac, LinkState, connected}
use remote_input_bridge.App.{disconnected, connecting, input, target_changed, init_state}
use remote_input_bridge.App.{set_link, is_remote, is_connected}
use remote_input_bridge.App
use remote_input_bridge.App.FailSafe.{
  IsSafe, link, request, save_suppress, perform_all, init-IsSafe,
}
use remote_input_bridge.App.Race.{World, requester, loser, start, lockout_turns}
use remote_input_bridge.App.Race.{stale_check_turns, race_lockout, race_stale_check}
use remote_input_bridge.App.Race
use remote_input_bridge.Input.{is_duplicate}
use remote_input_bridge.Input.Mirror.{fold, key_after, Happening, key_at, button, op, happen_all}
use remote_input_bridge.Input.Mirror.{mac_holds, IsUnnamed, IsMirrored, IsButtonMirrored}
use remote_input_bridge.Input.Mirror.Holds.{init-IsMirrored, init-IsButtonMirrored}
use remote_input_bridge.Input.Mirror.Holds.{retriggered_key_sticks}
use remote_input_bridge.Realtime.{RealtimeParams, Loop}
use remote_input_bridge.Realtime.Follow.{Moment, move, timer, step, steps, total, add_move}
use remote_input_bridge.Realtime.Follow.{deltas_follow}
use remote_input_bridge.Realtime.Datagrams.{Seen, AreNumbered, datagrams, datagrams-AreNumbered}
use remote_input_bridge.Net.{timeout}
use remote_input_bridge.Net.{message, Inputs, failed, io, announce, switch_sequence}
use remote_input_bridge.Net.Linked.{is_some, IsLinked}
use remote_input_bridge.Net.Turns.{Turn, rounds, others, IsRegular, run-IsLinked}
use remote_input_bridge.Net.Turns
use remote_input_bridge.Net.Loss.{AllWritten, Broken, announce-outcome}
use remote_input_bridge.Tests.Toy.{toy, toy_key, config, linked, driving, connection, online}

init-IsSafe_example : IsSafe (
    perform_all
      (link connected ∷ request remote_mac ∷ save_suppress false ∷ link disconnected ∷ [])
      (init_state config))
init-IsSafe_example =
    init-IsSafe config
      (link connected ∷ request remote_mac ∷ save_suppress false ∷ link disconnected ∷ [])

here : linked.target ≡ local_windows
unfolding init_state default
here = refl

prefers : linked.suppress_preference ≡ true
unfolding init_state default
prefers = refl

race_lockout_example :
    let w = Race.run lockout_turns (start linked) in
    (w.requesting ≡ Race.Requesting.done)
    × (w.losing ≡ Race.Losing.done)
    × (w.app.target ≡ local_windows)
    × (w.app.link ≡ disconnected)
    × (w.app.suppress ≡ true)
    × ((App.force_local w.app).0.suppress ≡ true)
    × ((set_link disconnected w.app).suppress ≡ true)
race_lockout_example = race_lockout linked refl here prefers

fresh : is_duplicate 1000000 switch_to_mac linked ≡ false
unfolding is_duplicate init_state default
fresh = refl

-- The link comes up, the input goes to the Mac, and a key and a button are pressed.
abbrev session : List Happening
session = op (link connected) ∷ op (request remote_mac) ∷ key_at 1000 0x04 true ∷ button 0 true ∷ []

a-IsUnnamed : IsUnnamed 0x04 (from_config config)
unfolding from_config match_vk hit hid_to_vk parse_hotkey default letter_vk
a-IsUnnamed mods = refl

init-IsMirrored_example : IsMirrored 0x04 (happen_all session (init_state config))
init-IsMirrored_example = init-IsMirrored config 0x04 session (omega arith) a-IsUnnamed

init-IsButtonMirrored_example : IsButtonMirrored 0 (happen_all session (init_state config))
init-IsButtonMirrored_example = init-IsButtonMirrored config 0 session (omega arith)

abbrev retriggering : AppState
retriggering = record driving {
  sent = input (key 0x50 true false) ∷ [];
  hotkeys = record {
    to_mac = some (record { mods = 0; vk = 0x25 });
    to_windows = none;
    emergency = none;
  };
}

retriggered_key_sticks_example :
    let st' = happen_all (key_at 1000 0x50 true ∷ key_at 2000 0x50 false ∷ []) retriggering in
    (st'.target ≡ remote_mac) × (st'.tracker.keys_down 0x50 ≡ false) × (mac_holds 0x50 st' ≡ true)
unfolding modifier_bit hid_to_vk find_entry hid_entries match_vk init_state default mac_holds hit
    mods_match same_group has_group new fold key_after
retriggered_key_sticks_example =
    retriggered_key_sticks 0x50 1000 2000 retriggering refl (omega arith) refl
      (λ e. omega (arith, e)) refl refl

abbrev params : RealtimeParams
params = record {
  session_id = 9;
  udp_key = toy_key;
  use_udp = true;
  keepalive_stream = true;
  keepalive_interval_us = 10000;
}

abbrev tcp_loop : Loop
tcp_loop = record { has_socket = false; sequence = 0; last_x = 0; last_y = 0; last_sent_us = 0 }

abbrev udp_loop : Loop
udp_loop = record { has_socket = true; sequence = 0; last_x = 0; last_y = 0; last_sent_us = 0 }

-- One count to the right, then two to the left: the total wraps.
abbrev moves : List Moment
moves = move 1 0 ∷ timer 2000 none ∷ move (2 ^ 32 - 2) 7 ∷ []

deltas_follow_example :
    let w' = step toy params (timer 4000 none) (steps toy params moves (tcp_loop, driving)) in
    ((total add_move (0, 0) w'.1.sent).0 ≡ w'.1.total_x)
    × ((total add_move (0, 0) w'.1.sent).1 ≡ w'.1.total_y)
unfolding init_state default total
deltas_follow_example =
    deltas_follow toy params (0, 0) moves 4000 none (tcp_loop, driving)
      (record {
        over_tcp = refl;
        remote = refl;
        x = refl;
        y = refl;
        x-lt = omega arith;
        y-lt = omega arith;
        last_x-lt = omega arith;
        last_y-lt = omega arith;
      })

abbrev seen : List Seen
seen =
    record { now = 20000; outcome = some 44; state = driving }
    ∷ record { now = 20500; outcome = none; state = record driving { total_x = 5 } }
    ∷ []

datagrams-AreNumbered_example : AreNumbered toy params 1 (datagrams toy params udp_loop seen)
unfolding init_state default
datagrams-AreNumbered_example =
    datagrams-AreNumbered toy params udp_loop seen (omega arith)
      (
        record { now = omega arith; total_x = omega arith; total_y = omega arith },
        (record { now = omega arith; total_x = omega arith; total_y = omega arith }, tt),
      )
      refl (omega arith)

-- The third write fails.
abbrev fails : ℕ → Bool
fails n = leb 2 n

abbrev inputs : Inputs
inputs = record {
  started = 0;
  outcome = failed io (ascii "refused");
  received = message (target_changed remote_mac);
  now = 5000000;
}

-- A round in which the connection fails, the emergency switch meanwhile, and a round that finds nothing.
abbrev turns : List Turn
turns =
    rounds inputs
    ∷ others (λ st. (App.force_local st).0)
    ∷ rounds (record inputs { received = timeout })
    ∷ []

link-force_local : (st : AppState) → (App.force_local st).0.link ≡ st.link
unfolding App.force_local App.apply_target
link-force_local st = ground arith

run-IsLinked_example : IsLinked (Turns.run fails turns (Turns.start 0 (init_state config)))
unfolding IsRegular is_connected is_some
run-IsLinked_example =
    run-IsLinked fails config 0 turns ((λ e. cc), (link-force_local, ((λ e. cc), tt)))

announce-outcome_example :
    AllWritten fails connection
      (switch_sequence remote_mac)
      online
      (announce fails remote_mac online)
    ⊎ Broken fails connection (switch_sequence remote_mac) online (announce fails remote_mac online)
announce-outcome_example = announce-outcome fails connection remote_mac online refl
