-- ===== src/Tests/Shells.antt =====
-- The tray, the parts of a URL and a frame at concrete inputs.
use remote_input_bridge.Base.{ℕ, ◌≡◌, ◌≤◌, ◌<◌, refl, List, [], ◌∷◌, ◌++◌, some, Bool, true}
use remote_input_bridge.Base.{false, not, ◌&&◌, ◌||◌, All, length, arith}
use remote_input_bridge.Base.Text.{ascii}
use remote_input_bridge.Wire.Bytes.{IsByte}
use remote_input_bridge.Wire.Message.{pong}
use remote_input_bridge.Config
use remote_input_bridge.Frame.{ok, encode_frame}
use remote_input_bridge.Frame.Bytes.{encode_frame-IsByte}
use remote_input_bridge.App.{AppState, init_state, connected, remote_mac, request_target}
use remote_input_bridge.App.{force_local}
use remote_input_bridge.Update.Install.{available}
use remote_input_bridge.Update.Url.{split}
use remote_input_bridge.Update.Url.Spelled.{IsPlain, FitsPort, spell, port_or, path_or}
use remote_input_bridge.Update.Url.Spelled.{split-spell}
use remote_input_bridge.Window.Commands.{switch_to_mac, switch_to_windows}
use remote_input_bridge.Tray
use remote_input_bridge.Tray.{Tray, Event, ticks, broadcast, closes, shell_turns}
use remote_input_bridge.Tray.Shown.{IsShell, Loses, run-IsShown}
use remote_input_bridge.Tray.Menu.{menu}
use remote_input_bridge.Tray.Menu.Choices.{chosen, offered_if, others, menu-chosen}
use remote_input_bridge.Tests.Toy.{toy, toy_key}

-- A shell as a pair: whether there is a task bar, and whether the icon is on it.
abbrev Shell : Type 0
Shell = Bool × Bool

nim_add : Shell → Bool × Shell
nim_add (bar, icon) = (bar && not icon, (bar, icon || bar))

nim_modify : Shell → Bool × Shell
nim_modify (bar, icon) = (icon, (bar, icon))

nim_delete : Shell → Shell
nim_delete (bar, icon) = (bar, false)

up : Shell → Bool
up s = s.0

icon : Shell → Bool
icon s = s.1

nim_add-IsShell : IsShell nim_add nim_modify nim_delete up icon
unfolding nim_add nim_modify nim_delete up icon
nim_add-IsShell = record {
  adds = λ s. refl;
  added = λ s. ground arith;
  modifies = λ s. refl;
  modified = λ s. refl;
  deleted = λ s. refl;
  add-up = λ s. refl;
  modify-up = λ s. refl;
}

-- No task bar at first; then one appears and is announced, the timer comes round, and the task bar is
-- replaced by one that nobody announces.
abbrev turns : List (Event Shell)
turns =
    ticks
    ∷ shell_turns (λ s. (true, false))
    ∷ broadcast
    ∷ ticks
    ∷ shell_turns (λ s. (true, false))
    ∷ []

run-IsShown_example :
    let t =
      Tray.run nim_add nim_modify nim_delete turns
        (record { present = false; shell = (false, false) }) in
    let u = Tray.run nim_add nim_modify nim_delete (ticks ∷ ticks ∷ []) t in
    (u.present ≡ true) × (icon u.shell ≡ true)
unfolding Loses icon up nim_add nim_modify nim_delete Tray.run
run-IsShown_example =
    run-IsShown nim_add nim_modify nim_delete up icon nim_add-IsShell turns (false, false)
      (tt, ((λ s e. cc), (tt, (tt, ((λ s e. cc), tt))))) refl refl

abbrev driving : AppState
driving = record (init_state (Config.default (ascii "PC"))) {
  target = remote_mac;
  link = connected;
}

menu-chosen_example :
    chosen (menu driving (available (ascii "0.4.0")))
    ≡ offered_if (request_target remote_mac driving).1 switch_to_mac
      ++ (offered_if (force_local driving).1 switch_to_windows ++ others)
menu-chosen_example = menu-chosen driving (available (ascii "0.4.0"))

letter-IsPlain : (c : ℕ) → b':' < c → IsPlain c
unfolding IsPlain
letter-IsPlain c h = ((λ e. absurd (omega (arith, h, e))), (λ e. absurd (omega (arith, h, e))))

hub-IsPlain : All IsPlain (ascii "hub")
hub-IsPlain = (
  letter-IsPlain b'h' (omega arith),
  (letter-IsPlain b'u' (omega arith), (letter-IsPlain b'b' (omega arith), tt)),
)

split-spell_example :
    split (spell true (ascii "hub") (some 8443) (some (ascii "latest.json")))
    ≡ ok (record {
      host = ascii "hub";
      path = path_or (some (ascii "latest.json"));
      port = port_or true (some 8443);
      secure = true;
    })
unfolding FitsPort
split-spell_example =
    split-spell true (ascii "hub") (some 8443) (some (ascii "latest.json")) (omega arith)
      hub-IsPlain (omega arith)

encode_frame-IsByte_example :
    All IsByte (encode_frame toy toy_key 7 (pong 1000 5 6 0))
    × (29 ≤ length (encode_frame toy toy_key 7 (pong 1000 5 6 0)))
    × (length (encode_frame toy toy_key 7 (pong 1000 5 6 0)) ≤ 53)
encode_frame-IsByte_example =
    encode_frame-IsByte toy toy_key 7 (pong 1000 5 6 0)
      (omega arith, omega arith, omega arith, omega arith)
