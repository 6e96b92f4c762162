-- ===== src/Startup/Exit.antt =====
-- main.rs: how the process starts and ends.
use remote_input_bridge.Base.{ℕ, ◌≡◌, ◌≢◌, refl, subst, sym, List, [], ◌∷◌, ◌++◌, Option, none}
use remote_input_bridge.Base.{some, Bool, false, arith, if-either}
use remote_input_bridge.Frame.{Result, ok, err}
use remote_input_bridge.Config.{Config}
use remote_input_bridge.App.{AppState, NetMsg, pair, local_windows, shutdown, init_state, send}
use remote_input_bridge.App.{force_local}
use remote_input_bridge.App.FailSafe.{IsSafe, init_state-IsSafe}
use remote_input_bridge.Window.Save.{adopt}
use remote_input_bridge.Input.Safe.{happen-IsSafe}
use remote_input_bridge.Hooks.{HookState, install, uninstall, apply_mouse_hook}
use remote_input_bridge.Startup.{Text, Args, parse_args, build_config}
use remote_input_bridge.Startup.Merged.{build_config-IsSane}
use remote_input_bridge.Startup.Main.{
  World, Turn, happens, sends, hooks_mouse, saves, take_turn, take_turns,
}
use remote_input_bridge.Startup.Main.{Ending, ran, panicked, no_hooks, with_pairing, run}
use remote_input_bridge.Startup.Main.{shut_down, start, configured, after_parsing, main}
use remote_input_bridge.Startup.Main.{claim_single_instance}

-- Local input as the user needs it after the program is gone: the target is Windows, nothing is
-- suppressed, the cursor is free, no hook is left, and the last word to the network thread is to stop.
pub record IsReleased (h : HookState) : Type 0 where
  pub local : h.app.target ≡ local_windows
  pub heard : h.app.suppress ≡ false
  pub free : h.app.clip_active ≡ false
  pub unhooked : (h.keyboard_hook ≡ false) × (h.mouse_hook ≡ false) × (h.hooks_active ≡ false)
  pub before : List NetMsg
  pub stopped : h.app.sent ≡ before ++ shutdown ∷ []

shut_down-IsReleased :
    (h : HookState)
    → IsSafe h.app
    → h.keyboard_hook ≡ false
    → h.mouse_hook ≡ false
    → h.hooks_active ≡ false
    → IsReleased (shut_down h)
unfolding shut_down force_local send
shut_down-IsReleased h safe k m a = record {
  local = ground arith;
  heard = ground (arith, safe.suppressed);
  free = ground (arith, safe.clipped);
  unhooked = (k, m, a);
  before = (force_local h.app).0.sent;
  stopped = refl;
}

send-IsSafe : (msg : NetMsg) (st : AppState) → IsSafe st → IsSafe (send msg st)
unfolding send
send-IsSafe msg st s = record { linked = s.linked; suppressed = s.suppressed; clipped = s.clipped }

apply_mouse_hook-app : (granted : Bool) (h : HookState) → (apply_mouse_hook granted h).app ≡ h.app
unfolding apply_mouse_hook
apply_mouse_hook-app granted h = ground arith

adopt-IsSafe : (cfg : Config) (st : AppState) → IsSafe st → IsSafe (adopt cfg st)
unfolding adopt
adopt-IsSafe cfg st s = record {
  linked = ground (arith, s.linked);
  suppressed = ground (arith, s.suppressed);
  clipped = ground (arith, s.clipped);
}

take_turns-IsSafe : (ts : List Turn) (h : HookState) → IsSafe h.app → IsSafe (take_turns ts h).app
unfolding take_turns take_turn
take_turns-IsSafe [] h s = s
take_turns-IsSafe (happens e ∷ ts) h s = take_turns-IsSafe ts _ (happen-IsSafe e h.app s)
take_turns-IsSafe (sends msg ∷ ts) h s = take_turns-IsSafe ts _ (send-IsSafe msg h.app s)
take_turns-IsSafe (hooks_mouse granted ∷ ts) h s =
    take_turns-IsSafe ts (apply_mouse_hook granted h)
      (subst IsSafe (sym (apply_mouse_hook-app granted h)) s)
take_turns-IsSafe (saves cfg ∷ ts) h s = take_turns-IsSafe ts _ (adopt-IsSafe cfg h.app s)

with_pairing-IsSafe :
    (code : Option Text) (st : AppState) → IsSafe st → IsSafe (with_pairing code st)
unfolding with_pairing send
with_pairing-IsSafe none st s = s
with_pairing-IsSafe (some code) st s = send-IsSafe (pair code) st s

install-app : (left : ℕ) (k m : Bool) (h : HookState) → (install left k m h).0.app ≡ h.app
unfolding install
install-app left k m h = ground arith

uninstall-IsSafe : (h : HookState) → IsSafe h.app → IsSafe (uninstall h).app
unfolding uninstall
uninstall-IsSafe h s = record { linked = s.linked; suppressed = s.suppressed; clipped = λ e. cc }

run-IsReleased :
    (w : World) (st : AppState) → IsSafe st → IsReleased (shut_down (run w (no_hooks st)))
unfolding run no_hooks
run-IsReleased w st s =
    if-either (λ h. IsReleased (shut_down h)) w.window_made _ _
      (λ made.
        let hooked = (install w.virtual_left w.keyboard_granted w.mouse_granted (no_hooks st)).0 in
        let after = take_turns-IsSafe w.turns hooked (
          subst IsSafe
            (sym (install-app w.virtual_left w.keyboard_granted w.mouse_granted (no_hooks st)))
            s) in
        shut_down-IsReleased (uninstall (take_turns w.turns hooked))
          (uninstall-IsSafe (take_turns w.turns hooked) after) (unfold uninstall in refl)
          (unfold uninstall in refl) (unfold uninstall in refl))
      (λ missing. shut_down-IsReleased (no_hooks st) s refl refl refl)

start-IsReleased :
    (w : World) (args : Args) (cfg : Config) {h : HookState}
    → start w args cfg ≡ ran h
    → IsReleased h
unfolding start
start-IsReleased w args cfg {h} =
    if-either (λ e. e ≡ ran h → IsReleased h) (claim_single_instance w) _ _
      (λ claimed e.
        let same : shut_down (run w (no_hooks (with_pairing args.pair_code (init_state cfg)))) ≡ h =
          cc in
        subst IsReleased same
          (run-IsReleased w _ (with_pairing-IsSafe args.pair_code _ (init_state-IsSafe cfg))))
      (λ other e. cc)

configured-IsReleased :
    (w : World) (args : Args) (o : Option Config) {h : HookState}
    → configured w args o ≡ ran h
    → IsReleased h
unfolding configured
configured-IsReleased w args none e = cc
configured-IsReleased w args (some cfg) e = start-IsReleased w args cfg e

after_parsing-IsReleased :
    (w : World) (r : Result Text Args) {h : HookState} → after_parsing w r ≡ ran h → IsReleased h
unfolding after_parsing
after_parsing-IsReleased w (err e) = λ h. cc
after_parsing-IsReleased w (ok args) {h} =
    if-either (λ e. e ≡ ran h → IsReleased h) args.help _ _ (λ yes_help e. cc)
      (λ no_help.
        if-either (λ e. e ≡ ran h → IsReleased h) args.version _ _ (λ yes_version e. cc)
          (λ no_version. configured-IsReleased w args (build_config w.hostname w.file args)))

-- A process that has run, with or without a window and hooks, and with any turns of input, hotkeys,
-- operations of the state, messages to the network thread, changes of the mouse hook and saves of the
-- settings by its message loop and its other threads, leaves the input on Windows, not suppressed, the
-- cursor free and no hook behind, and its last word to the network thread is to shut down.
pub main-IsReleased : (w : World) {h : HookState} → main w ≡ ran h → IsReleased h
unfolding main
main-IsReleased w e = after_parsing-IsReleased w (parse_args w.words) e

-- That the process does not end by a panic.
Survives : Ending → Type 0
Survives e = e ≢ panicked

start-Survives : (w : World) (args : Args) (cfg : Config) → Survives (start w args cfg)
unfolding start
start-Survives w args cfg =
    if-either Survives (claim_single_instance w) _ _ (λ claimed. unfold Survives in λ e. cc)
      (λ other. unfold Survives in λ e. cc)

after_parsing-Survives : (w : World) (r : Result Text Args) → Survives (after_parsing w r)
unfolding after_parsing configured
after_parsing-Survives w (err e) = unfold Survives in λ h. cc
after_parsing-Survives w (ok args) =
    let built = build_config-IsSane w.hostname w.file args in
    if-either Survives args.help _ _ (λ a. unfold Survives in λ h. cc)
      λ b.
        if-either Survives args.version _ _ (λ a. unfold Survives in λ h. cc)
          λ b.
            subst (λ o. Survives (configured w args o)) (sym built.3)
              (start-Survives w args built.1)

-- The configuration of the start never makes the process panic, whatever is typed and whatever the file holds.
pub main_survives : (w : World) → main w ≢ panicked
unfolding main Survives
main_survives w = after_parsing-Survives w (parse_args w.words)
