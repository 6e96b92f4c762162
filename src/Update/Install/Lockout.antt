-- ===== src/Update/Install/Lockout.antt =====
-- update.rs: a thread that cannot be spawned leaves the busy flag set.
use remote_input_bridge.Base.{◌≡◌, refl, ap, ◌∙◌, List, [], ◌∷◌, Option, none, some, Bool, true}
use remote_input_bridge.Base.{false}
use remote_input_bridge.Update.{Text, Artifact}
use remote_input_bridge.Update.Download.{Outside, Attempt}
use remote_input_bridge.Update.Install.{Stage, Updater, Event, calls_check, calls_install, steps}
use remote_input_bridge.Update.Install.{shows, claim, spawn, check, install_pending, install}
use remote_input_bridge.Update.Install.{step_at, show_at, step, run}

-- The flag is set, and there is no thread that will clear it.
abbrev pub stuck : Stage → Option (Text × Artifact) → List ((Text × Artifact) × Attempt) → Updater
stuck stage pending attempts = record {
  state = record { stage = stage; pending = pending; busy = true };
  tasks = [];
  attempts = attempts;
}

module _ (w : Outside) (version : Text) (stage : Stage)
    (attempts : List ((Text × Artifact) × Attempt)) where
  step-stuck :
      (pending : Option (Text × Artifact)) (e : Event)
      → step w version e (stuck stage pending attempts) ≡ stuck stage pending attempts
  unfolding step check install install_pending claim spawn step_at show_at
  step-stuck pending (calls_check spawned manual) = refl
  step-stuck none (calls_install spawned) = refl
  step-stuck (some p) (calls_install spawned) = refl
  step-stuck pending (steps n answer leftover) = refl
  step-stuck pending (shows n percent) = refl

  run-stuck :
      (pending : Option (Text × Artifact)) (es : List Event)
      → run w version es (stuck stage pending attempts) ≡ stuck stage pending attempts
  unfolding run
  run-stuck pending [] = refl
  run-stuck pending (e ∷ es) = ap (run w version es) (step-stuck pending e) ∙ run-stuck pending es

  -- When the thread of a check cannot be spawned while nothing else runs, no later call or step
  -- changes anything: there is no check and no installation until the program restarts.
  pub failed_spawn_locks :
      (manual : Bool) (pending : Option (Text × Artifact)) (es : List Event)
      → run w version es (
          step w version (calls_check false manual) (record {
            state = record { stage = stage; pending = pending; busy = false };
            tasks = [];
            attempts = attempts;
          }))
        ≡ stuck stage pending attempts
  unfolding step check claim spawn
  failed_spawn_locks manual pending es = run-stuck pending es
