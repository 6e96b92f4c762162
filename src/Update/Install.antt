-- ===== src/Update/Install.antt =====
-- update.rs, the state of the updater: `claim`, `release`, `check`, `check_now` and `install`, with
-- their threads. A thread is a list of what it has left to do: between two of its accesses of the
-- state, any other thread may run. What the server answers is an argument of a step.
use remote_input_bridge.Base.{
  ℕ, zero, suc, List, [], ◌∷◌, ◌++◌, Option, none, some, Bool, true, false, ◌==◌, ltb, leb,
  if◌then◌else◌, length, take, map, not, ◌&&◌, ◌||◌,
}
use remote_input_bridge.Base.Text.{ascii, text_eq}
use remote_input_bridge.Keymap.{within}
use remote_input_bridge.Frame.{Result, ok, err}
use remote_input_bridge.Update.{Text, Artifact, Manifest, is_newer}
use remote_input_bridge.Update.Download.{Outside, Attempt, download_and_launch}
pub mod Alone
pub mod Sound
pub mod Lockout

pub data Stage : Type 0 where
  idle : Stage
  checking : Stage
  up_to_date : Stage
  available : Text → Stage
  downloading : Option ℕ → Stage
  installing : Stage
  failed : Text → Stage

pub record State : Type 0 where
  pub stage : Stage
  pub pending : Option (Text × Artifact)
  pub busy : Bool

abbrev pub initial : State
initial = record { stage = idle; pending = none; busy = false }

-- The busy flag as it was, and set.
unfoldable pub claim : State → Bool × State
claim s = if s.busy then (false, s) else (true, record s { busy = true })

unfoldable pub release : State → State
release s = record s { busy = false }

is_hex_digit : ℕ → Bool
is_hex_digit b = within b'0' b'9' b || (within b'a' b'f' b || within b'A' b'F' b)

unfoldable pub all_hex : Text → Bool
unfolding is_hex_digit
all_hex [] = true
all_hex (b ∷ bs) = is_hex_digit b && all_hex bs

unfoldable pub is_digest : Text → Bool
is_digest sha256 = length sha256 == 64 && all_hex sha256

unfoldable pub starts_https : Text → Bool
starts_https url = text_eq (take 8 url) (ascii "https://")

-- `check_now` on a manifest that was read, after the comparison of versions.
unfoldable pub accept : Manifest → Option Artifact → State → Result Text (Option Text) × State
unfolding is_digest starts_https
accept m none s = (err (ascii "the release has no Windows build"), s)
accept m (some artifact) s =
    if not (is_digest artifact.sha256)
    then (err (ascii "the manifest carries no usable SHA-256"), s)
    else if not (starts_https artifact.url)
    then (err (ascii "the manifest points at a non-HTTPS download"), s)
    else (ok (some m.version), record s { pending = some (m.version, artifact) })

unfoldable pub check_now : Text → Result Text Manifest → State → Result Text (Option Text) × State
unfolding accept
check_now version (err e) s = (err e, s)
check_now version (ok m) s =
    if not (is_newer m.version version)
    then (ok none, record s { pending = none })
    else accept m m.windows s

-- The stage that a finished check shows.
unfoldable pub outcome_stage : Bool → Result Text (Option Text) → Stage
outcome_stage manual (ok (some version)) = available version
outcome_stage manual (ok none) = up_to_date
outcome_stage manual (err e) = if manual then failed e else idle

-- Where a thread stands: a check before it starts, after the stage is set, after `check_now` and
-- after the release; an installation before it starts, after the stage is set, after a failure,
-- and after the release.
pub data Task : Type 0 where
  check_starts : Bool → Task
  check_asks : Bool → Task
  check_releases : Bool → Result Text (Option Text) → Task
  check_reports : Stage → Task
  install_starts : Text × Artifact → Task
  install_works : Text × Artifact → Task
  install_releases : Text → Task
  install_reports : Stage → Task

-- The state, the threads, and the attempts at an installation, the last first.
pub record Updater : Type 0 where
  pub state : State
  pub tasks : List Task
  pub attempts : List ((Text × Artifact) × Attempt)

abbrev pub boot : Updater
boot = record { state = initial; tasks = []; attempts = [] }

unfoldable pub after_attempt : Result Text (Unit {0}) → Task
after_attempt (ok _) = install_reports installing
after_attempt (err e) = install_releases e

-- The next access of the state by a thread: what it has left to do then, and the state. The
-- arguments before the task are the running version, what the server answers a check, and what an
-- earlier attempt has left in the target file.
unfoldable pub run_task :
    Outside → Text → Result Text Manifest → Option (List ℕ) → Task → State → List Task × State
unfolding check_now release outcome_stage after_attempt
run_task w version answer leftover (check_starts manual) s =
    (check_asks manual ∷ [], record s { stage = checking })
run_task w version answer leftover (check_asks manual) s =
    let (r, after) = check_now version answer s in (check_releases manual r ∷ [], after)
run_task w version answer leftover (check_releases manual r) s =
    (check_reports (outcome_stage manual r) ∷ [], release s)
run_task w version answer leftover (check_reports stage) s = ([], record s { stage = stage })
run_task w version answer leftover (install_starts p) s =
    (install_works p ∷ [], record s { stage = downloading none })
run_task w version answer leftover (install_works p) s =
    (after_attempt (download_and_launch w p.1 leftover).result ∷ [], s)
run_task w version answer leftover (install_releases e) s =
    (install_reports (failed e) ∷ [], release s)
run_task w version answer leftover (install_reports stage) s = ([], record s { stage = stage })

-- The attempt that a step of a thread is.
unfoldable pub attempt_of : Outside → Option (List ℕ) → Task → List ((Text × Artifact) × Attempt)
attempt_of w leftover (install_works p) = (p, download_and_launch w p.1 leftover) ∷ []
attempt_of w leftover _ = []

-- A percentage that the loop of a download shows.
unfoldable pub show_percent : ℕ → Task → State → State
show_percent percent (install_works p) s = record s { stage = downloading (some percent) }
show_percent percent _ s = s

-- A thread that was claimed for; whether it could be spawned is an argument, and it is not looked at.
unfoldable pub spawn : Bool → Task → Bool × State → Updater → Updater
spawn spawned task (false, after) u = u
spawn spawned task (true, after) u = record u {
  state = after;
  tasks = if spawned then task ∷ u.tasks else u.tasks;
}

unfoldable pub check : Bool → Bool → Updater → Updater
unfolding claim spawn
check spawned manual u = spawn spawned (check_starts manual) (claim u.state) u

-- `install` with the pending update it has read.
unfoldable pub install_pending : Bool → Option (Text × Artifact) → Updater → Updater
unfolding claim spawn check
install_pending spawned none u = check spawned true u
install_pending spawned (some p) u = spawn spawned (install_starts p) (claim u.state) u

unfoldable pub install : Bool → Updater → Updater
unfolding install_pending
install spawned u = install_pending spawned u.state.pending u

-- What happens: a call of `check` or `install`, the next step of the thread behind `n` others, or a
-- percentage that it shows.
pub data Event : Type 0 where
  calls_check : Bool → Bool → Event
  calls_install : Bool → Event
  steps : ℕ → Result Text Manifest → Option (List ℕ) → Event
  shows : ℕ → ℕ → Event

module _ (w : Outside) (version : Text) where
  -- A step of one of the threads of a list, which are the threads there are then.
  unfoldable pub step_at :
      ℕ → Result Text Manifest → Option (List ℕ) → List Task → Updater → Updater
  unfolding run_task attempt_of
  step_at n answer leftover [] u = record u { tasks = [] }
  step_at zero answer leftover (t ∷ ts) u =
      let (next, after) = run_task w version answer leftover t u.state in
      record u {
        state = after;
        tasks = next ++ ts;
        attempts = attempt_of w leftover t ++ u.attempts;
      }
  step_at (suc n) answer leftover (t ∷ ts) u =
      let rest = step_at n answer leftover ts u in record rest { tasks = t ∷ rest.tasks }

  unfoldable pub show_at : ℕ → ℕ → List Task → State → State
  unfolding show_percent
  show_at n percent [] s = s
  show_at zero percent (t ∷ ts) s = show_percent percent t s
  show_at (suc n) percent (t ∷ ts) s = show_at n percent ts s

  unfoldable pub step : Event → Updater → Updater
  unfolding check install step_at show_at
  step (calls_check spawned manual) u = check spawned manual u
  step (calls_install spawned) u = install spawned u
  step (steps n answer leftover) u = step_at n answer leftover u.tasks u
  step (shows n percent) u = record u { state = show_at n percent u.tasks u.state }

  unfoldable pub run : List Event → Updater → Updater
  unfolding step
  run [] u = u
  run (e ∷ es) u = run es (step e u)
