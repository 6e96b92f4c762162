-- ===== src/Update/Install/Alone.antt =====
-- update.rs: the busy flag. One thread at a time works for the updater, and one installer at most is
-- ever started.
use remote_input_bridge.Base.{ℕ, ◌+◌, ◌≤◌, ◌≡◌, refl, zero, suc, List, [], ◌∷◌, ◌++◌, Option}
use remote_input_bridge.Base.{none, some, Bool, true, false, arith, not, if-either, if◌then◌else◌}
use remote_input_bridge.Frame.{Result, ok, err}
use remote_input_bridge.Update.{Text, Artifact, Manifest}
use remote_input_bridge.Update.Download.{Outside, Attempt, download_and_launch}
use remote_input_bridge.Update.Download.{eq_ignore_ascii_case, verify, launch_installer}
use remote_input_bridge.Update.Install.{State, Updater, Task, Event, boot, claim, accept}
use remote_input_bridge.Update.Install.{check_now, after_attempt, run_task, attempt_of}
use remote_input_bridge.Update.Install.{show_percent, spawn, check, install_pending, install}
use remote_input_bridge.Update.Install.{step_at, show_at, step, run, calls_check, calls_install}
use remote_input_bridge.Update.Install.{steps, shows, check_starts, check_asks, check_releases}
use remote_input_bridge.Update.Install.{check_reports, install_starts, install_works}
use remote_input_bridge.Update.Install.{install_releases, install_reports}

-- The threads that have claimed the updater and not released it.
unfoldable pub holds : Task → ℕ
holds (check_reports stage) = 0
holds (install_reports stage) = 0
holds _ = 1

unfoldable pub holders : List Task → ℕ
unfolding holds
holders [] = 0
holders (t ∷ ts) = holds t + holders ts

unfoldable pub started : List ((Text × Artifact) × Attempt) → ℕ
started [] = 0
started ((p, a) ∷ rest) = (if a.started then 1 else 0) + started rest

-- The threads at work and the installers started, at most one together, and none unless the flag is
-- set.
pub record IsAlone (u : Updater) : Type 0 where
  pub one : holders u.tasks + started u.attempts ≤ (if u.state.busy then 1 else 0)

accept-busy : (m : Manifest) (o : Option Artifact) (s : State) → (accept m o s).1.busy ≡ s.busy
unfolding accept
accept-busy m none s = refl
accept-busy m (some a) s = ground arith

check_now-busy :
    (version : Text) (answer : Result Text Manifest) (s : State)
    → (check_now version answer s).1.busy ≡ s.busy
unfolding check_now
check_now-busy version (err e) s = refl
check_now-busy version (ok m) s = ground (arith, accept-busy m m.windows s)

-- That an attempt tells whether the installer runs.
Told : Attempt → Type 0
Told a = a.started ≡ elim a.result [ ok _ ↦ true | err _ ↦ false ]

launch_installer-Told :
    (failure : Option Text) (file : Option (List ℕ)) → Told (launch_installer failure file)
unfolding launch_installer Told
launch_installer-Told (some e) file = refl
launch_installer-Told none file = refl

verify-Told :
    (w : Outside) (artifact : Artifact) (r : Result Text Text × Option (List ℕ))
    → Told (verify w artifact r)
unfolding verify
verify-Told w artifact (err e, file) = unfold Told in refl
verify-Told w artifact (ok digest, file) =
    if-either Told (not (eq_ignore_ascii_case digest artifact.sha256)) _ _
      (λ differs. unfold Told in refl) (λ equal. launch_installer-Told w.spawn_error file)

download_and_launch-Told :
    (w : Outside) (artifact : Artifact) (leftover : Option (List ℕ))
    → Told (download_and_launch w artifact leftover)
unfolding download_and_launch
download_and_launch-Told w artifact leftover = verify-Told w artifact _

attempt_weight :
    (r : Result Text (Unit {0})) (runs : Bool)
    → runs ≡ elim r [ ok _ ↦ true | err _ ↦ false ]
    → holds (after_attempt r) + (if runs then 1 else 0) ≡ 1
unfolding holds after_attempt
attempt_weight (ok u) runs h = rw h refl
attempt_weight (err e) runs h = rw h refl

module _ (w : Outside) (version : Text) where
  -- The weights before and after the step of a thread.
  task_weight :
      (answer : Result Text Manifest) (leftover : Option (List ℕ)) (t : Task) (s : State)
      (others : ℕ)
      → holds t + others ≤ (if s.busy then 1 else 0)
      → holders (run_task w version answer leftover t s).0
          + started (attempt_of w leftover t)
          + others
        ≤ (if (run_task w version answer leftover t s).1.busy then 1 else 0)
  unfolding holders holds started run_task attempt_of
  task_weight answer leftover (check_starts m) s others h = h
  task_weight answer leftover (check_asks m) s others h =
      ground (arith, check_now-busy version answer s)
  task_weight answer leftover (check_releases m r) s others h = ground (arith, h)
  task_weight answer leftover (check_reports st) s others h = h
  task_weight answer leftover (install_starts p) s others h = h
  task_weight answer leftover (install_works p) s others h =
      let a = download_and_launch w p.1 leftover in
      let weight =
        attempt_weight a.result a.started
          (unfold Told in download_and_launch-Told w p.1 leftover) in
      omega (arith, weight)
  task_weight answer leftover (install_releases e) s others h = ground (arith, h)
  task_weight answer leftover (install_reports st) s others h = h

  started-append :
      (xs ys : List ((Text × Artifact) × Attempt)) → started (xs ++ ys) ≡ started xs + started ys
  unfolding started
  started-append [] ys = omega arith
  started-append ((p, a) ∷ xs) ys = omega (arith, started-append xs ys)

  holders-append : (xs ys : List Task) → holders (xs ++ ys) ≡ holders xs + holders ys
  unfolding holders
  holders-append [] ys = omega arith
  holders-append (t ∷ xs) ys = omega (arith, holders-append xs ys)

  step_at-weight :
      (n : ℕ) (answer : Result Text Manifest) (leftover : Option (List ℕ)) (ts : List Task)
      (u : Updater) (others : ℕ)
      → holders ts + started u.attempts + others ≤ (if u.state.busy then 1 else 0)
      → let v = step_at w version n answer leftover ts u in
        holders v.tasks + started v.attempts + others ≤ (if v.state.busy then 1 else 0)
  unfolding step_at holders
  step_at-weight n answer leftover [] u others h = h
  step_at-weight zero answer leftover (t ∷ ts) u others h =
      let heavy =
        task_weight answer leftover t u.state (holders ts + started u.attempts + others)
          (omega (arith, h)) in
      omega (
        arith,
        heavy,
        holders-append (run_task w version answer leftover t u.state).0 ts,
        started-append (attempt_of w leftover t) u.attempts,
      )
  step_at-weight (suc n) answer leftover (t ∷ ts) u others h =
      omega (arith, step_at-weight n answer leftover ts u (holds t + others) (omega (arith, h)))

  show_percent-busy :
      (percent : ℕ) (t : Task) (s : State) → (show_percent percent t s).busy ≡ s.busy
  unfolding show_percent
  show_percent-busy percent (install_works p) s = refl
  show_percent-busy percent _ s = refl

  show_at-busy :
      (n percent : ℕ) (ts : List Task) (s : State)
      → (show_at w version n percent ts s).busy ≡ s.busy
  unfolding show_at
  show_at-busy n percent [] s = refl
  show_at-busy zero percent (t ∷ ts) s = show_percent-busy percent t s
  show_at-busy (suc n) percent (t ∷ ts) s = show_at-busy n percent ts s

  spawn-IsAlone :
      (spawned : Bool) (t : Task) (u : Updater)
      → holds t ≡ 1
      → IsAlone u
      → IsAlone (spawn spawned t (claim u.state) u)
  unfolding spawn claim holders
  spawn-IsAlone true t u weight h =
      if-either (λ r. IsAlone (spawn true t r u)) u.state.busy _ _ (λ taken. h)
        (λ free. record { one = ground (arith, weight, h.one) })
  spawn-IsAlone false t u weight h =
      if-either (λ r. IsAlone (spawn false t r u)) u.state.busy _ _ (λ taken. h)
        (λ free. record { one = ground (arith, h.one) })

  step-IsAlone : (e : Event) (u : Updater) → IsAlone u → IsAlone (step w version e u)
  unfolding step check install install_pending holds
  step-IsAlone (calls_check spawned manual) u h =
      spawn-IsAlone spawned (check_starts manual) u refl h
  step-IsAlone (calls_install spawned) u h =
      elim u.state.pending as (λ o. IsAlone (install_pending spawned o u)) [
        | none ↦ spawn-IsAlone spawned (check_starts true) u refl h
        | some p ↦ spawn-IsAlone spawned (install_starts p) u refl h
      ]
  step-IsAlone (steps n answer leftover) u h = record {
    one = omega (arith, step_at-weight n answer leftover u.tasks u 0 (omega (arith, h.one)));
  }
  step-IsAlone (shows n percent) u h = record {
    one = ground (arith, h.one, show_at-busy n percent u.tasks u.state);
  }

  run-IsAlone_from : (es : List Event) (u : Updater) → IsAlone u → IsAlone (run w version es u)
  unfolding run
  run-IsAlone_from [] u h = h
  run-IsAlone_from (e ∷ es) u h = run-IsAlone_from es (step w version e u) (step-IsAlone e u h)

  -- However the calls and the accesses of the threads fall, the threads that work for the updater and
  -- the installers that were started are at most one together, and none while the flag is clear.
  pub run-IsAlone : (es : List Event) → IsAlone (run w version es boot)
  unfolding holders started
  run-IsAlone es = run-IsAlone_from es boot (record { one = omega arith })
