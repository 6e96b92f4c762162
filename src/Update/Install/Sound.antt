-- ===== src/Update/Install/Sound.antt =====
-- update.rs: what is pending has passed the tests of the manifest, and so has all that is installed.
use remote_input_bridge.Base.{ℕ, ◌≡◌, refl, zero, suc, List, [], ◌∷◌, Option, none, some, Bool}
use remote_input_bridge.Base.{true, false, not, arith, All, if-either, All-append, subst, sym}
use remote_input_bridge.Frame.{Result, ok, err}
use remote_input_bridge.Update.{Text, Artifact, Manifest, is_newer}
use remote_input_bridge.Update.Download.{Outside, Attempt, download_and_launch}
use remote_input_bridge.Update.Download.Verified.{IsVerified, download_and_launch-IsVerified}
use remote_input_bridge.Update.Install.{State, Updater, Task, Event, boot, claim, release}
use remote_input_bridge.Update.Install.{is_digest, starts_https, accept, check_now, after_attempt}
use remote_input_bridge.Update.Install.{run_task, attempt_of, show_percent, spawn, check}
use remote_input_bridge.Update.Install.{install_pending, install, step_at, show_at, step, run}
use remote_input_bridge.Update.Install.{calls_check, calls_install, steps, shows, check_starts}
use remote_input_bridge.Update.Install.{check_asks, check_releases, check_reports, install_starts}
use remote_input_bridge.Update.Install.{install_works, install_releases, install_reports}

-- A newer version than the running one, with a digest and a URL of HTTPS.
pub record IsUsable (version : Text) (p : Text × Artifact) : Type 0 where
  pub newer : is_newer p.0 version ≡ true
  pub digest : is_digest p.1.sha256 ≡ true
  pub https : starts_https p.1.url ≡ true

IsUsablePending : Text → Option (Text × Artifact) → Type 0
IsUsablePending version none = Unit {0}
IsUsablePending version (some p) = IsUsable version p

IsUsableTask : Text → Task → Type 0
IsUsableTask version (install_starts p) = IsUsable version p
IsUsableTask version (install_works p) = IsUsable version p
IsUsableTask version _ = Unit {0}

-- An attempt at a usable update, whose installer, if it was started, was verified.
pub record IsChecked (w : Outside) (version : Text) (x : (Text × Artifact) × Attempt) : Type 0 where
  pub usable : IsUsable version x.0
  pub verified : x.1.started ≡ true → IsVerified w x.0.1 x.1.file

record IsSound (w : Outside) (version : Text) (u : Updater) : Type 0 where
  waiting : IsUsablePending version u.state.pending
  working : All (IsUsableTask version) u.tasks
  done : All (IsChecked w version) u.attempts

accept-usable :
    (version : Text) (m : Manifest) (o : Option Artifact) (s : State)
    → is_newer m.version version ≡ true
    → IsUsablePending version s.pending
    → IsUsablePending version (accept m o s).1.pending
unfolding accept IsUsablePending
accept-usable version m none s newer h = h
accept-usable version m (some a) s newer h =
    let P = λ (r : Result Text (Option Text) × State). IsUsablePending version r.1.pending in
    if-either P (not (is_digest a.sha256)) _ _ (λ bad. h)
      λ good.
        if-either P (not (starts_https a.url)) _ _ (λ plain. h)
          λ https. record {
            newer = newer;
            digest = ground (arith, good);
            https = ground (arith, https);
          }

check_now-usable :
    (version : Text) (answer : Result Text Manifest) (s : State)
    → IsUsablePending version s.pending
    → IsUsablePending version (check_now version answer s).1.pending
unfolding check_now
check_now-usable version (err e) s h = h
check_now-usable version (ok m) s h =
    if-either (λ (r : Result Text (Option Text) × State). IsUsablePending version r.1.pending)
      (not (is_newer m.version version)) _ _ (λ older. unfold IsUsablePending in tt)
      (λ newer. accept-usable version m m.windows s (ground (arith, newer)) h)

module _ (w : Outside) (version : Text) where
  after_attempt-usable :
      (r : Result Text (Unit {0})) → All (IsUsableTask version) (after_attempt r ∷ [])
  unfolding after_attempt IsUsableTask
  after_attempt-usable (ok u) = (tt, tt)
  after_attempt-usable (err e) = (tt, tt)

  -- A step of a thread on usable data leaves usable data, and attempts that are checked.
  run_task-usable :
      (answer : Result Text Manifest) (leftover : Option (List ℕ)) (t : Task) (s : State)
      → IsUsableTask version t
      → IsUsablePending version s.pending
      → All (IsUsableTask version) (run_task w version answer leftover t s).0
        × IsUsablePending version (run_task w version answer leftover t s).1.pending
        × All (IsChecked w version) (attempt_of w leftover t)
  unfolding run_task attempt_of release IsUsableTask
  run_task-usable answer leftover (check_starts m) s ht hs = ((tt, tt), hs, tt)
  run_task-usable answer leftover (check_asks m) s ht hs =
      ((tt, tt), check_now-usable version answer s hs, tt)
  run_task-usable answer leftover (check_releases m r) s ht hs = ((tt, tt), hs, tt)
  run_task-usable answer leftover (check_reports st) s ht hs = (tt, hs, tt)
  run_task-usable answer leftover (install_starts p) s ht hs = ((ht, tt), hs, tt)
  run_task-usable answer leftover (install_works p) s ht hs = (
    after_attempt-usable (download_and_launch w p.1 leftover).result,
    hs,
    (record { usable = ht; verified = download_and_launch-IsVerified w p.1 leftover }, tt),
  )
  run_task-usable answer leftover (install_releases e) s ht hs = ((tt, tt), hs, tt)
  run_task-usable answer leftover (install_reports st) s ht hs = (tt, hs, tt)

  step_at-IsSound :
      (n : ℕ) (answer : Result Text Manifest) (leftover : Option (List ℕ)) (ts : List Task)
      (u : Updater)
      → All (IsUsableTask version) ts
      → IsSound w version u
      → IsSound w version (step_at w version n answer leftover ts u)
  unfolding step_at
  step_at-IsSound n answer leftover [] u ht h = record {
    waiting = h.waiting;
    working = tt;
    done = h.done;
  }
  step_at-IsSound zero answer leftover (t ∷ ts) u ht h =
      let (next, after, tried) = run_task-usable answer leftover t u.state ht.0 h.waiting in
      record {
        waiting = after;
        working = All-append _ _ ts next ht.1;
        done = All-append _ _ u.attempts tried h.done;
      }
  step_at-IsSound (suc n) answer leftover (t ∷ ts) u ht h =
      let rest = step_at-IsSound n answer leftover ts u ht.1 h in
      record { waiting = rest.waiting; working = (ht.0, rest.working); done = rest.done }

  show_percent-pending :
      (percent : ℕ) (t : Task) (s : State) → (show_percent percent t s).pending ≡ s.pending
  unfolding show_percent
  show_percent-pending percent (install_works p) s = refl
  show_percent-pending percent _ s = refl

  show_at-pending :
      (n percent : ℕ) (ts : List Task) (s : State)
      → (show_at w version n percent ts s).pending ≡ s.pending
  unfolding show_at
  show_at-pending n percent [] s = refl
  show_at-pending zero percent (t ∷ ts) s = show_percent-pending percent t s
  show_at-pending (suc n) percent (t ∷ ts) s = show_at-pending n percent ts s

  spawn-IsSound :
      (spawned : Bool) (t : Task) (u : Updater)
      → IsUsableTask version t
      → IsSound w version u
      → IsSound w version (spawn spawned t (claim u.state) u)
  unfolding spawn claim
  spawn-IsSound true t u ht h =
      if-either (λ r. IsSound w version (spawn true t r u)) u.state.busy _ _ (λ taken. h)
        (λ free. record { waiting = h.waiting; working = (ht, h.working); done = h.done })
  spawn-IsSound false t u ht h =
      if-either (λ r. IsSound w version (spawn false t r u)) u.state.busy _ _ (λ taken. h)
        (λ free. record { waiting = h.waiting; working = h.working; done = h.done })

  install_pending-IsSound :
      (spawned : Bool) (o : Option (Text × Artifact)) (u : Updater)
      → IsUsablePending version o
      → IsSound w version u
      → IsSound w version (install_pending spawned o u)
  unfolding install_pending check IsUsablePending IsUsableTask
  install_pending-IsSound spawned none u ho h = spawn-IsSound spawned (check_starts true) u tt h
  install_pending-IsSound spawned (some p) u ho h = spawn-IsSound spawned (install_starts p) u ho h

  step-IsSound :
      (e : Event) (u : Updater) → IsSound w version u → IsSound w version (step w version e u)
  unfolding step check install IsUsableTask
  step-IsSound (calls_check spawned manual) u h = spawn-IsSound spawned (check_starts manual) u tt h
  step-IsSound (calls_install spawned) u h =
      install_pending-IsSound spawned u.state.pending u h.waiting h
  step-IsSound (steps n answer leftover) u h =
      step_at-IsSound n answer leftover u.tasks u h.working h
  step-IsSound (shows n percent) u h = record {
    waiting =
        subst (IsUsablePending version) (sym (show_at-pending n percent u.tasks u.state)) h.waiting;
    working = h.working;
    done = h.done;
  }

  run-IsSound :
      (es : List Event) (u : Updater) → IsSound w version u → IsSound w version (run w version es u)
  unfolding run
  run-IsSound [] u h = h
  run-IsSound (e ∷ es) u h = run-IsSound es (step w version e u) (step-IsSound e u h)

  -- However the calls and the threads' accesses fall and whatever the server answers, each attempt at
  -- an installation is of a version newer than the running one, with a digest of 64 hexadecimal
  -- digits and a URL of HTTPS; and if its installer was started, then from a file of at most 128 MiB
  -- that has this digest.
  pub attempts-AreChecked :
      (es : List Event) → All (IsChecked w version) (run w version es boot).attempts
  unfolding IsUsablePending
  attempts-AreChecked es =
      (run-IsSound es boot (record { waiting = tt; working = tt; done = tt })).done
