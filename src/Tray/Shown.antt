-- ===== src/Tray/Shown.antt =====
-- ui/tray.rs: the icon comes back.
use remote_input_bridge.Base.{◌≡◌, List, [], ◌∷◌, Bool, true, false, not, ◌&&◌, ◌||◌, All, arith}
use remote_input_bridge.Tray.{Tray, Event, ticks, broadcast, closes, shell_turns}
use remote_input_bridge.Tray

-- A shell, as its documentation has it: whether there is a task bar, and whether the icon is on it. A
-- call that adds the icon succeeds when it is missing and there is a task bar, and one that changes it
-- when it is there.
pub record IsShell {S : Type 0} (nim_add nim_modify : S → Bool × S) (nim_delete : S → S)
    (up icon : S → Bool) : Type 0 where
  pub adds : (s : S) → (nim_add s).0 ≡ (up s && not (icon s))
  pub added : (s : S) → icon (nim_add s).1 ≡ (icon s || (nim_add s).0)
  pub modifies : (s : S) → (nim_modify s).0 ≡ icon s
  pub modified : (s : S) → icon (nim_modify s).1 ≡ icon s
  pub deleted : (s : S) → icon (nim_delete s) ≡ false
  pub add-up : (s : S) → up (nim_add s).1 ≡ up s
  pub modify-up : (s : S) → up (nim_modify s).1 ≡ up s

module _ {S : Type 0} (nim_add nim_modify : S → Bool × S) (nim_delete : S → S) (up icon : S → Bool)
    (shell : IsShell nim_add nim_modify nim_delete up icon) where
  -- The icon is not there unless the program knows of it.
  IsKnown : Tray S → Type 0
  IsKnown t = icon t.shell ≡ true → t.present ≡ true

  -- The shell by itself only loses the icon.
  unfoldable pub Loses : Event S → Type 0
  Loses (shell_turns f) = (s : S) → icon (f s) ≡ true → icon s ≡ true
  Loses e = Unit {0}

  add-IsKnown :
      (t : Tray S) → icon t.shell ≡ false → IsKnown (Tray.add nim_add nim_modify nim_delete t)
  unfolding Tray.add IsKnown
  add-IsKnown t missing there = ground (arith, shell.added t.shell)

  update-IsKnown : (t : Tray S) → IsKnown t → IsKnown (Tray.update nim_add nim_modify nim_delete t)
  unfolding Tray.update Tray.add IsKnown
  update-IsKnown t h there =
      ground (arith, h, shell.added t.shell, shell.modifies t.shell, shell.modified t.shell)

  happen-IsKnown :
      (e : Event S) (t : Tray S)
      → Loses e
      → IsKnown t
      → IsKnown (Tray.happen nim_add nim_modify nim_delete e t)
  unfolding Tray.happen Loses Tray.readd Tray.remove
  happen-IsKnown ticks t l h = update-IsKnown t h
  happen-IsKnown broadcast t l h = add-IsKnown _ (shell.deleted t.shell)
  happen-IsKnown closes t l h = unfold IsKnown in λ there. ground (arith, h, shell.deleted t.shell)
  happen-IsKnown (shell_turns f) t l h = unfold IsKnown in λ there. h (l t.shell there)

  run-IsKnown :
      (es : List (Event S)) (t : Tray S)
      → All Loses es
      → IsKnown t
      → IsKnown (Tray.run nim_add nim_modify nim_delete es t)
  unfolding Tray.run
  run-IsKnown [] t l h = h
  run-IsKnown (e ∷ es) t l h = run-IsKnown es _ l.1 (happen-IsKnown e t l.0 h)

  -- A round of the timer, when there is a task bar.
  update-round :
      (t : Tray S)
      → IsKnown t
      → up t.shell ≡ true
      → let u = Tray.update nim_add nim_modify nim_delete t in
        (u.present ≡ icon u.shell)
        × (up u.shell ≡ true)
        × (u.present ≡ (icon t.shell || not t.present))
  unfolding Tray.update Tray.add IsKnown
  update-round t h bar = (
    ground (
      arith,
      h,
      bar,
      shell.adds t.shell,
      shell.added t.shell,
      shell.modifies t.shell,
      shell.modified t.shell,
    ),
    ground (arith, bar, shell.add-up t.shell, shell.modify-up t.shell),
    ground (arith, h, bar, shell.adds t.shell, shell.modifies t.shell),
  )

  update-twice :
      (t : Tray S)
      → IsKnown t
      → up t.shell ≡ true
      → let u =
          Tray.update nim_add nim_modify nim_delete (Tray.update nim_add nim_modify nim_delete t) in
        (u.present ≡ true) × (icon u.shell ≡ true)
  update-twice t h bar =
      let (agrees, bar', first) = update-round t h bar in
      let (agrees', bar'', second) = update-round _ (update-IsKnown t h) bar' in
      (ground arith, ground arith)

  pub run-IsShown :
      (es : List (Event S)) (s : S)
      → All Loses es
      → icon s ≡ false
      → up (Tray.run nim_add nim_modify nim_delete es (record { present = false; shell = s })).shell
        ≡ true
      → let t = Tray.run nim_add nim_modify nim_delete es (record { present = false; shell = s }) in
        let u = Tray.run nim_add nim_modify nim_delete (ticks ∷ ticks ∷ []) t in
        (u.present ≡ true) × (icon u.shell ≡ true)
  run-IsShown es s l none_yet bar =
      let known =
        run-IsKnown es (record { present = false; shell = s }) l (unfold IsKnown in λ there. cc) in
      unfold Tray.run Tray.happen in update-twice _ known bar
