-- ===== src/Hooks/Triggers.antt =====
-- input/hooks.rs, `keyboard_proc`: the press and the release of a key that triggers a hotkey.
use remote_input_bridge.Base.{ℕ, ◌<◌, ◌≡◌, refl, ap, ap₂, sym, ◌∙◌, List, Option, none, some}
use remote_input_bridge.Base.{Bool, true, false, arith, All, ==-refl, if◌then◌else◌, update}
use remote_input_bridge.Keymap.{modifier_bit_for_vk}
use remote_input_bridge.Tracker.{HotkeyAction, match_vk}
use remote_input_bridge.Hooks.{Constants, HookState, capture_target}
use remote_input_bridge.Hooks.Procedures.{KeyInfo, swallow, swallow_and_stop, end_capture}
use remote_input_bridge.Hooks.Procedures.{next_mods, suppress_key, fire, press_plain, press}
use remote_input_bridge.Hooks.Procedures.{release}
use remote_input_bridge.Hooks.Keyboard.{IsReal, is_press, note, swallows, keyboard_proc-real}
use remote_input_bridge.Hooks.Swallowed.{KeyEvent, vk_of, proc, run_keys, IsPhysical, IsElsewhere}
use remote_input_bridge.Hooks.Swallowed.{flag-run_keys, capture_target-swallowed}

next_mods-zero : (down : Bool) (mods : ℕ) → next_mods 0 down mods ≡ mods
unfolding next_mods
next_mods-zero down mods = refl

-- A key that is no modifier leaves the mask.
noted : (vk : ℕ) (down : Bool) (h : HookState) → modifier_bit_for_vk vk ≡ 0 → note vk down h ≡ h
noted vk down h plain =
    ap (λ bit. record h { hook_mods = next_mods bit down h.hook_mods }) plain
    ∙ ap (λ mods. record h { hook_mods = mods }) (next_mods-zero down h.hook_mods)

module _ (w : Constants) where
  proc-press :
      (e : KeyEvent) (h : HookState)
      → IsPhysical w e
      → is_press w e.wparam ≡ true
      → modifier_bit_for_vk (vk_of e) ≡ 0
      → proc w e h ≡ press_plain w e.now e.info (vk_of e) h
  proc-press e h physical down plain =
      let real : IsReal w w.hc_action e.info = record { action = refl; physical = physical } in
      let opened : press w e.now e.info (vk_of e) h ≡ press_plain w e.now e.info (vk_of e) h =
        unfold press in ground (arith, plain) in
      keyboard_proc-real w e.now w.hc_action e.wparam e.info h real
      ∙ ap
          (λ c.
            if c
            then press w e.now e.info (vk_of e) (note (vk_of e) true h)
            else release w e.now e.info (vk_of e) (note (vk_of e) false h))
          down
      ∙ ap (λ x. press w e.now e.info (vk_of e) x) (noted (vk_of e) true h plain)
      ∙ opened

  proc-release :
      (e : KeyEvent) (h : HookState)
      → IsPhysical w e
      → is_press w e.wparam ≡ false
      → modifier_bit_for_vk (vk_of e) ≡ 0
      → proc w e h ≡ release w e.now e.info (vk_of e) h
  proc-release e h physical up plain =
      let real : IsReal w w.hc_action e.info = record { action = refl; physical = physical } in
      keyboard_proc-real w e.now w.hc_action e.wparam e.info h real
      ∙ ap
          (λ c.
            if c
            then press w e.now e.info (vk_of e) (note (vk_of e) true h)
            else release w e.now e.info (vk_of e) (note (vk_of e) false h))
          up
      ∙ ap (λ x. release w e.now e.info (vk_of e) x) (noted (vk_of e) false h plain)

  -- What the press of a key leaves that a capture or a hotkey takes.
  swallow_and_stop-some :
      (vk : ℕ) (g h : HookState) (stopped : Bool)
      → swallow_and_stop vk g ≡ some (h, stopped)
      → (vk < 256) × (h.swallowed vk ≡ true) × (stopped ≡ true)
  unfolding swallow
  swallow_and_stop-some vk g h stopped e = ground (arith, ==-refl vk)

  press_plain-taken :
      (now : ℕ) (info : KeyInfo) (vk : ℕ) (h after : HookState) (action : HotkeyAction)
      (stopped : Bool)
      → match_vk h.app.hotkeys vk h.hook_mods ≡ some action
      → press_plain w now info vk h ≡ some (after, stopped)
      → (vk < 256) × (after.swallowed vk ≡ true) × (stopped ≡ true)
  unfolding press_plain fire
  press_plain-taken now info vk h after action stopped hit e =
      let asked = (capture_target now h).0 in
      let fields = capture_target-swallowed w now h in
      let hit' : match_vk asked.app.hotkeys vk asked.hook_mods ≡ some action =
        ap₂ (λ a m. match_vk a.hotkeys vk m) (fields.2) (fields.1) ∙ hit in
      elim ((capture_target now h).1)
          as (λ o.
            (elim o [
              | some c ↦ swallow_and_stop vk (end_capture c vk asked)
              | none ↦ elim (match_vk asked.app.hotkeys vk asked.hook_mods) [
                | some action ↦ fire w now action vk asked
                | none ↦ some (suppress_key w now info true asked)
              ]
            ])
              ≡ some (after, stopped)
            → (vk < 256) × (after.swallowed vk ≡ true) × (stopped ≡ true)) [
              | some c ↦ λ q. swallow_and_stop-some vk _ after stopped q
              | none ↦ λ q. swallow_and_stop-some vk _ after stopped (
                  ap
                    (λ (o : Option HotkeyAction). elim o [
                      | some action ↦ fire w now action vk asked
                      | none ↦ some (suppress_key w now info true asked)
                    ])
                    (sym hit')
                  ∙ q)
            ]
        e

  release-flagged :
      (now : ℕ) (info : KeyInfo) (vk : ℕ) (h : HookState)
      → vk < 256
      → h.swallowed vk ≡ true
      → release w now info vk h ≡ some (record h { swallowed = update h.swallowed vk false }, true)
  unfolding release
  release-flagged now info vk h lt flag = ground arith

  -- A key that is no modifier is pressed, and matches a hotkey. Then the press stops at the hook, and
  -- so does the release that follows it after any events of other keys; the release forwards nothing
  -- and changes nothing but the flag of the key.
  pub trigger_pair :
      (down up : KeyEvent) (others : List KeyEvent) (h h1 h2 : HookState) (action : HotkeyAction)
      (stopped : Bool)
      → IsPhysical w down
      → is_press w down.wparam ≡ true
      → modifier_bit_for_vk (vk_of down) ≡ 0
      → match_vk h.app.hotkeys (vk_of down) h.hook_mods ≡ some action
      → proc w down h ≡ some (h1, stopped)
      → All (IsElsewhere w (vk_of down)) others
      → run_keys w others h1 ≡ some h2
      → IsPhysical w up
      → is_press w up.wparam ≡ false
      → vk_of up ≡ vk_of down
      → (stopped ≡ true)
        × (proc w up h2
            ≡ some (record h2 { swallowed = update h2.swallowed (vk_of down) false }, true))
  trigger_pair down up others h h1 h2 action stopped physical is_down plain hit pressed away ran
        physical' is_up same =
      let vk = vk_of down in
      let (lt, flag, stops) =
        press_plain-taken down.now down.info vk h h1 action stopped hit
          (sym (proc-press down h physical is_down plain) ∙ pressed) in
      let flag' = flag-run_keys w vk others h1 h2 away ran ∙ flag in
      (
        stops,
        proc-release up h2 physical' is_up (ap modifier_bit_for_vk same ∙ plain)
            ∙ ap (λ v. release w up.now up.info v h2) same
            ∙ release-flagged up.now up.info vk h2 lt flag',
      )

  suppress_key-off :
      (now : ℕ) (info : KeyInfo) (h : HookState)
      → h.app.suppress ≡ false
      → suppress_key w now info true h ≡ (h, false)
  unfolding suppress_key
  suppress_key-off now info h off = ground arith

  press_plain-missed :
      (now : ℕ) (info : KeyInfo) (vk : ℕ) (h : HookState)
      → h.app.suppress ≡ false
      → (capture_target now h).1 ≡ none
      → match_vk h.app.hotkeys vk h.hook_mods ≡ none
      → press_plain w now info vk h ≡ some ((capture_target now h).0, false)
  unfolding press_plain
  press_plain-missed now info vk h off idle miss =
      let asked = (capture_target now h).0 in
      let fields = capture_target-swallowed w now h in
      let miss' : match_vk asked.app.hotkeys vk asked.hook_mods ≡ none =
        ap₂ (λ a m. match_vk a.hotkeys vk m) (fields.2) (fields.1) ∙ miss in
      let unmatched : Option HotkeyAction → Option (HookState × Bool) = λ o. elim o [
        | some action ↦ fire w now action vk asked
        | none ↦ some (suppress_key w now info true asked)
      ] in
      ap
        (λ (o : Option ℕ). elim o [
          | some c ↦ swallow_and_stop vk (end_capture c vk asked)
          | none ↦ unmatched (match_vk asked.app.hotkeys vk asked.hook_mods)
        ])
        idle
      ∙ ap unmatched miss'
      ∙ ap some (suppress_key-off now info asked (ap (λ a. a.suppress) (fields.2) ∙ off))

  -- A key whose press was taken by a hotkey and that repeats when the modifiers no longer match any
  -- hotkey, with no capture under way and local input not suppressed: the repeated press reaches the
  -- other programs, and the release that follows does not, so that they see the key stay down.
  pub repeat_leaks :
      (again up : KeyEvent) (h : HookState)
      → IsPhysical w again
      → is_press w again.wparam ≡ true
      → modifier_bit_for_vk (vk_of again) ≡ 0
      → vk_of again < 256
      → h.swallowed (vk_of again) ≡ true
      → h.app.suppress ≡ false
      → (capture_target again.now h).1 ≡ none
      → match_vk h.app.hotkeys (vk_of again) h.hook_mods ≡ none
      → IsPhysical w up
      → is_press w up.wparam ≡ false
      → vk_of up ≡ vk_of again
      → (after : HookState) × (proc w again h ≡ some (after, false))
        × (swallows (proc w up after) ≡ true)
  repeat_leaks again up h physical is_down plain lt flag off idle miss physical' is_up same =
      let vk = vk_of again in
      let after = (capture_target again.now h).0 in
      let flag' =
        ap (λ (flags : ℕ → Bool). flags vk) (capture_target-swallowed w again.now h).0 ∙ flag in
      (
        after,
        proc-press again h physical is_down plain
            ∙ press_plain-missed again.now again.info vk h off idle miss,
        ap swallows (
            proc-release up after physical' is_up (ap modifier_bit_for_vk same ∙ plain)
            ∙ ap (λ v. release w up.now up.info v after) same
            ∙ release-flagged up.now up.info vk after lt flag'),
      )
