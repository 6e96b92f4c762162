-- ===== src/Hooks/Keyboard.antt =====
-- input/hooks.rs, `keyboard_proc`: which key events reach the other programs of the machine.
use remote_input_bridge.Base.{ℕ, ◌<◌, ◌%◌, ◌^◌, ◌≡◌, ap, ◌∙◌, Option, none, some, Bool, true}
use remote_input_bridge.Base.{false, arith, ◌==◌, ◌||◌, if◌then◌else◌, bit_and}
use remote_input_bridge.Keymap.{modifier_bit_for_vk}
use remote_input_bridge.Tracker.{match_vk}
use remote_input_bridge.Hooks.{Constants, HookState, capture_target}
use remote_input_bridge.Hooks.Procedures.{KeyInfo, swallow, swallow_and_stop, end_capture}
use remote_input_bridge.Hooks.Procedures.{next_mods, suppress_key, fire, press_plain, press}
use remote_input_bridge.Hooks.Procedures.{release, keyboard_proc}

-- An event of a device: the procedure is called for an action, and nothing injected the event.
pub record IsReal (w : Constants) (code : ℕ) (info : KeyInfo) : Type 0 where
  pub action : code ≡ w.hc_action
  pub physical : bit_and info.flags w.llkhf_injected ≡ 0

-- The message that `keyboard_proc` takes for a press.
abbrev pub is_press : Constants → ℕ → Bool
is_press w wparam = wparam % 2 ^ 32 == w.wm_keydown || wparam % 2 ^ 32 == w.wm_syskeydown

abbrev pub note : ℕ → Bool → HookState → HookState
note vk down h = record h { hook_mods = next_mods (modifier_bit_for_vk vk) down h.hook_mods }

pub capture_target-suppress : (now : ℕ) (h : HookState) → (capture_target now h).0.app ≡ h.app
unfolding capture_target
capture_target-suppress now h = ground arith

-- Whether an event stops at the procedure.
abbrev pub swallows : Option (HookState × Bool) → Bool
swallows none = false
swallows (some (h, stopped)) = stopped

module _ (w : Constants) where
  pub keyboard_proc-real :
      (now code wparam : ℕ) (info : KeyInfo) (h : HookState)
      → IsReal w code info
      → keyboard_proc w now code wparam (some info) h ≡ (
          let vk = info.vk_code % 2 ^ 16 in
          if is_press w wparam
          then press w now info vk (note vk true h)
          else release w now info vk (note vk false h))
  unfolding keyboard_proc
  keyboard_proc-real now code wparam info h r = ground (arith, r.action, r.physical)

  suppress_key-true :
      (now : ℕ) (info : KeyInfo) (down : Bool) (h : HookState)
      → h.app.suppress ≡ true
      → (suppress_key w now info down h).1 ≡ true
  unfolding suppress_key
  suppress_key-true now info down h s = ground arith

  swallow_and_stop-swallows :
      (vk : ℕ) (h : HookState) → vk < 256 → swallows (swallow_and_stop vk h) ≡ true
  unfolding swallow
  swallow_and_stop-swallows vk h lt = ground arith

  press_plain-swallows :
      (now : ℕ) (info : KeyInfo) (vk : ℕ) (h : HookState)
      → vk < 256
      → h.app.suppress ≡ true
      → swallows (press_plain w now info vk h) ≡ true
  unfolding press_plain fire
  press_plain-swallows now info vk h lt s =
      let asked = (capture_target now h).0 in
      let kept : asked.app.suppress ≡ true =
        ap (λ a. a.suppress) (capture_target-suppress now h) ∙ s in
      elim ((capture_target now h).1)
        as (λ o.
          swallows (elim o [
            | some c ↦ swallow_and_stop vk (end_capture c vk asked)
            | none ↦ elim (match_vk asked.app.hotkeys vk asked.hook_mods) [
              | some action ↦ fire w now action vk asked
              | none ↦ some (suppress_key w now info true asked)
            ]
          ])
          ≡ true) [
            | some c ↦ swallow_and_stop-swallows vk (end_capture c vk asked) lt
            | none ↦
                elim (match_vk asked.app.hotkeys vk asked.hook_mods)
                  as (λ o.
                    swallows (elim o [
                      | some action ↦ fire w now action vk asked
                      | none ↦ some (suppress_key w now info true asked)
                    ])
                    ≡ true) [
                      | some action ↦ swallow_and_stop-swallows vk _ lt
                      | none ↦ suppress_key-true now info true asked kept
                    ]
          ]

  press-swallows :
      (now : ℕ) (info : KeyInfo) (vk : ℕ) (h : HookState)
      → vk < 256
      → h.app.suppress ≡ true
      → swallows (press w now info vk h) ≡ true
  unfolding press
  press-swallows now info vk h lt s =
      let asked = (capture_target now h).0 in
      let kept : asked.app.suppress ≡ true =
        ap (λ a. a.suppress) (capture_target-suppress now h) ∙ s in
      ground
        (arith, press_plain-swallows now info vk h lt s, suppress_key-true now info true asked kept)

  release-swallows :
      (now : ℕ) (info : KeyInfo) (vk : ℕ) (h : HookState)
      → vk < 256
      → h.app.suppress ≡ true
      → swallows (release w now info vk h) ≡ true
  unfolding release
  release-swallows now info vk h lt s = ground (arith, suppress_key-true now info false h s)

  -- While local input is suppressed, every key event of a device, of any key that has a flag, stops
  -- at the hook, and the hook does not panic.
  pub keyboard_proc-suppressed :
      (now code wparam : ℕ) (info : KeyInfo) (h : HookState)
      → IsReal w code info
      → info.vk_code % 2 ^ 16 < 256
      → h.app.suppress ≡ true
      → swallows (keyboard_proc w now code wparam (some info) h) ≡ true
  keyboard_proc-suppressed now code wparam info h r lt s =
      let vk = info.vk_code % 2 ^ 16 in
      rw (keyboard_proc-real now code wparam info h r) (
        ground (
          arith,
          press-swallows now info vk (note vk true h) lt s,
          release-swallows now info vk (note vk false h) lt s,
        ))
