-- ===== src/Hooks/Swallowed.antt =====
-- input/hooks.rs: the flags `SWALLOWED` over sequences of key events.
use remote_input_bridge.Base.{ℕ, ◌%◌, ◌^◌, ◌≡◌, ◌≢◌, refl, ap, sym, ◌∙◌, List, [], ◌∷◌, Option}
use remote_input_bridge.Base.{none, some, Bool, true, false, arith, All, bit_and, >>=-some, ◌>>=◌}
use remote_input_bridge.Tracker.{match_vk}
use remote_input_bridge.Hooks.{Constants, HookState, capture_target}
use remote_input_bridge.Hooks.Procedures.{KeyInfo, swallow, swallow_and_stop, end_capture}
use remote_input_bridge.Hooks.Procedures.{suppress_key, fire, press_plain, press, release}
use remote_input_bridge.Hooks.Procedures.{forward_swallowed_key, keyboard_proc}
use remote_input_bridge.Hooks.Keyboard.{IsReal, note, keyboard_proc-real}

pub record KeyEvent : Type 0 where
  pub now : ℕ
  pub wparam : ℕ
  pub info : KeyInfo

abbrev pub vk_of : KeyEvent → ℕ
vk_of e = e.info.vk_code % 2 ^ 16

module _ (w : Constants) where
  abbrev pub proc : KeyEvent → HookState → Option (HookState × Bool)
  proc e h = keyboard_proc w e.now w.hc_action e.wparam (some e.info) h

  -- The events one after the other; no result if the hook panics.
  unfoldable pub run_keys : List KeyEvent → HookState → Option HookState
  run_keys [] h = some h
  run_keys (e ∷ es) h = do r ← proc e h; run_keys es r.0

  abbrev pub IsPhysical : KeyEvent → Type 0
  IsPhysical e = bit_and e.info.flags w.llkhf_injected ≡ 0

  -- Events of devices, none of them of the key `vk`.
  abbrev pub IsElsewhere : ℕ → KeyEvent → Type 0
  IsElsewhere vk e = IsPhysical e × (vk_of e ≢ vk)

  pub capture_target-swallowed :
      (now : ℕ) (h : HookState)
      → ((capture_target now h).0.swallowed ≡ h.swallowed)
        × ((capture_target now h).0.hook_mods ≡ h.hook_mods)
        × ((capture_target now h).0.app ≡ h.app)
  unfolding capture_target
  capture_target-swallowed now h = (ground arith, ground arith, ground arith)

  suppress_key-swallowed :
      (now : ℕ) (info : KeyInfo) (down : Bool) (h : HookState)
      → (suppress_key w now info down h).0.swallowed ≡ h.swallowed
  unfolding suppress_key forward_swallowed_key
  suppress_key-swallowed now info down h = ground arith

  end_capture-swallowed :
      (control vk : ℕ) (h : HookState) → (end_capture control vk h).swallowed ≡ h.swallowed
  unfolding end_capture
  end_capture-swallowed control vk h = ground arith

  -- The flag of a key after an event; a panic has no result.
  abbrev flag_after : ℕ → HookState → Option (HookState × Bool) → Bool
  flag_after vk h none = h.swallowed vk
  flag_after vk h (some (after, stopped)) = after.swallowed vk

  flag-swallow_and_stop :
      (vk key : ℕ) (h g : HookState)
      → key ≢ vk
      → g.swallowed vk ≡ h.swallowed vk
      → flag_after vk h (swallow_and_stop key g) ≡ h.swallowed vk
  unfolding swallow
  flag-swallow_and_stop vk key h g ne e = ground arith

  flag-suppress_key :
      (vk now : ℕ) (info : KeyInfo) (down : Bool) (h g : HookState)
      → g.swallowed vk ≡ h.swallowed vk
      → flag_after vk h (some (suppress_key w now info down g)) ≡ h.swallowed vk
  flag-suppress_key vk now info down h g e =
      ap (λ (flags : ℕ → Bool). flags vk) (suppress_key-swallowed now info down g) ∙ e

  flag-press_plain :
      (vk now : ℕ) (info : KeyInfo) (key : ℕ) (h g : HookState)
      → key ≢ vk
      → g.swallowed vk ≡ h.swallowed vk
      → flag_after vk h (press_plain w now info key g) ≡ h.swallowed vk
  unfolding press_plain fire
  flag-press_plain vk now info key h g ne e =
      let asked = (capture_target now g).0 in
      let kept = ap (λ (flags : ℕ → Bool). flags vk) (capture_target-swallowed now g).0 ∙ e in
      elim ((capture_target now g).1)
        as (λ o.
          flag_after vk h (elim o [
            | some c ↦ swallow_and_stop key (end_capture c key asked)
            | none ↦ elim (match_vk asked.app.hotkeys key asked.hook_mods) [
              | some action ↦ fire w now action key asked
              | none ↦ some (suppress_key w now info true asked)
            ]
          ])
          ≡ h.swallowed vk) [
            | some c ↦
                flag-swallow_and_stop vk key h (end_capture c key asked) ne
                  (ap (λ (flags : ℕ → Bool). flags vk) (end_capture-swallowed c key asked) ∙ kept)
            | none ↦
                elim (match_vk asked.app.hotkeys key asked.hook_mods)
                  as (λ o.
                    flag_after vk h (elim o [
                      | some action ↦ fire w now action key asked
                      | none ↦ some (suppress_key w now info true asked)
                    ])
                    ≡ h.swallowed vk) [
                      | some action ↦ flag-swallow_and_stop vk key h _ ne kept
                      | none ↦ flag-suppress_key vk now info true h asked kept
                    ]
          ]

  flag-press :
      (vk now : ℕ) (info : KeyInfo) (key : ℕ) (h g : HookState)
      → key ≢ vk
      → g.swallowed vk ≡ h.swallowed vk
      → flag_after vk h (press w now info key g) ≡ h.swallowed vk
  unfolding press
  flag-press vk now info key h g ne e =
      let asked = (capture_target now g).0 in
      let kept = ap (λ (flags : ℕ → Bool). flags vk) (capture_target-swallowed now g).0 ∙ e in
      ground (
        arith,
        flag-press_plain vk now info key h g ne e,
        flag-suppress_key vk now info true h asked kept,
      )

  flag-release :
      (vk now : ℕ) (info : KeyInfo) (key : ℕ) (h g : HookState)
      → key ≢ vk
      → g.swallowed vk ≡ h.swallowed vk
      → flag_after vk h (release w now info key g) ≡ h.swallowed vk
  unfolding release
  flag-release vk now info key h g ne e = ground (arith, flag-suppress_key vk now info false h g e)

  -- An event of another key leaves the flag.
  flag-proc :
      (vk : ℕ) (e : KeyEvent) (h : HookState)
      → IsElsewhere vk e
      → flag_after vk h (proc e h) ≡ h.swallowed vk
  flag-proc vk e h (physical, ne) =
      let real : IsReal w w.hc_action e.info = record { action = refl; physical = physical } in
      let key = vk_of e in
      rw (keyboard_proc-real w e.now w.hc_action e.wparam e.info h real) (
        ground (
          arith,
          flag-press vk e.now e.info key h (note key true h) ne refl,
          flag-release vk e.now e.info key h (note key false h) ne refl,
        ))

  pub flag-run_keys :
      (vk : ℕ) (es : List KeyEvent) (h after : HookState)
      → All (IsElsewhere vk) es
      → run_keys es h ≡ some after
      → after.swallowed vk ≡ h.swallowed vk
  unfolding run_keys
  flag-run_keys vk [] h after away ran = cc
  flag-run_keys vk (e ∷ es) h after away ran =
      let (r, ran', rest) = >>=-some (proc e h) _ ran in
      flag-run_keys vk es (r.0) after away.1 rest
      ∙ ap (flag_after vk h) (sym ran')
      ∙ flag-proc vk e h away.0
