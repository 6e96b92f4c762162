-- ===== src/Hooks/Mouse.antt =====
-- input/hooks.rs: the mouse hook, when it is installed, what it stops and when it switches.
use remote_input_bridge.Base.{ℕ, ◌≤◌, ◌-◌, ◌%◌, ◌^◌, ◌≡◌, ◌≢◌, ◌↔◌, refl, subst, sym, ◌∙◌, List}
use remote_input_bridge.Base.{[], ◌∷◌, some, Bool, true, arith, All, ◌||◌, ◌&&◌, bit_and}
use remote_input_bridge.Hooks.{Constants, HookState, edge_cooldown_us, mouse_hook_needed}
use remote_input_bridge.Hooks.{apply_mouse_hook}
use remote_input_bridge.Hooks.Procedures.{MouseInfo, mouse_proc}

-- The hook is there exactly when it is needed, and counts as active with the keyboard hook.
pub apply_mouse_hook-present :
    (granted : Bool) (h : HookState)
    → h.hooks_active ≡ (h.keyboard_hook && h.mouse_hook)
    → ((apply_mouse_hook granted h).mouse_hook ≡ (mouse_hook_needed h && (h.mouse_hook || granted)))
      × ((apply_mouse_hook granted h).hooks_active
          ≡ (h.keyboard_hook && (apply_mouse_hook granted h).mouse_hook))
      × ((apply_mouse_hook granted h).app ≡ h.app)
unfolding apply_mouse_hook
apply_mouse_hook-present granted h e = (ground arith, ground arith, ground arith)

pub record MouseEvent : Type 0 where
  pub now : ℕ
  pub code : ℕ
  pub wparam : ℕ
  pub info : MouseInfo

-- An event that comes too soon after the last switch at the edge.
unfoldable pub IsWithin : ℕ → MouseEvent → Type 0
IsWithin since e = e.now - since ≤ edge_cooldown_us

module _ (w : Constants) where
  -- An event of the mouse is kept from the other programs exactly when local input is suppressed and
  -- the event is one of a device and no movement.
  pub mouse_proc-stops :
      (now code wparam : ℕ) (info : MouseInfo) (h : HookState)
      → ((mouse_proc w now code wparam (some info) h).1 ≡ true) ↔ (
          (code ≡ w.hc_action)
          × (bit_and info.flags w.llmhf_injected ≡ 0)
          × (h.app.suppress ≡ true)
          × (wparam % 2 ^ 32 ≢ w.wm_mousemove))
  unfolding mouse_proc
  mouse_proc-stops now code wparam info h = ((λ e. ground arith), (λ e. ground arith))

  unfoldable pub run_mouse : List MouseEvent → HookState → HookState
  run_mouse [] h = h
  run_mouse (e ∷ es) h = run_mouse es (mouse_proc w e.now e.code e.wparam (some e.info) h).0

  mouse_proc-cool :
      (e : MouseEvent) (h : HookState)
      → IsWithin h.last_edge_switch_us e
      → let after = (mouse_proc w e.now e.code e.wparam (some e.info) h).0 in
        (after.app ≡ h.app) × (after.last_edge_switch_us ≡ h.last_edge_switch_us)
  unfolding mouse_proc IsWithin
  mouse_proc-cool e h within = (ground arith, ground arith)

  -- After a switch at the edge, or at any time, the mouse does nothing to the state of the program
  -- for as long as its events come within 700 ms of the last switch.
  pub run_mouse-cool :
      (es : List MouseEvent) (h : HookState)
      → All (IsWithin h.last_edge_switch_us) es
      → (run_mouse es h).app ≡ h.app
  unfolding run_mouse
  run_mouse-cool [] h within = refl
  run_mouse-cool (e ∷ es) h (first, rest) =
      let after = (mouse_proc w e.now e.code e.wparam (some e.info) h).0 in
      let (same, last) = mouse_proc-cool e h first in
      run_mouse-cool es after (subst (λ since. All (IsWithin since) es) (sym last) rest) ∙ same
