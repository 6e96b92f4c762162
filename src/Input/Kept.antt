-- ===== src/Input/Kept.antt =====
-- input/mod.rs: what the handlers and the dispatch of a hotkey leave of the state, but for the two
-- operations by which a hotkey moves the input.
use remote_input_bridge.Base.{ℕ, ◌≡◌, refl, arith, Bool, if-either}
use remote_input_bridge.Tracker.{HotkeyAction, KeyDecision, forward, drop, hotkey}
use remote_input_bridge.App.{AppState}
use remote_input_bridge.Input.{handle_key_event, handle_button_event, handle_scroll, is_duplicate}
use remote_input_bridge.Input.{perform_action, dispatch, dispatch_decision, key_event}

-- Two states with the same configuration, hotkeys, link, target and suppression.
pub record IsAlike (a b : AppState) : Type 0 where
  pub cfg : b.cfg ≡ a.cfg
  pub hotkeys : b.hotkeys ≡ a.hotkeys
  pub edge : b.edge_switch ≡ a.edge_switch
  pub preference : b.suppress_preference ≡ a.suppress_preference
  pub link : b.link ≡ a.link
  pub target : b.target ≡ a.target
  pub suppress : b.suppress ≡ a.suppress
  pub clip : b.clip_active ≡ a.clip_active

handle_key_event-IsAlike :
    (hid : ℕ) (down : Bool) (st : AppState) → IsAlike st (handle_key_event hid down st).0
unfolding handle_key_event
handle_key_event-IsAlike hid down st = record {
  cfg = ground arith;
  hotkeys = ground arith;
  edge = ground arith;
  preference = ground arith;
  link = ground arith;
  target = ground arith;
  suppress = ground arith;
  clip = ground arith;
}

handle_button_event-IsAlike :
    (index : ℕ) (down : Bool) (st : AppState) → IsAlike st (handle_button_event index down st).0
unfolding handle_button_event
handle_button_event-IsAlike index down st = record {
  cfg = ground arith;
  hotkeys = ground arith;
  edge = ground arith;
  preference = ground arith;
  link = ground arith;
  target = ground arith;
  suppress = ground arith;
  clip = ground arith;
}

-- A property of the state that rests on those fields, and that the actions of the hotkeys keep.
pub record IsKept (P : AppState → Type 0) : Type 0 where
  pub alike : (a b : AppState) → IsAlike a b → P a → P b
  pub acts : (action : HotkeyAction) (st : AppState) → P st → P (perform_action action st)

module _ (P : AppState → Type 0) (kept : IsKept P) where
  pub dispatch-keeps :
      (now : ℕ) (action : HotkeyAction) (st : AppState) → P st → P (dispatch now action st)
  unfolding dispatch
  dispatch-keeps now action st h =
      if-either P (is_duplicate now action st) _ _ (λ again. h)
        (λ new. kept.acts action _ (
          kept.alike st _
            (record {
              cfg = refl;
              hotkeys = refl;
              edge = refl;
              preference = refl;
              link = refl;
              target = refl;
              suppress = refl;
              clip = refl;
            })
            h))

  dispatch_decision-keeps :
      (now : ℕ) (d : KeyDecision) (st : AppState) → P st → P (dispatch_decision now d st)
  unfolding dispatch_decision
  dispatch_decision-keeps now (forward repeat) st h = h
  dispatch_decision-keeps now drop st h = h
  dispatch_decision-keeps now (hotkey action) st h = dispatch-keeps now action st h

  pub key_event-keeps :
      (now hid : ℕ) (down : Bool) (st : AppState) → P st → P (key_event now hid down st)
  unfolding key_event
  key_event-keeps now hid down st h =
      dispatch_decision-keeps now _ _ (kept.alike st _ (handle_key_event-IsAlike hid down st) h)

  pub handle_button_event-keeps :
      (index : ℕ) (down : Bool) (st : AppState) → P st → P (handle_button_event index down st).0
  handle_button_event-keeps index down st h =
      kept.alike st _ (handle_button_event-IsAlike index down st) h

  pub handle_scroll-keeps : (x y : ℕ) (st : AppState) → P st → P (handle_scroll x y st)
  unfolding handle_scroll
  handle_scroll-keeps x y st h =
      kept.alike st _
        (record {
          cfg = refl;
          hotkeys = refl;
          edge = refl;
          preference = refl;
          link = refl;
          target = refl;
          suppress = refl;
          clip = refl;
        })
        h
