-- ===== src/RawInput/Absolute.antt =====
-- input/raw_input.rs, `handle_mouse`: absolute and relative reports in one stream.
use remote_input_bridge.Base.{ℕ, ◌+◌, ◌-◌, ◌%◌, ◌^◌, ◌<◌, ◌≡◌, refl, Bool-cases, inl, inr, ap}
use remote_input_bridge.Base.{ap₂, subst, sym, ◌∙◌, List, [], ◌∷◌, Bool, true, arith, All, ◌==◌}
use remote_input_bridge.Base.{if◌then◌else◌}
use remote_input_bridge.App.{AppState}
use remote_input_bridge.Input.{handle_button_event, handle_scroll}
use remote_input_bridge.RawInput.{Flags, RawMouse, RawState, has_flag, i32_sub, move_absolute}
use remote_input_bridge.RawInput.{move_relative, scroll_wheel, press_buttons, button_flags}
use remote_input_bridge.RawInput.{count_mouse, handle_mouse}

-- The reports one after the other.
unfoldable pub run_mouse : Flags → List RawMouse → RawState → RawState
run_mouse w [] r = r
run_mouse w (m ∷ ms) r = run_mouse w ms (handle_mouse w m r)

-- What a report adds, if it is relative.
abbrev pub relative : Flags → (RawMouse → ℕ) → RawMouse → ℕ
relative w field m = if has_flag m.us_flags w.mouse_move_absolute then 0 else field m

-- What the relative reports add up to.
unfoldable pub sum_relative : Flags → (RawMouse → ℕ) → List RawMouse → ℕ
sum_relative w field [] = 0
sum_relative w field (m ∷ ms) = relative w field m + sum_relative w field ms

-- How far the total is ahead of the position of the last absolute report.
abbrev pub ahead : ℕ → ℕ → ℕ
ahead total at = (total + 2 ^ 32 - at) % 2 ^ 32

-- An absolute report has come, and the positions are in range.
pub record IsTracked (r : RawState) : Type 0 where
  pub valid : r.abs_valid ≡ true
  pub x-lt : r.abs_x < 2 ^ 32
  pub y-lt : r.abs_y < 2 ^ 32
  pub total_x-lt : r.app.total_x < 2 ^ 32
  pub total_y-lt : r.app.total_y < 2 ^ 32

abbrev pub IsInRange : RawMouse → Type 0
IsInRange m = (m.last_x < 2 ^ 32) × (m.last_y < 2 ^ 32)

-- Two states with the same totals.
abbrev SameTotals : AppState → AppState → Type 0
SameTotals a b = (a.total_x ≡ b.total_x) × (a.total_y ≡ b.total_y)

handle_button_event-totals :
    (index : ℕ) (down : Bool) (st : AppState) → SameTotals (handle_button_event index down st).0 st
unfolding handle_button_event
handle_button_event-totals index down st = (ground arith, ground arith)

press_buttons-totals :
    (flags : ℕ) (table : List (ℕ × ℕ × Bool)) (st : AppState)
    → SameTotals (press_buttons flags table st) st
unfolding press_buttons
press_buttons-totals flags [] st = (refl, refl)
press_buttons-totals flags ((flag, index, down) ∷ rest) st =
    let pressed = if has_flag flags flag then (handle_button_event index down st).0 else st in
    let (x, y) = press_buttons-totals flags rest pressed in
    let (x', y') = handle_button_event-totals index down st in (ground arith, ground arith)

scroll_wheel-totals :
    (raw : ℕ) (wheel hwheel : Bool) (st : AppState)
    → SameTotals (scroll_wheel raw wheel hwheel st) st
unfolding scroll_wheel handle_scroll
scroll_wheel-totals raw wheel hwheel st = (ground arith, ground arith)

absolute_ahead :
    (total at x : ℕ)
    → at < 2 ^ 32
    → x < 2 ^ 32
    → ahead ((total + i32_sub x at) % 2 ^ 32) x ≡ (ahead total at + 0) % 2 ^ 32
unfolding i32_sub
absolute_ahead total at x h k = omega arith

relative_ahead :
    (total at d : ℕ) → at < 2 ^ 32 → ahead ((total + d) % 2 ^ 32) at ≡ (ahead total at + d) % 2 ^ 32
relative_ahead total at d h = omega arith

below : (n m : ℕ) → n ≡ m % 2 ^ 32 → n < 2 ^ 32
below n m e = omega arith

move_absolute-totals :
    (x y : ℕ) (r : RawState)
    → IsTracked r
    → ((move_absolute x y r).app.total_x ≡ (r.app.total_x + i32_sub x r.abs_x) % 2 ^ 32)
      × ((move_absolute x y r).app.total_y ≡ (r.app.total_y + i32_sub y r.abs_y) % 2 ^ 32)
unfolding move_absolute
move_absolute-totals x y r t = (
  ground (arith, t.valid, t.total_x-lt, t.total_y-lt),
  ground (arith, t.valid, t.total_x-lt, t.total_y-lt),
)

move_relative-totals :
    (x y : ℕ) (r : RawState)
    → IsTracked r
    → ((move_relative x y r).app.total_x ≡ (r.app.total_x + x) % 2 ^ 32)
      × ((move_relative x y r).app.total_y ≡ (r.app.total_y + y) % 2 ^ 32)
unfolding move_relative
move_relative-totals x y r t =
    (ground (arith, t.total_x-lt, t.total_y-lt), ground (arith, t.total_x-lt, t.total_y-lt))

move_absolute-ahead :
    (x y : ℕ) (r : RawState)
    → IsTracked r
    → (x < 2 ^ 32) × (y < 2 ^ 32)
    → let after = move_absolute x y r in
      IsTracked after
      × (ahead after.app.total_x after.abs_x ≡ (ahead r.app.total_x r.abs_x + 0) % 2 ^ 32)
      × (ahead after.app.total_y after.abs_y ≡ (ahead r.app.total_y r.abs_y + 0) % 2 ^ 32)
unfolding move_absolute
move_absolute-ahead x y r t (hx, hy) =
    let (tx, ty) = move_absolute-totals x y r t in
    (
      record {
        valid = refl;
        x-lt = hx;
        y-lt = hy;
        total_x-lt = below _ _ tx;
        total_y-lt = below _ _ ty;
      },
      ap (λ n. ahead n x) tx ∙ absolute_ahead r.app.total_x r.abs_x x t.x-lt hx,
      ap (λ n. ahead n y) ty ∙ absolute_ahead r.app.total_y r.abs_y y t.y-lt hy,
    )

move_relative-ahead :
    (x y : ℕ) (r : RawState)
    → IsTracked r
    → let after = move_relative x y r in
      IsTracked after
      × (ahead after.app.total_x after.abs_x ≡ (ahead r.app.total_x r.abs_x + x) % 2 ^ 32)
      × (ahead after.app.total_y after.abs_y ≡ (ahead r.app.total_y r.abs_y + y) % 2 ^ 32)
unfolding move_relative
move_relative-ahead x y r t =
    let (tx, ty) = move_relative-totals x y r t in
    (
      record {
        valid = t.valid;
        x-lt = t.x-lt;
        y-lt = t.y-lt;
        total_x-lt = below _ _ tx;
        total_y-lt = below _ _ ty;
      },
      ap (λ n. ahead n r.abs_x) tx ∙ relative_ahead r.app.total_x r.abs_x x t.x-lt,
      ap (λ n. ahead n r.abs_y) ty ∙ relative_ahead r.app.total_y r.abs_y y t.y-lt,
    )

count_mouse-IsTracked :
    (r : RawState) → IsTracked r → IsTracked (record r { app = count_mouse r.app })
unfolding count_mouse
count_mouse-IsTracked r t = record {
  valid = t.valid;
  x-lt = t.x-lt;
  y-lt = t.y-lt;
  total_x-lt = t.total_x-lt;
  total_y-lt = t.total_y-lt;
}

add_mod : (a b d e : ℕ) → b ≡ (a + d) % 2 ^ 32 → (b + e) % 2 ^ 32 ≡ (a + (d + e)) % 2 ^ 32
add_mod a b d e h = omega arith

module _ (w : Flags) where
  abbrev moved : RawMouse → RawState → RawState
  moved m r =
      let counted = record r { app = count_mouse r.app } in
      if has_flag m.us_flags w.mouse_move_absolute
      then move_absolute m.last_x m.last_y counted
      else move_relative m.last_x m.last_y counted

  -- The buttons and the wheel leave the totals and the positions.
  handle_mouse-moved :
      (m : RawMouse) (r : RawState)
      → SameTotals (handle_mouse w m r).app (moved m r).app
        × ((handle_mouse w m r).abs_valid ≡ (moved m r).abs_valid)
        × ((handle_mouse w m r).abs_x ≡ (moved m r).abs_x)
        × ((handle_mouse w m r).abs_y ≡ (moved m r).abs_y)
  unfolding handle_mouse
  handle_mouse-moved m r =
      let turned =
        scroll_wheel m.us_button_data (has_flag m.us_button_flags w.ri_mouse_wheel)
          (has_flag m.us_button_flags w.ri_mouse_hwheel) (moved m r).app in
      let (x, y) = press_buttons-totals m.us_button_flags (button_flags w) turned in
      let (x', y') =
        scroll_wheel-totals m.us_button_data (has_flag m.us_button_flags w.ri_mouse_wheel)
          (has_flag m.us_button_flags w.ri_mouse_hwheel) (moved m r).app in
      elim (Bool-cases (m.us_button_flags == 0)) [
        | inl e ↦ rw (e) ((refl, refl), refl, refl, refl)
        | inr e ↦ rw (e) ((x ∙ x', y ∙ y'), refl, refl, refl)
      ]

  moved-ahead :
      (m : RawMouse) (r : RawState)
      → IsTracked r
      → IsInRange m
      → IsTracked (moved m r)
        × (ahead (moved m r).app.total_x (moved m r).abs_x
            ≡ (ahead r.app.total_x r.abs_x + relative w RawMouse.last_x m) % 2 ^ 32)
        × (ahead (moved m r).app.total_y (moved m r).abs_y
            ≡ (ahead r.app.total_y r.abs_y + relative w RawMouse.last_y m) % 2 ^ 32)
  unfolding count_mouse
  moved-ahead m r t range = elim (Bool-cases (has_flag m.us_flags w.mouse_move_absolute)) [
    | inl e ↦ rw (e) (
        move_absolute-ahead m.last_x m.last_y (record r { app = count_mouse r.app })
          (count_mouse-IsTracked r t) range)
    | inr e ↦ rw (e) (
        move_relative-ahead m.last_x m.last_y (record r { app = count_mouse r.app })
          (count_mouse-IsTracked r t))
  ]

  handle_mouse-ahead :
      (m : RawMouse) (r : RawState)
      → IsTracked r
      → IsInRange m
      → let after = handle_mouse w m r in
        IsTracked after
        × (ahead after.app.total_x after.abs_x
            ≡ (ahead r.app.total_x r.abs_x + relative w RawMouse.last_x m) % 2 ^ 32)
        × (ahead after.app.total_y after.abs_y
            ≡ (ahead r.app.total_y r.abs_y + relative w RawMouse.last_y m) % 2 ^ 32)
  handle_mouse-ahead m r t range =
      let (t', ax, ay) = moved-ahead m r t range in
      let ((tx, ty), v, x, y) = handle_mouse-moved m r in
      (
        record {
          valid = v ∙ t'.valid;
          x-lt = subst (λ n. n < 2 ^ 32) (sym x) t'.x-lt;
          y-lt = subst (λ n. n < 2 ^ 32) (sym y) t'.y-lt;
          total_x-lt = subst (λ n. n < 2 ^ 32) (sym tx) t'.total_x-lt;
          total_y-lt = subst (λ n. n < 2 ^ 32) (sym ty) t'.total_y-lt;
        },
        ap₂ ahead tx x ∙ ax,
        ap₂ ahead ty y ∙ ay,
      )

  pub run_mouse-ahead :
      (ms : List RawMouse) (r : RawState)
      → IsTracked r
      → All IsInRange ms
      → (ahead (run_mouse w ms r).app.total_x (run_mouse w ms r).abs_x
          ≡ (ahead r.app.total_x r.abs_x + sum_relative w RawMouse.last_x ms) % 2 ^ 32)
        × (ahead (run_mouse w ms r).app.total_y (run_mouse w ms r).abs_y
            ≡ (ahead r.app.total_y r.abs_y + sum_relative w RawMouse.last_y ms) % 2 ^ 32)
  unfolding run_mouse sum_relative
  run_mouse-ahead [] r t range = (omega arith, omega arith)
  run_mouse-ahead (m ∷ ms) r t range =
      let (t', x, y) = handle_mouse-ahead m r t range.0 in
      let (xs, ys) = run_mouse-ahead ms (handle_mouse w m r) t' range.1 in
      (xs ∙ add_mod _ _ _ _ x, ys ∙ add_mod _ _ _ _ y)
