-- ===== src/RawInput/Delivery.antt =====
-- input/raw_input.rs: what `WM_INPUT` delivers.
use remote_input_bridge.Base.{ℕ, ◌+◌, ◌≡◌, ◌≢◌, refl, ap, ap₂, sym, ◌∙◌, List, [], ◌∷◌}
use remote_input_bridge.Base.{◌++◌, Option, false, arith, All, map, ◌==◌}
use remote_input_bridge.Base.{length, length-append}
use remote_input_bridge.RawInput.{Flags, RawEvent, RawState, batch, drained}
use remote_input_bridge.RawInput.{count_message}
use remote_input_bridge.RawInput.{dispatch, dispatch_all, drain, on_wm_input}

unfoldable pub concat : List (List RawEvent) → List RawEvent
concat [] = []
concat (es ∷ rest) = es ++ concat rest

abbrev pub IsFilled : List RawEvent → Type 0
IsFilled es = length es ≢ 0

module _ (w : Flags) where
  dispatch_all-append :
      (now : ℕ) (xs ys : List RawEvent) (r : RawState)
      → dispatch_all w now (xs ++ ys) r ≡ dispatch_all w now ys (dispatch_all w now xs r)
  unfolding dispatch_all
  dispatch_all-append now [] ys r = refl
  dispatch_all-append now (x ∷ xs) ys r = dispatch_all-append now xs ys (dispatch w now x r)

module _ (w : Flags) (grow : ℕ → ℕ) where
  drain-batches :
      (now : ℕ) (bs : List (List RawEvent)) (n len : ℕ) (r : RawState)
      → All IsFilled bs
      → drain w grow now (map batch bs ++ drained ∷ []) n len r
        ≡ (n + length (concat bs), len, dispatch_all w now (concat bs) r)
  unfolding drain concat
  drain-batches now [] n len r filled = ap (λ m. (m, len, r)) (omega arith)
  drain-batches now (es ∷ bs) n len r (f, fs) =
      let total : n + length es + length (concat bs) ≡ n + length (es ++ concat bs) =
        omega (arith, length-append es (concat bs)) in
      let filled : (length es == 0) ≡ false = ground arith in
      rw (filled) (
        drain-batches now bs (n + length es) len (dispatch_all w now es r) fs
        ∙ ap₂ (λ m after. (m, len, after)) total (sym (dispatch_all-append w now es (concat bs) r)))

  -- When `WM_INPUT` comes and the buffered reads give reports, in any number of answers, then each of
  -- them is handled once, in their order, and the report of the message itself is not handled again.
  pub on_wm_input-batches :
      (now : ℕ) (es : List RawEvent) (bs : List (List RawEvent)) (single : Option RawEvent)
      (len : ℕ) (r : RawState)
      → All IsFilled (es ∷ bs)
      → on_wm_input w grow now (map batch (es ∷ bs) ++ drained ∷ []) single len r
        ≡ (len, dispatch_all w now (concat (es ∷ bs)) (record r { app = count_message r.app }))
  unfolding on_wm_input
  on_wm_input-batches now es bs single len r filled =
      let counted = record r { app = count_message r.app } in
      let drained_all = drain-batches now (es ∷ bs) 0 len counted filled in
      let some_report : (0 + length (concat (es ∷ bs)) == 0) ≡ false =
        unfold concat in ground (arith, filled.0, length-append es (concat bs)) in
      rw (drained_all, some_report) refl
