-- ===== src/Startup/Diagnose.antt =====
-- main.rs, `diagnose`: each condition is reported once.
use remote_input_bridge.Base.{
  ℕ, ◌+◌, ◌%◌, ◌^◌, ◌≡◌, refl, List, [], ◌∷◌, ◌++◌, Bool, true, false, not, ◌&&◌, ◌||◌, ◌==◌,
  if◌then◌else◌, arith,
}
use remote_input_bridge.App.{is_remote}
use remote_input_bridge.Hooks.{HookState}
use remote_input_bridge.Startup.Main.{
  Reported, Report, no_messages_arrive, no_events_read, suppression_inactive, report_messages,
  report_suppression, diagnose,
}

abbrev pub unreported : Reported
unreported = record { no_messages = false; no_events = false; no_suppression = false }

-- One call a second.
pub run_diagnose : List HookState → Reported → List Report
run_diagnose [] r = []
run_diagnose (h ∷ hs) r = (diagnose h r).0 ++ run_diagnose hs (diagnose h r).1

same_report : Report → Report → Bool
same_report no_messages_arrive no_messages_arrive = true
same_report no_events_read no_events_read = true
same_report suppression_inactive suppression_inactive = true
same_report x y = false

pub count : Report → List Report → ℕ
unfolding same_report
count x [] = 0
count x (y ∷ ys) = (if same_report x y then 1 else 0) + count x ys

flag : Report → Reported → Bool
flag no_messages_arrive r = r.no_messages
flag no_events_read r = r.no_events
flag suppression_inactive r = r.no_suppression

events : HookState → ℕ
events h = (h.app.tel.raw_mouse_events + h.app.tel.raw_kbd_events) % 2 ^ 64

-- That the input is on the Mac, and the condition of the report holds.
pub holds : Report → HookState → Bool
unfolding events
holds no_messages_arrive h = is_remote h.app.target && h.app.tel.wm_input_messages == 0
holds no_events_read h =
    is_remote h.app.target && (not (h.app.tel.wm_input_messages == 0) && events h == 0)
holds suppression_inactive h =
    is_remote h.app.target && (h.app.cfg.suppress_local_input && not h.hooks_active)

pub ever : Report → List HookState → Bool
ever x [] = false
ever x (h ∷ hs) = holds x h || ever x hs

abbrev unit : Bool → ℕ
unit b = if b then 1 else 0

diagnose-count :
    (x : Report) (h : HookState) (r : Reported)
    → (count x (diagnose h r).0 + unit (flag x r) ≡ unit (flag x (diagnose h r).1))
      × (flag x (diagnose h r).1 ≡ (flag x r || holds x h))
unfolding diagnose count flag holds report_messages report_suppression
diagnose-count no_messages_arrive h r = (ground arith, ground arith)
diagnose-count no_events_read h r = (ground arith, ground arith)
diagnose-count suppression_inactive h r = (ground arith, ground arith)

count-append : (x : Report) (xs ys : List Report) → count x (xs ++ ys) ≡ count x xs + count x ys
unfolding count
count-append x [] ys = omega arith
count-append x (y ∷ xs) ys = omega (arith, count-append x xs ys)

run_diagnose-counts :
    (x : Report) (hs : List HookState) (r : Reported)
    → count x (run_diagnose hs r) + unit (flag x r) ≡ unit (flag x r || ever x hs)
unfolding run_diagnose count ever
run_diagnose-counts x [] r = ground arith
run_diagnose-counts x (h ∷ hs) r = ground (
  arith,
  diagnose-count x h r,
  count-append x (diagnose h r).0 (run_diagnose hs (diagnose h r).1),
  run_diagnose-counts x hs (diagnose h r).1,
)

flag-unreported : (x : Report) → flag x unreported ≡ false
unfolding flag
flag-unreported no_messages_arrive = refl
flag-unreported no_events_read = refl
flag-unreported suppression_inactive = refl

-- However often the second comes round, each report is made once if its condition held at some time
-- while the Mac had the input, and never otherwise.
pub run_diagnose-once :
    (x : Report) (hs : List HookState)
    → count x (run_diagnose hs unreported) ≡ (if ever x hs then 1 else 0)
run_diagnose-once x hs = ground (arith, run_diagnose-counts x hs unreported, flag-unreported x)
