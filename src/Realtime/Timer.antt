-- ===== src/Realtime/Timer.antt =====
-- net/realtime.rs, `platform::PreciseTimer`: the timer of Windows, whose calls answer by arguments, and
-- the pacing elsewhere. A handle is 0 for none; times are in microseconds.
use remote_input_bridge.Base.{
  ℕ, ◌+◌, ◌-◌, ◌*◌, ◌/◌, max, List, [], ◌∷◌, ◌++◌, Option, none, some, Bool, true, false, ◌==◌, ltb,
  if◌then◌else◌,
}
pub mod Closed
pub mod Paced

pub record Timer : Type 0 where
  pub handle : ℕ
  pub fallback : Option ℕ
  pub raised_period : Bool

-- The calls: the period of the system clock, a timer set with its due time in units of 100 ns and its
-- period in ms, and the waits.
pub data Call : Type 0 where
  begin_period end_period : Call
  set_timer : (handle due_100ns interval_ms : ℕ) → Call
  close_handle : ℕ → Call
  sleep : ℕ → Call
  wait_for : ℕ → Call

-- `interval_us / 1000` milliseconds, at least one.
unfoldable pub interval_ms : ℕ → ℕ
interval_ms interval_us = max (interval_us / 1000) 1

abbrev pub sleeping : ℕ → Timer
sleeping interval_us = record { handle = 0; fallback = some interval_us; raised_period = true }

-- `PreciseTimer::new` with a handle, and whether the timer could be set.
unfoldable pub armed : ℕ → Bool → ℕ → Timer × List Call
unfolding interval_ms
armed handle is_set interval_us =
    let call = set_timer handle (interval_us * 10) (interval_ms interval_us) in
    if is_set
    then (record { handle = handle; fallback = none; raised_period = true }, call ∷ [])
    else (sleeping interval_us, call ∷ close_handle handle ∷ [])

-- The handle of the two attempts to make a timer, of high resolution and without.
unfoldable pub created : ℕ → ℕ → ℕ
created first second = if first == 0 then second else first

unfoldable pub new : ℕ → ℕ → Bool → ℕ → Timer × List Call
unfolding created armed
new first second is_set interval_us =
    let handle = created first second in
    let (timer, calls) =
      if handle == 0 then (sleeping interval_us, []) else armed handle is_set interval_us in
    (timer, begin_period ∷ calls)

unfoldable pub wait : Timer → Call
wait t = elim t.fallback [ none ↦ wait_for t.handle | some duration ↦ sleep duration ]

-- `Drop`.
unfoldable pub drop : Timer → List Call
drop t =
    (if t.handle == 0 then [] else close_handle t.handle ∷ [])
    ++ (if t.raised_period then end_period ∷ [] else [])

-- The timer elsewhere: absolute deadlines.
pub record Pace : Type 0 where
  pub period : ℕ
  pub next : ℕ

unfoldable pub start_pace : ℕ → ℕ → Pace
start_pace interval_us now = record { period = interval_us; next = now + interval_us }

-- A wait that starts at a time: how long it sleeps, if it does, and the next deadline. The time is
-- read once, before the sleep.
unfoldable pub wait_pace : ℕ → Pace → Option ℕ × Pace
wait_pace now p =
    let sleeps = if ltb now p.next then some (p.next - now) else none in
    let later = p.next + p.period in
    (sleeps, record p { next = if ltb later now then now + p.period else later })
