-- ===== src/Realtime/Timer/Paced.antt =====
-- net/realtime.rs, `platform::PreciseTimer` elsewhere: deadlines do not drift.
use remote_input_bridge.Base.{ℕ, ◌+◌, ◌*◌, ◌≡◌, ◌≤◌, ◌∙◌, refl, List, [], ◌∷◌, arith, length}
use remote_input_bridge.Realtime.Timer.{Pace, start_pace, wait_pace}

-- The waits that start at the given times.
pub run : List ℕ → Pace → Pace
run [] p = p
run (now ∷ rest) p = run rest (wait_pace now p).1

-- Each wait starts at most a period after its deadline.
pub IsTimely : List ℕ → Pace → Type 0
IsTimely [] p = Unit {0}
IsTimely (now ∷ rest) p = (now ≤ p.next + p.period) × IsTimely rest (wait_pace now p).1

run-next :
    (times : List ℕ) (p : Pace)
    → IsTimely times p
    → ((run times p).period ≡ p.period) × ((run times p).next ≡ p.next + length times * p.period)
unfolding run IsTimely wait_pace
run-next [] p h = (refl, omega arith)
run-next (now ∷ rest) p h =
    let (same, last) = run-next rest (wait_pace now p).1 h.1 in
    let step : (wait_pace now p).1.next ≡ p.next + p.period = ground (arith, h.0) in
    (same, last ∙ rw step (omega arith))

-- When each wait starts at most a period after the deadline before it, the deadlines stay on the grid
-- of the start, however long the work between two waits takes and however much the sleeps are off.
pub run-IsExact :
    (interval_us start : ℕ) (times : List ℕ)
    → IsTimely times (start_pace interval_us start)
    → (run times (start_pace interval_us start)).next ≡ start + (length times + 1) * interval_us
unfolding start_pace
run-IsExact interval_us start times h =
    (run-next times (start_pace interval_us start) h).1 ∙ omega arith
