-- ===== src/Realtime/Timer/Closed.antt =====
-- net/realtime.rs, `platform::PreciseTimer` on Windows: what it takes it gives back.
use remote_input_bridge.Base.{ℕ, ◌≡◌, List, [], ◌∷◌, ◌++◌, Bool, false, ◌+◌, ◌==◌, if◌then◌else◌}
use remote_input_bridge.Base.{arith}
use remote_input_bridge.Realtime.Timer.{Call, begin_period, end_period, close_handle, sleep}
use remote_input_bridge.Realtime.Timer.{wait_for, armed, created, new, wait, drop}

-- The handles that are closed, in order.
pub closed : List Call → List ℕ
closed [] = []
closed (close_handle h ∷ rest) = h ∷ closed rest
closed (_ ∷ rest) = closed rest

-- The calls that raise the period of the clock, and those that lower it.
pub begun : List Call → ℕ
begun [] = 0
begun (begin_period ∷ rest) = begun rest + 1
begun (_ ∷ rest) = begun rest

pub ended : List Call → ℕ
ended [] = 0
ended (end_period ∷ rest) = ended rest + 1
ended (_ ∷ rest) = ended rest

-- Whether the system has made and set the timer.
abbrev pub is_armed : ℕ → ℕ → Bool → Bool
is_armed first second is_set = if created first second == 0 then false else is_set

-- Whatever the calls of Windows answer, a timer waits on its handle if it was made and set, and sleeps
-- for the interval else; and from its making to its drop each handle that was made is closed once, and
-- the period of the clock is raised once and lowered once.
pub new-drop :
    (first second interval_us : ℕ) (is_set : Bool)
    → let (timer, calls) = new first second is_set interval_us in
      (wait timer ≡ (
        if is_armed first second is_set
        then wait_for (created first second)
        else sleep interval_us))
      × (closed (calls ++ drop timer)
          ≡ (if created first second == 0 then [] else created first second ∷ []))
      × (begun (calls ++ drop timer) ≡ 1)
      × (ended (calls ++ drop timer) ≡ 1)
unfolding new wait drop armed closed begun ended
new-drop first second interval_us is_set = (ground arith, ground arith, ground arith, ground arith)
