-- ===== src/Log/Mirrored.antt =====
-- log.rs: what is printed, and what the Mac is told.
use remote_input_bridge.Base.{ℕ, ◌≡◌, List, [], ◌∷◌, ◌++◌, true, false, ◌&&◌, leb, if◌then◌else◌}
use remote_input_bridge.Base.{arith, append_assoc, append-nil}
use remote_input_bridge.App.{NetMsg, log_line}
use remote_input_bridge.Log.{Log, info, enabled, emit, log, log_all}

-- The lines up to a level.
pub up_to : ℕ → List (ℕ × List ℕ) → List (ℕ × List ℕ)
up_to max [] = []
up_to max ((level, msg) ∷ rest) =
    let kept = up_to max rest in if leb level max then (level, msg) ∷ kept else kept

pub messages : List (ℕ × List ℕ) → List NetMsg
messages [] = []
messages ((level, msg) ∷ rest) = log_line level msg ∷ messages rest

-- One line.
log-mirrors :
    (level : ℕ) (msg : List ℕ) (l : Log)
    → l.forwarding ≡ false
    → let after = log true level msg l in
      (after.forwarding ≡ false)
      × (after.level ≡ l.level)
      × (after.printed ≡ (if leb level l.level then l.printed ++ (level, msg) ∷ [] else l.printed))
      × (after.sent ≡ (
          if leb level l.level && leb level info
          then l.sent ++ log_line level msg ∷ []
          else l.sent))
unfolding log emit enabled
log-mirrors level msg l h = (ground arith, ground arith, ground arith, ground arith)

-- While the program runs, the lines up to the level are printed, in order, and those of them up to
-- `info` go to the Mac, in the same order.
pub log_all-mirrors :
    (lines : List (ℕ × List ℕ)) (l : Log)
    → l.forwarding ≡ false
    → ((log_all true lines l).printed ≡ l.printed ++ up_to l.level lines)
      × ((log_all true lines l).sent ≡ l.sent ++ messages (up_to info (up_to l.level lines)))
unfolding log_all up_to messages
log_all-mirrors [] l h = (ground (arith, append-nil l.printed), ground (arith, append-nil l.sent))
log_all-mirrors ((level, msg) ∷ rest) l h =
    let (quiet, same, printed, sent) = log-mirrors level msg l h in
    let (p, s) = log_all-mirrors rest (log true level msg l) quiet in
    (
      ground (arith, append_assoc l.printed ((level, msg) ∷ []) (up_to l.level rest)),
      ground (
        arith,
        append_assoc l.sent (log_line level msg ∷ []) (messages (up_to info (up_to l.level rest))),
      ),
    )
