-- ===== src/Log.antt =====
-- log.rs: the levels, and which lines are printed and which go to the Mac. The file is the list of the
-- lines printed; the time in front of a line is left out.
use remote_input_bridge.Base.{
  ℕ, List, [], ◌∷◌, ◌++◌, Bool, true, false, not, ◌&&◌, leb, if◌then◌else◌,
}
use remote_input_bridge.Base.Text.{ascii, text_eq}
use remote_input_bridge.Hotkey.{to_ascii_uppercase}
use remote_input_bridge.App.{NetMsg, log_line}
pub mod Mirrored

abbrev pub error : ℕ
error = 0

abbrev pub warn : ℕ
warn = 1

abbrev pub info : ℕ
info = 2

abbrev pub debug : ℕ
debug = 3

abbrev pub trace : ℕ
trace = 4

-- `LEVEL`, `FORWARDING`, the lines printed, and the messages to the network thread.
pub record Log : Type 0 where
  pub level : ℕ
  pub forwarding : Bool
  pub printed : List (ℕ × List ℕ)
  pub sent : List NetMsg

abbrev pub initial : Log
initial = record { level = info; forwarding = false; printed = []; sent = [] }

unfoldable pub level_of : List ℕ → ℕ
unfolding to_ascii_uppercase
level_of name =
    let upper = to_ascii_uppercase name in
    if text_eq upper (ascii "ERROR")
    then error
    else if text_eq upper (ascii "WARN")
    then warn
    else if text_eq upper (ascii "DEBUG")
    then debug
    else if text_eq upper (ascii "TRACE")
    then trace
    else info

unfoldable pub set_level : List ℕ → Log → Log
unfolding level_of
set_level name l = record l { level = level_of name }

unfoldable pub enabled : ℕ → Log → Bool
enabled level l = leb level l.level

-- `emit`; whether the state of the program is there is an argument.
unfoldable pub emit : Bool → ℕ → List ℕ → Log → Log
emit has_state level msg l =
    let line = record l { printed = l.printed ++ (level, msg) ∷ [] } in
    if leb level info && not l.forwarding
    then record line {
      forwarding = false;
      sent = if has_state then l.sent ++ log_line level msg ∷ [] else l.sent;
    }
    else line

-- `error`, `warn`, `info`, `debug` and `trace`.
unfoldable pub log : Bool → ℕ → List ℕ → Log → Log
unfolding enabled emit
log has_state level msg l = if enabled level l then emit has_state level msg l else l

unfoldable pub log_all : Bool → List (ℕ × List ℕ) → Log → Log
unfolding log
log_all has_state [] l = l
log_all has_state ((level, msg) ∷ rest) l = log_all has_state rest (log has_state level msg l)
