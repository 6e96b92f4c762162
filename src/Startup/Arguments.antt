-- ===== src/Startup/Arguments.antt =====
-- main.rs, `parse_args`: the options of the help, as they are typed and as they are read.
use remote_input_bridge.Base.{ℕ, ◌^◌, ◌<◌, ◌≡◌, refl, ap, ◌∙◌, append_assoc, List, [], ◌∷◌, ◌++◌}
use remote_input_bridge.Base.{some, All, true}
use remote_input_bridge.Base.Text.{ascii}
use remote_input_bridge.Base.Decimal.{decimal, parse_number-decimal}
use remote_input_bridge.Startup.{Text, Args, Flag, find_word, flags, valued, set_flag, number_or}
use remote_input_bridge.Startup.{set_value, parse_last, parse_words}

-- An option of the command line, with its value.
pub data Choice : Type 0 where
  short_help short_version : Choice
  flag : Flag → Choice
  mac_host : Text → Choice
  tcp_port : ℕ → Choice
  udp_port : ℕ → Choice
  interval_ms : ℕ → Choice
  pair_code : Text → Choice
  log_level : Text → Choice

-- Ports have 16 bits, the interval 32.
unfoldable pub IsInRange : Choice → Type 0
IsInRange (tcp_port n) = n < 2 ^ 16
IsInRange (udp_port n) = n < 2 ^ 16
IsInRange (interval_ms n) = n < 2 ^ 32
IsInRange c = Unit {0}

flag_name : Flag → Text
flag_name Flag.help = ascii "--help"
flag_name Flag.version = ascii "--version"
flag_name Flag.console = ascii "--console"
flag_name Flag.diagnostics = ascii "--diagnostics"
flag_name Flag.no_tray = ascii "--no-tray"
flag_name Flag.show = ascii "--show"
flag_name Flag.save = ascii "--save"
flag_name Flag.no_suppress = ascii "--no-suppress"
flag_name Flag.no_udp = ascii "--no-udp"

words_of : Choice → List Text
unfolding flag_name
words_of short_help = ascii "-h" ∷ []
words_of short_version = ascii "-V" ∷ []
words_of (flag f) = flag_name f ∷ []
words_of (mac_host t) = ascii "--mac" ∷ t ∷ []
words_of (tcp_port n) = ascii "--tcp-port" ∷ decimal n ∷ []
words_of (udp_port n) = ascii "--udp-port" ∷ decimal n ∷ []
words_of (interval_ms n) = ascii "--interval" ∷ decimal n ∷ []
words_of (pair_code t) = ascii "--pair" ∷ t ∷ []
words_of (log_level t) = ascii "--log" ∷ t ∷ []

-- The options as they are typed.
pub render : List Choice → List Text
unfolding words_of
render [] = []
render (c ∷ cs) = words_of c ++ render cs

-- The settings that a flag stands for in the help, `--diagnostics` being like `--console`.
choose_flag : Flag → Args → Args
choose_flag Flag.help args = record args { help = true }
choose_flag Flag.version args = record args { version = true }
choose_flag Flag.console args = record args { console = true }
choose_flag Flag.diagnostics args = record args { console = true; diagnostics = true }
choose_flag Flag.no_tray args = record args { no_tray = true }
choose_flag Flag.show args = record args { show = true }
choose_flag Flag.save args = record args { save = true }
choose_flag Flag.no_suppress args = record args { no_suppress = true }
choose_flag Flag.no_udp args = record args { no_udp = true }

choose : Choice → Args → Args
unfolding choose_flag
choose short_help args = record args { help = true }
choose short_version args = record args { version = true }
choose (flag f) args = choose_flag f args
choose (mac_host t) args = record args { mac_host = some t }
choose (tcp_port n) args = record args { tcp_port = some n }
choose (udp_port n) args = record args { udp_port = some n }
choose (interval_ms n) args = record args { interval_ms = some n }
choose (pair_code t) args = record args { pair_code = some t }
choose (log_level t) args = record args { log_level = some t }

-- The settings that the options make, in their order: the last one of a kind counts.
pub choose_all : List Choice → Args → Args
unfolding choose
choose_all [] args = args
choose_all (c ∷ cs) args = choose_all cs (choose c args)

flag-found : (f : Flag) → find_word (flag_name f) flags ≡ some f
unfolding find_word flags flag_name
flag-found Flag.help = refl
flag-found Flag.version = refl
flag-found Flag.console = refl
flag-found Flag.diagnostics = refl
flag-found Flag.no_tray = refl
flag-found Flag.show = refl
flag-found Flag.save = refl
flag-found Flag.no_suppress = refl
flag-found Flag.no_udp = refl

set_flag-choose_flag : (f : Flag) (args : Args) → set_flag f args ≡ choose_flag f args
unfolding set_flag choose_flag
set_flag-choose_flag Flag.help args = refl
set_flag-choose_flag Flag.version args = refl
set_flag-choose_flag Flag.console args = refl
set_flag-choose_flag Flag.diagnostics args = refl
set_flag-choose_flag Flag.no_tray args = refl
set_flag-choose_flag Flag.show args = refl
set_flag-choose_flag Flag.save args = refl
set_flag-choose_flag Flag.no_suppress args = refl
set_flag-choose_flag Flag.no_udp args = refl

-- A word that stands for a flag, with its effect.
parse_words-flag :
    (word : Text) (f : Flag) (rest : List Text) (args : Args)
    → find_word word flags ≡ some f
    → parse_words (word ∷ rest) args ≡ parse_words rest (choose_flag f args)
unfolding parse_words parse_last
parse_words-flag word f [] args e =
    rw (e, parse_words, parse_last, set_flag-choose_flag f args) refl
parse_words-flag word f (w ∷ ws) args e = rw (e, parse_words, set_flag-choose_flag f args) refl

parse_words-choice :
    (c : Choice) (rest : List Text) (args : Args)
    → IsInRange c
    → parse_words (words_of c ++ rest) args ≡ parse_words rest (choose c args)
unfolding parse_words words_of choose choose_flag set_value find_word flags valued number_or
    IsInRange
parse_words-choice short_help rest args h = parse_words-flag (ascii "-h") Flag.help rest args refl
parse_words-choice short_version rest args h =
    parse_words-flag (ascii "-V") Flag.version rest args refl
parse_words-choice (flag f) rest args h = parse_words-flag (flag_name f) f rest args (flag-found f)
parse_words-choice (mac_host t) rest args h = refl
parse_words-choice (tcp_port n) rest args h = rw (parse_number-decimal (2 ^ 16) n h)
parse_words-choice (udp_port n) rest args h = rw (parse_number-decimal (2 ^ 16) n h)
parse_words-choice (interval_ms n) rest args h = rw (parse_number-decimal (2 ^ 32) n h)
parse_words-choice (pair_code t) rest args h = refl
parse_words-choice (log_level t) rest args h = refl

-- Options in range that are typed in any order, with any words after them, are read in that order, a
-- later one over an earlier one of its kind, and then the words after them.
pub parse_words-render :
    (cs : List Choice) (rest : List Text) (args : Args)
    → All IsInRange cs
    → parse_words (render cs ++ rest) args ≡ parse_words rest (choose_all cs args)
unfolding render choose_all
parse_words-render [] rest args h = refl
parse_words-render (c ∷ cs) rest args h =
    ap (λ ws. parse_words ws args) (append_assoc (words_of c) (render cs) rest)
    ∙ parse_words-choice c (render cs ++ rest) args h.0
    ∙ parse_words-render cs rest (choose c args) h.1
