-- ===== src/Startup.antt =====
-- main.rs: the arguments, and the configuration that they change. What config.json holds and the host
-- name of the machine are arguments.
use remote_input_bridge.Base.{
  ℕ, ◌^◌, List, [], ◌∷◌, ◌++◌, Option, none, some, Bool, true, false, not, ◌&&◌, ◌||◌,
  if◌then◌else◌,
}
use remote_input_bridge.Base.Text.{ascii, text_eq}
use remote_input_bridge.Base.Decimal.{parse_number}
use remote_input_bridge.Frame.{Result, ok, err}
use remote_input_bridge.Config.{Config, sanitized}
use remote_input_bridge.Config
pub mod Arguments
pub mod Merged
pub mod Main
pub mod Exit
pub mod Diagnose

abbrev pub Text : Type 0
Text = List ℕ

pub record Args : Type 0 where
  pub help : Bool
  pub version : Bool
  pub console : Bool
  pub diagnostics : Bool
  pub no_tray : Bool
  pub show : Bool
  pub save : Bool
  pub mac_host : Option Text
  pub tcp_port : Option ℕ
  pub udp_port : Option ℕ
  pub interval_ms : Option ℕ
  pub pair_code : Option Text
  pub log_level : Option Text
  pub no_suppress : Bool
  pub no_udp : Bool

abbrev pub no_args : Args
no_args = record {
  help = false;
  version = false;
  console = false;
  diagnostics = false;
  no_tray = false;
  show = false;
  save = false;
  mac_host = none;
  tcp_port = none;
  udp_port = none;
  interval_ms = none;
  pair_code = none;
  log_level = none;
  no_suppress = false;
  no_udp = false;
}

-- The arguments that stand alone, and those that take a value.
pub data Flag : Type 0 where
  help version console diagnostics no_tray show save no_suppress no_udp : Flag

pub data Valued : Type 0 where
  mac tcp_port udp_port interval pair log : Valued

unfoldable pub find_word : {A : Type 0} → Text → List (Text × A) → Option A
find_word word [] = none
find_word word ((name, a) ∷ rest) = if text_eq name word then some a else find_word word rest

unfoldable pub flags : List (Text × Flag)
flags =
    (ascii "-h", Flag.help)
    ∷ (ascii "--help", Flag.help)
    ∷ (ascii "-V", Flag.version)
    ∷ (ascii "--version", Flag.version)
    ∷ (ascii "--console", Flag.console)
    ∷ (ascii "--diagnostics", Flag.diagnostics)
    ∷ (ascii "--no-tray", Flag.no_tray)
    ∷ (ascii "--show", Flag.show)
    ∷ (ascii "--save", Flag.save)
    ∷ (ascii "--no-suppress", Flag.no_suppress)
    ∷ (ascii "--no-udp", Flag.no_udp)
    ∷ []

unfoldable pub valued : List (Text × Valued)
valued =
    (ascii "--mac", mac)
    ∷ (ascii "--tcp-port", Valued.tcp_port)
    ∷ (ascii "--udp-port", Valued.udp_port)
    ∷ (ascii "--interval", interval)
    ∷ (ascii "--pair", pair)
    ∷ (ascii "--log", log)
    ∷ []

unfoldable pub set_flag : Flag → Args → Args
set_flag Flag.help args = record args { help = true }
set_flag Flag.version args = record args { version = true }
set_flag Flag.console args = record args { console = true }
set_flag Flag.diagnostics args = record args { diagnostics = true; console = true }
set_flag Flag.no_tray args = record args { no_tray = true }
set_flag Flag.show args = record args { show = true }
set_flag Flag.save args = record args { save = true }
set_flag Flag.no_suppress args = record args { no_suppress = true }
set_flag Flag.no_udp args = record args { no_udp = true }

unfoldable pub number_or : Text → Option ℕ → (ℕ → Args) → Result Text Args
number_or message none set = err message
number_or message (some n) set = ok (set n)

unfoldable pub set_value : Valued → Text → Args → Result Text Args
unfolding number_or parse_number
set_value mac value args = ok (record args { mac_host = some value })
set_value Valued.tcp_port value args =
    number_or (ascii "bad TCP port") (parse_number (2 ^ 16) value)
      λ n. record args { tcp_port = some n }
set_value Valued.udp_port value args =
    number_or (ascii "bad UDP port") (parse_number (2 ^ 16) value)
      λ n. record args { udp_port = some n }
set_value interval value args =
    number_or (ascii "bad interval") (parse_number (2 ^ 32) value)
      λ n. record args { interval_ms = some n }
set_value pair value args = ok (record args { pair_code = some value })
set_value log value args = ok (record args { log_level = some value })

abbrev pub go_on : Result Text Args → (Args → Result Text Args) → Result Text Args
go_on (ok args) next = next args
go_on (err e) next = err e

unknown : Text → Result Text Args
unknown word = err (ascii "unknown argument: " ++ word)

-- The last word of the line.
unfoldable pub parse_last : Text → Args → Result Text Args
unfolding find_word flags valued set_flag unknown
parse_last word args = elim (find_word word flags) [
  | some f ↦ ok (set_flag f args)
  | none ↦ elim (find_word word valued) [
    | some v ↦ err (word ++ ascii " needs a value")
    | none ↦ unknown word
  ]
]

-- The loop over the words of the command line.
unfoldable pub parse_words : List Text → Args → Result Text Args
unfolding find_word flags valued set_flag set_value unknown parse_last
parse_words [] args = ok args
parse_words (word ∷ []) args = parse_last word args
parse_words (word ∷ next ∷ rest) args = elim (find_word word flags) [
  | some f ↦ parse_words (next ∷ rest) (set_flag f args)
  | none ↦ elim (find_word word valued) [
    | some v ↦ go_on (set_value v next args) λ after. parse_words rest after
    | none ↦ unknown word
  ]
]

unfoldable pub parse_args : List Text → Result Text Args
unfolding parse_words
parse_args words = parse_words words no_args

-- `Config::load`: no file, a file that is no configuration, or a configuration.
unfoldable pub load : Text → Option (Option Config) → Option Config
unfolding sanitized Config.default
load hostname none = some (Config.default hostname)
load hostname (some none) = some (Config.default hostname)
load hostname (some (some cfg)) = sanitized hostname cfg

unfoldable pub or_keep : {A : Type 0} → Option A → A → A
or_keep none a = a
or_keep (some b) a = b

-- The part of `build_config` between the load and the cleaning.
unfoldable pub merge : Args → Config → Config
unfolding or_keep
merge args cfg = record cfg {
  mac_host = or_keep args.mac_host cfg.mac_host;
  tcp_port = or_keep args.tcp_port cfg.tcp_port;
  udp_port = or_keep args.udp_port cfg.udp_port;
  mouse_interval_ms = or_keep args.interval_ms cfg.mouse_interval_ms;
  log_level = or_keep args.log_level cfg.log_level;
  diagnostics = if args.diagnostics then true else cfg.diagnostics;
  suppress_local_input = if args.no_suppress then false else cfg.suppress_local_input;
  use_udp = if args.no_udp then false else cfg.use_udp;
}

cleaned : Text → Args → Option Config → Option Config
unfolding merge sanitized
cleaned hostname args none = none
cleaned hostname args (some cfg) = sanitized hostname (merge args cfg)

unfoldable pub build_config : Text → Option (Option Config) → Args → Option Config
unfolding load cleaned
build_config hostname file args = cleaned hostname args (load hostname file)
