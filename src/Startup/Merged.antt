-- ===== src/Startup/Merged.antt =====
-- main.rs, `build_config`: the configuration the program starts with.
use remote_input_bridge.Base.{◌≡◌, refl, sym, subst, ◌∙◌, Option, none, some, not, ◌&&◌, ◌||◌}
use remote_input_bridge.Base.{arith}
use remote_input_bridge.Config.{Config, sanitized, clamp, is_interval_choice, is_blank}
use remote_input_bridge.Config
use remote_input_bridge.Config.Sanitized.{IsSane, sanitized-IsSane}
use remote_input_bridge.Startup.{Text, Args, load, or_keep, merge, cleaned, build_config}

-- What cleaning leaves alone.
pub record IsKept (c d : Config) : Type 0 where
  pub mac_host : d.mac_host ≡ c.mac_host
  pub tcp_port : d.tcp_port ≡ c.tcp_port
  pub udp_port : d.udp_port ≡ c.udp_port
  pub log_level : d.log_level ≡ c.log_level
  pub diagnostics : d.diagnostics ≡ c.diagnostics
  pub suppress : d.suppress_local_input ≡ c.suppress_local_input
  pub use_udp : d.use_udp ≡ c.use_udp
  pub auto_connect : d.auto_connect ≡ c.auto_connect
  pub edge_switch : d.edge_switch ≡ c.edge_switch
  pub to_mac : d.hotkey_switch_to_mac ≡ c.hotkey_switch_to_mac
  pub to_windows : d.hotkey_switch_to_windows ≡ c.hotkey_switch_to_windows
  pub emergency : d.hotkey_emergency_local ≡ c.hotkey_emergency_local

-- A cleaned configuration is as it was in all that `IsKept` lists.
pub sanitized-IsKept :
    (hostname : Text) (c : Config) {d : Config} → sanitized hostname c ≡ some d → IsKept c d
unfolding sanitized
sanitized-IsKept hostname c {d} h = record {
  mac_host = ground arith;
  tcp_port = ground arith;
  udp_port = ground arith;
  log_level = ground arith;
  diagnostics = ground arith;
  suppress = ground arith;
  use_udp = ground arith;
  auto_connect = ground arith;
  edge_switch = ground arith;
  to_mac = ground arith;
  to_windows = ground arith;
  emergency = ground arith;
}

load-some :
    (hostname : Text) (file : Option (Option Config)) → (c : Config) × (load hostname file ≡ some c)
unfolding load
load-some hostname none = (Config.default hostname, refl)
load-some hostname (some none) = (Config.default hostname, refl)
load-some hostname (some (some c)) = let s = sanitized-IsSane hostname c in (s.0, s.1)

-- The option of the command line where it is given, the field of the file elsewhere.
pub IsChosen : {A : Type 0} → Option A → A → A → Type 0
IsChosen none old new = new ≡ old
IsChosen (some a) old new = new ≡ a

or_keep-IsChosen : {A : Type 0} (o : Option A) (old : A) → IsChosen o old (or_keep o old)
unfolding IsChosen or_keep
or_keep-IsChosen none old = refl
or_keep-IsChosen (some a) old = refl

-- What a configuration `d` has from the command line, and what from the file's `c`.
pub record IsMerged (args : Args) (c d : Config) : Type 0 where
  pub mac_host : IsChosen args.mac_host c.mac_host d.mac_host
  pub tcp_port : IsChosen args.tcp_port c.tcp_port d.tcp_port
  pub udp_port : IsChosen args.udp_port c.udp_port d.udp_port
  pub log_level : IsChosen args.log_level c.log_level d.log_level
  pub diagnostics : d.diagnostics ≡ (args.diagnostics || c.diagnostics)
  pub suppress : d.suppress_local_input ≡ (not args.no_suppress && c.suppress_local_input)
  pub use_udp : d.use_udp ≡ (not args.no_udp && c.use_udp)
  pub auto_connect : d.auto_connect ≡ c.auto_connect
  pub edge_switch : d.edge_switch ≡ c.edge_switch
  pub to_mac : d.hotkey_switch_to_mac ≡ c.hotkey_switch_to_mac
  pub to_windows : d.hotkey_switch_to_windows ≡ c.hotkey_switch_to_windows
  pub emergency : d.hotkey_emergency_local ≡ c.hotkey_emergency_local

chosen : {A : Type 0} (o : Option A) (old : A) {new : A} → new ≡ or_keep o old → IsChosen o old new
chosen o old e = subst (IsChosen o old) (sym e) (or_keep-IsChosen o old)

merge-IsMerged :
    (args : Args) (c : Config) {d : Config} → IsKept (merge args c) d → IsMerged args c d
unfolding merge
merge-IsMerged args c {d} kept = record {
  mac_host = chosen args.mac_host c.mac_host kept.mac_host;
  tcp_port = chosen args.tcp_port c.tcp_port kept.tcp_port;
  udp_port = chosen args.udp_port c.udp_port kept.udp_port;
  log_level = chosen args.log_level c.log_level kept.log_level;
  diagnostics = kept.diagnostics ∙ ground arith;
  suppress = kept.suppress ∙ ground arith;
  use_udp = kept.use_udp ∙ ground arith;
  auto_connect = kept.auto_connect;
  edge_switch = kept.edge_switch;
  to_mac = kept.to_mac;
  to_windows = kept.to_windows;
  emergency = kept.emergency;
}

pub build_config-IsSane :
    (hostname : Text) (file : Option (Option Config)) (args : Args)
    → (c : Config) × (d : Config) × (load hostname file ≡ some c)
      × (build_config hostname file args ≡ some d)
      × IsSane d
      × IsMerged args c d
unfolding build_config cleaned
build_config-IsSane hostname file args =
    let (c, loaded) = load-some hostname file in
    let s = sanitized-IsSane hostname (merge args c) in
    (
      c,
      s.0,
      loaded,
      rw loaded s.1,
      s.2,
      merge-IsMerged args c (sanitized-IsKept hostname (merge args c) s.1),
    )
