-- ===== src/Window/Saved.antt =====
-- ui/window.rs: what the operations of the window do to the state of the program, one by one.
use remote_input_bridge.Base.{ℕ, ◌≡◌, ◌≢◌, refl, sym, subst, ap, ◌∙◌, Option, none, some, true}
use remote_input_bridge.Base.{◌^◌, arith, if-either}
use remote_input_bridge.Base.Decimal.{parse_number}
use remote_input_bridge.Hotkey.{Hotkey, parse_hotkey}
use remote_input_bridge.Config.{Config, is_blank, is_interval_choice, sanitized}
use remote_input_bridge.Config.Sanitized.{IsSane, sanitized-IsSane}
use remote_input_bridge.Tracker.{from_config}
use remote_input_bridge.App.{AppState, Target, remote_mac, connected, NetMsg, send, request_target}
use remote_input_bridge.App.{force_local}
use remote_input_bridge.Startup.Merged.{sanitized-IsKept}
use remote_input_bridge.Window.{Text, Form, trim}
use remote_input_bridge.Window.Save.{accept_port, port_of, accept_hotkey, hotkey_of, read_form}
use remote_input_bridge.Window.Save.{adopt}
use remote_input_bridge.Window.Commands.{flip_edge, change_interval}

-- A configuration with which the program can be steered: in range, with ports, and with three hotkeys
-- that parse.
pub record IsUsable (c : Config) : Type 0 where
  pub sane : IsSane c
  pub tcp : c.tcp_port ≢ 0
  pub udp : c.udp_port ≢ 0
  pub to_mac : parse_hotkey c.hotkey_switch_to_mac ≢ none
  pub to_windows : parse_hotkey c.hotkey_switch_to_windows ≢ none
  pub emergency : parse_hotkey c.hotkey_emergency_local ≢ none

-- The state follows a usable configuration, and the input is on the Mac, or suppressed, only as the
-- fail-safe allows.
pub record IsInOrder (st : AppState) : Type 0 where
  pub usable : IsUsable st.cfg
  pub hotkeys : st.hotkeys ≡ from_config st.cfg
  pub edge : st.edge_switch ≡ st.cfg.edge_switch
  pub preference : st.suppress_preference ≡ st.cfg.suppress_local_input
  pub linked : st.target ≡ remote_mac → st.link ≡ connected
  pub suppressed : st.suppress ≡ true → st.target ≡ remote_mac

accept_port-nonzero : (o : Option ℕ) (old : ℕ) → old ≢ 0 → accept_port o old ≢ 0
unfolding accept_port
accept_port-nonzero none old h = h
accept_port-nonzero (some port) old h = ground (arith, h)

port_of-nonzero : (text : Text) (old : ℕ) → old ≢ 0 → port_of text old ≢ 0
unfolding port_of
port_of-nonzero text old h = accept_port-nonzero (parse_number (2 ^ 16) (trim text)) old h

accept_hotkey-parses :
    (text old : Text) (o : Option Hotkey)
    → parse_hotkey text ≡ o
    → parse_hotkey old ≢ none
    → parse_hotkey (accept_hotkey o text old) ≢ none
unfolding accept_hotkey
accept_hotkey-parses text old none e h = h
accept_hotkey-parses text old (some key) e h = λ n. cc

hotkey_of-parses :
    (text old : Text) → parse_hotkey old ≢ none → parse_hotkey (hotkey_of text old) ≢ none
unfolding hotkey_of
hotkey_of-parses text old h =
    if-either (λ t. parse_hotkey t ≢ none) (is_blank (trim text)) _ _ (λ blank. h)
      (λ filled. accept_hotkey-parses (trim text) old (parse_hotkey (trim text)) refl h)

-- What is read off the form and cleaned is usable if the configuration before was.
pub cleaned-IsUsable :
    (hostname : Text) (f : Form) (c : Config) {d : Config}
    → IsUsable c
    → sanitized hostname (read_form f c) ≡ some d
    → IsUsable d
unfolding read_form
cleaned-IsUsable hostname f c {d} u e =
    let s = sanitized-IsSane hostname (read_form f c) in
    let same : s.0 ≡ d = cc (s.1, e) in
    let kept = sanitized-IsKept hostname (read_form f c) e in
    let nonzero = λ (a b : ℕ) (g : a ≡ b) (h : b ≢ 0). subst (λ x. x ≢ 0) (sym g) h in
    let parses = λ (a b : Text) (g : a ≡ b) (h : parse_hotkey b ≢ none).
      subst (λ x. parse_hotkey x ≢ none) (sym g) h in
    record {
      sane = subst IsSane same s.2;
      tcp = nonzero _ _ kept.tcp_port (port_of-nonzero f.tcp c.tcp_port u.tcp);
      udp = nonzero _ _ kept.udp_port (port_of-nonzero f.udp c.udp_port u.udp);
      to_mac =
          parses _ _ kept.to_mac (hotkey_of-parses f.hotkey_mac c.hotkey_switch_to_mac u.to_mac);
      to_windows =
          parses _ _ kept.to_windows
            (hotkey_of-parses f.hotkey_windows c.hotkey_switch_to_windows u.to_windows);
      emergency =
          parses _ _ kept.emergency
            (hotkey_of-parses f.hotkey_emergency c.hotkey_emergency_local u.emergency);
    }

pub adopt-IsInOrder :
    (c : Config) (st : AppState) → IsUsable c → IsInOrder st → IsInOrder (adopt c st)
unfolding adopt
adopt-IsInOrder c st u h = record {
  usable = u;
  hotkeys = ground arith;
  edge = ground arith;
  preference = ground arith;
  linked = ground (arith, h.linked);
  suppressed = ground (arith, h.suppressed);
}

-- The operations of the state that a command calls.
pub request-IsInOrder :
    (t : Target) (st : AppState) → IsInOrder st → IsInOrder (request_target t st).0
unfolding request_target
request-IsInOrder t st h = record {
  usable = ground (arith, h.usable);
  hotkeys = ground (arith, h.hotkeys);
  edge = ground (arith, h.edge);
  preference = ground (arith, h.preference);
  linked = ground (arith, h.linked);
  suppressed = ground (arith, h.suppressed);
}

pub force_local-IsInOrder : (st : AppState) → IsInOrder st → IsInOrder (force_local st).0
unfolding force_local
force_local-IsInOrder st h = record {
  usable = ground (arith, h.usable);
  hotkeys = ground (arith, h.hotkeys);
  edge = ground (arith, h.edge);
  preference = ground (arith, h.preference);
  linked = ground (arith, h.linked);
  suppressed = ground (arith, h.suppressed);
}

pub send-IsInOrder : (msg : NetMsg) (st : AppState) → IsInOrder st → IsInOrder (send msg st)
unfolding send
send-IsInOrder msg st h = record {
  usable = h.usable;
  hotkeys = h.hotkeys;
  edge = h.edge;
  preference = h.preference;
  linked = h.linked;
  suppressed = h.suppressed;
}

-- Another configuration with the same ports and hotkeys, in range.
reconfigured :
    (c d : Config)
    → IsUsable c
    → IsSane d
    → d.tcp_port ≡ c.tcp_port
    → d.udp_port ≡ c.udp_port
    → from_config d ≡ from_config c
    → IsUsable d
unfolding from_config
reconfigured c d u sane tcp udp keys = record {
  sane = sane;
  tcp = λ e. u.tcp (cc);
  udp = λ e. u.udp (cc);
  to_mac = λ e. u.to_mac (sym (ap (λ k. k.to_mac) keys) ∙ e);
  to_windows = λ e. u.to_windows (sym (ap (λ k. k.to_windows) keys) ∙ e);
  emergency = λ e. u.emergency (sym (ap (λ k. k.emergency) keys) ∙ e);
}

pub flip_edge-IsInOrder : (st : AppState) → IsInOrder st → IsInOrder (flip_edge st)
unfolding flip_edge from_config
flip_edge-IsInOrder st h = record {
  usable =
      reconfigured st.cfg (flip_edge st).cfg h.usable
        (record {
          interval = h.usable.sane.interval;
          keepalive = h.usable.sane.keepalive;
          heartbeat_low = h.usable.sane.heartbeat_low;
          heartbeat_high = h.usable.sane.heartbeat_high;
          timeout_low = h.usable.sane.timeout_low;
          timeout_high = h.usable.sane.timeout_high;
        })
        refl refl refl;
  hotkeys = h.hotkeys;
  edge = refl;
  preference = refl;
  linked = h.linked;
  suppressed = h.suppressed;
}

pub change_interval-IsInOrder :
    (ms : ℕ) (st : AppState)
    → is_interval_choice ms ≡ true
    → IsInOrder st
    → IsInOrder (change_interval ms st)
unfolding change_interval from_config
change_interval-IsInOrder ms st choice h = record {
  usable =
      reconfigured st.cfg (change_interval ms st).cfg h.usable
        (record {
          interval = choice;
          keepalive = h.usable.sane.keepalive;
          heartbeat_low = h.usable.sane.heartbeat_low;
          heartbeat_high = h.usable.sane.heartbeat_high;
          timeout_low = h.usable.sane.timeout_low;
          timeout_high = h.usable.sane.timeout_high;
        })
        refl refl refl;
  hotkeys = h.hotkeys;
  edge = refl;
  preference = refl;
  linked = h.linked;
  suppressed = h.suppressed;
}
