-- ===== src/Lib.antt =====
-- The Windows sender of Remote Input Bridge, which takes the keyboard and the mouse of a PC over
-- to a Mac: models of its parts and the theorems that make them correct.
--
-- The program. Input reaches the sender by Raw Input and by low-level hooks. Each key and button runs
-- through the input tracker, which knows what is physically down and what must not be forwarded; what
-- is forwarded, and each switch of the target, goes as a message to the network thread. That thread
-- holds the one connection, sends reliable messages as authenticated frames over TCP, and watches the
-- heartbeat. A realtime thread samples the accumulated movement and sends it as datagrams, or as
-- deltas over TCP when there is no socket. The shared state ties them together, and its fail-safe puts
-- the input back on Windows whenever the link is anything but connected.
--
-- The files, with the paths from the root of the repository.
--   Base        shared names, lists and tests on native numbers, byte masks, texts.
--   Wire        windows-sender/src/protocol.rs: `Reliable`, `msg_type`, `encode_body`, `decode`, the
--               constants (`msg`, `button`, `bye`, `modmask`), and the byte views of integers.
--   Packet      windows-sender/src/protocol.rs: `MouseMovePacket`, `encode`.
--   Crypto      windows-sender/src/crypto.rs: pairing codes, the key schedule, proofs, key wrapping,
--               hexadecimal text.
--   Frame       windows-sender/src/net/control.rs: `encode_frame`, `decode_frame`, `read_frame`,
--               `Session::send`, `send_raw`; windows-sender/src/net/mod.rs: `spawn_reader`.
--   Keymap      windows-sender/src/input/keymap.rs, and `modifier_bit_for_vk` of input/hooks.rs.
--   Hotkey      windows-sender/src/config.rs: `parse_hotkey`, `format_hotkey`, `mods_match`.
--   Config      windows-sender/src/config.rs: `Config`, `sanitized`; the transport key of net/mod.rs.
--   Tracker     windows-sender/src/input/mod.rs: `Hotkeys`, `InputTracker` (`on_key`, `on_button`,
--               `mark_all_stale`).
--   Telemetry   windows-sender/src/telemetry.rs: the counters and `record_rtt`.
--   App         windows-sender/src/state.rs: `AppState` and its operations; App/Race takes
--               `request_target` and `set_link` apart into their atomic accesses, App/Labels has
--               `label` and `status_line`.
--   KeyStore    windows-sender/src/config.rs: `KeyStore` (`load`, `device_key`, `set_device_key`).
--   Handshake   windows-sender/src/net/control.rs: `connect`, `pair`; Handshake/Frames has what they
--               read and write (`expect_frame`, `remote_error`, `write_json`), Handshake/Attempt the
--               removal of a rejected key in windows-sender/src/net/mod.rs.
--   Hooks       windows-sender/src/input/hooks.rs: when the hooks are installed, and the capture of a
--               hotkey of input/mod.rs; Hooks/Procedures has `keyboard_proc` and `mouse_proc`.
--   RawInput    windows-sender/src/input/raw_input.rs: `on_wm_input`, `drain_buffered`,
--               `handle_mouse`, `handle_keyboard`.
--   Input       windows-sender/src/input/mod.rs: `handle_key_event`, `handle_button_event`,
--               `handle_scroll`, `dispatch`; Input/Mirror reads off the messages what the Mac holds.
--   Realtime    windows-sender/src/net/realtime.rs: the loop of the realtime thread, a tick a step;
--               Realtime/Timer has `PreciseTimer` of both platforms.
--   Net         windows-sender/src/net/mod.rs: the loop of the network thread, a round a step;
--               Net/Turns has the thread from its start, between other threads.
--   Update      windows-sender/src/update.rs: `is_newer`; Update/Download has `http::download` and
--               `download_and_launch`, Update/Install the state of the updater with `check`,
--               `check_now` and `install`, each access of it by their threads a step; Update/Url
--               has `http::split`, Update/Fetch `http::get`.
--   Discovery   windows-sender/src/net/discovery.rs: probes and replies; Discovery/Targets has
--               `broadcast_targets`, Discovery/Find `find`, Discovery/Search the state of a search
--               with `start_search`, `report`, `take_found` and its thread.
--   Startup     windows-sender/src/main.rs: `parse_args`, `build_config` (with `Config::load`);
--               Startup/Main has `main`, `run`, `claim_single_instance` and `diagnose`; its message
--               loop is a list of turns.
--   Window      windows-sender/src/ui/window.rs: `refresh_status`, `refresh_controls`; Window/Save
--               has `save_settings`, Window/Commands `handle_command` with the commands of
--               ui/mod.rs, Window/Messages `wnd_proc`.
--   Banner      windows-sender/src/ui/banner.rs: `show`, `hide`.
--   Tray        windows-sender/src/ui/tray.rs: the icon and its tip; Tray/Menu has the items of
--               `show_menu`.
--   Log         windows-sender/src/log.rs: `set_level`, `enabled`, `emit`.
--   Tests       the theorems at concrete inputs.
--
-- Conventions. Integers are natural numbers with the wrap of their type written out where the
-- source wraps; an `i32` is its bit pattern. Texts are lists of code points, byte slices lists of
-- numbers, the tables of flags of the tracker functions of the index. The state of the program is
-- one record that the operations take and return; the statics of input/mod.rs and input/hooks.rs
-- that they reach are fields of it. The channel to the network thread is the list of messages
-- sent. Clocks, the results of calls of Windows and of sockets, and for a round of the network
-- thread the outcome of a handshake, are arguments; the constants of Windows, serde_json and UTF-8
-- decoding are parameters. The crates hmac, hkdf and subtle are the parameter `Primitives`:
-- outputs of 32 numbers below 256, and a comparison that is true of equal contents alone; nothing
-- is assumed of the strength of the hash.
--
-- Bounds and fuel. The reader thread and the decimal digits of a number are on fuel. Each round of
-- the reader takes the four bytes of a length off the stream, so one more unit than the stream has
-- bytes is enough; a number has fewer digits than one more than its value. A session counts
-- its frames in 64 bits, and the theorems on it ask that the count stays below 2 ^ 64. Texts of
-- hotkeys and lists of events are of any length.
--
-- Concurrency. Operations are whole steps, in any order, except in App/Race and Update/Install; a
-- tick and a round see a state that other threads leave alone meanwhile, and a call of `install`
-- reads the pending update and claims the updater at once.
--
-- Not modelled. The WinHTTP calls in update.rs; files, sockets, the registry, the making and
-- drawing of windows; the rates of the telemetry, which are floating point; the threads
-- between the start and the end of the process, but for the list of what they and the message loop do
-- to the state; the rectangle that the cursor is pinned to; the receiver, of which only what the messages and the
-- frames of the handshake tell it is used.
pub mod Base
pub mod Wire
pub mod Crypto
pub mod Frame
pub mod Keymap
pub mod Hotkey
pub mod Config
pub mod Tracker
pub mod Telemetry
pub mod App
pub mod KeyStore
pub mod Input
pub mod Hooks
pub mod RawInput
pub mod Packet
pub mod Realtime
pub mod Net
pub mod Handshake
pub mod Update
pub mod Discovery
pub mod Startup
pub mod Window
pub mod Banner
pub mod Tray
pub mod Log
pub mod Tests
