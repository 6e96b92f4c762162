-- ===== src/Tests/Handshakes.antt =====
-- The handshake and the key store at concrete inputs: frames of one byte, read by a toy reader.
use remote_input_bridge.Base.{ℕ, ◌≡◌, refl, ap, List, [], ◌∷◌, ◌++◌, Option, none, some, true}
use remote_input_bridge.Base.{false, arith, if◌then◌else◌, ◌&&◌}
use remote_input_bridge.Base.{replicate, get_or}
use remote_input_bridge.Base.Text.{ascii, text_eq}
use remote_input_bridge.Crypto.{IsKey, hex_encode, hex_decode, hex_key, auth_ack_proof}
use remote_input_bridge.Crypto.{unwrap_device_key, derive_pairing_key, wrap_tag}
use remote_input_bridge.Wire.Bytes.{to_be_bytes, from_be_bytes}
use remote_input_bridge.Frame.{ok, err, with_length, read_frame, read_exact, read_payload}
use remote_input_bridge.KeyStore.{KeyStore, device_key, set_device_key}
use remote_input_bridge.KeyStore.Lookup.{device_key-set}
use remote_input_bridge.KeyStore.Refines.{Change, set, remove, IsValid, run, replay, run_refines}
use remote_input_bridge.Net.{auth_rejected}
use remote_input_bridge.Handshake.{
  Text, HelloAck, PairResponse, AuthOk, Serde, Socket, Channel, Session,
}
use remote_input_bridge.Handshake.{continue}
use remote_input_bridge.Handshake.Frames.{expect_frame, write_frame, read_json, check_frame}
use remote_input_bridge.Handshake.Frames.{remote_error, error_frame, error_of_code}
use remote_input_bridge.Handshake.Connect.{connect, greet, choose_key, authenticate}
use remote_input_bridge.Handshake.Connect.{stored_key, key_index, usable_nonce, rename_error}
use remote_input_bridge.Handshake.Connect.{auth_error}
use remote_input_bridge.Config.{is_blank}
use remote_input_bridge.Handshake.Proven.{IsConnected, connect-IsConnected}
use remote_input_bridge.Handshake.Attempt.{attempt, attempt-err, clear_stale, is_auth_rejected}
use remote_input_bridge.Handshake.Replies.{IsGreeting, IsWrapped, IsAcceptance}
use remote_input_bridge.Handshake.Honest.{connect-pairs}
use remote_input_bridge.Tests.Toy.{toy, toy_key, config, All-replicate}

abbrev nonce : List ℕ
nonce = replicate 32 7

toy_key-IsKey : IsKey toy_key
toy_key-IsKey = record { sized = refl; bytes = All-replicate 32 3 (omega arith) }

nonce-IsKey : IsKey nonce
nonce-IsKey = record { sized = refl; bytes = All-replicate 32 7 (omega arith) }

abbrev ack : HelloAck
ack = record {
  protocol_version = 1;
  server_name = ascii "Mac";
  server_id = ascii "m1";
  server_nonce = hex_encode nonce;
  known_client = true;
  pairing_mode = true;
  capabilities = [];
}

abbrev answer : AuthOk
answer = record {
  session_id = 9;
  server_proof = hex_encode (auth_ack_proof toy toy_key nonce nonce 9);
  udp_port = 0;
}

abbrev code : Text
code = ascii "ab-12"

abbrev wrapped : List ℕ
wrapped = unwrap_device_key toy (derive_pairing_key toy code) toy_key

abbrev response : PairResponse
response = record {
  wrapped_key = hex_encode wrapped;
  tag = hex_encode (wrap_tag toy (derive_pairing_key toy code) nonce nonce wrapped);
}

-- A frame is its number: 1 the greeting, 2 the acceptance, 3 the wrapped key, else an error.
kind : Text → Option Text
kind text = some (
    get_or (ascii "" ∷ ascii "HELLO_ACK" ∷ ascii "AUTH_OK" ∷ ascii "PAIR_RESPONSE" ∷ [])
      (get_or text 0 0) (ascii "ERROR"))

abbrev toy_serde : Serde
toy_serde = record {
  from_utf8 = some;
  hello_text = λ h. 1 ∷ [];
  pair_request_text = λ r. 3 ∷ [];
  auth_text = λ a. 2 ∷ [];
  any_frame = kind;
  hello_ack = λ text. some ack;
  pair_response = λ text. some response;
  auth_ok = λ text. some answer;
  proto_error = λ text. some (record { code = ascii "BAD_PROOF"; message = [] });
}

abbrev socket : Socket
socket = record { opened = ok 1; fails = λ n. false; ready = true }

abbrev no_keys : KeyStore
no_keys = record { client_id = []; device_keys = [] }

abbrev keys : KeyStore
keys = set_device_key (ascii "m1") toy_key no_keys

abbrev known_channel : Channel
known_channel = record {
  incoming = with_length (1 ∷ []) ++ (with_length (2 ∷ []) ++ []);
  sent = [];
  writes = 0;
  keys = keys;
}

greeting : IsGreeting toy_serde nonce (1 ∷ []) ack
unfolding kind
greeting = record {
  reply = record {
    text = 1 ∷ [];
    decoded = refl;
    tagged = refl;
    parsed = refl;
    present = omega arith;
    fits = omega arith;
  };
  current = refl;
  is_nonce = nonce-IsKey;
  nonce = refl;
}

acceptance : IsAcceptance toy toy_serde toy_key nonce nonce (2 ∷ []) answer
unfolding kind hex_encode auth_ack_proof
acceptance = record {
  reply = record {
    text = 2 ∷ [];
    decoded = refl;
    tagged = refl;
    parsed = refl;
    present = omega arith;
    fits = omega arith;
  };
  proves = refl;
}

wrapping : IsWrapped toy toy_serde code toy_key nonce nonce (3 ∷ []) response
unfolding kind hex_encode wrap_tag
wrapping = record {
  reply = record {
    text = 3 ∷ [];
    decoded = refl;
    tagged = refl;
    parsed = refl;
    present = omega arith;
    fits = omega arith;
  };
  wraps = refl;
  tags = refl;
}

on_file : stored_key config ack keys ≡ some toy_key
unfolding stored_key key_index is_blank device_key set_device_key hex_key hex_encode
on_file = rw (device_key-set no_keys (ascii "m1") toy_key (ascii "m1") toy_key-IsKey) refl

abbrev pairing_channel : Channel
pairing_channel = record {
  incoming = with_length (1 ∷ []) ++ (with_length (3 ∷ []) ++ (with_length (2 ∷ []) ++ []));
  sent = [];
  writes = 0;
  keys = no_keys;
}

abbrev session : Session
session = record {
  session_id = 9;
  tcp_key = toy.hkdf32 toy_key (nonce ++ nonce) (ascii "rib-session-v1|tcp");
  udp_key = toy.hkdf32 toy_key (nonce ++ nonce) (ascii "rib-session-v1|udp");
  udp_addr = (1, config.udp_port);
  server_name = ascii "Mac";
  send_counter = 0;
}

connect-pairs_example :
    (after : Channel) × (connect toy toy_serde socket config (some code) nonce pairing_channel
      ≡ (ok session, after))
    × (device_key after.keys (key_index config ack) ≡ some toy_key)
connect-pairs_example =
    connect-pairs toy toy_serde socket (λ n. refl) config 1 code nonce nonce toy_key (1 ∷ [])
      (3 ∷ []) (2 ∷ []) [] ack response answer pairing_channel refl refl greeting refl toy_key-IsKey
      wrapping acceptance refl

connect-IsConnected_example :
    IsConnected toy toy_serde config nonce pairing_channel.incoming no_keys
      connect-pairs_example.0.keys session
connect-IsConnected_example =
    connect-IsConnected toy toy_serde socket config (some code) nonce pairing_channel
      connect-pairs_example.1

-- The Mac answers `AUTH` with an error.
abbrev rejecting : Channel
rejecting = record {
  incoming = with_length (1 ∷ []) ++ with_length (4 ∷ []);
  sent = [];
  writes = 0;
  keys = keys;
}

rejected : (attempt toy toy_serde socket config none nonce rejecting).0 ≡ err auth_rejected
unfolding attempt clear_stale connect greet expect_frame write_frame read_json check_frame
    remote_error error_frame error_of_code kind read_frame read_exact read_payload with_length
    to_be_bytes from_be_bytes continue usable_nonce hex_decode hex_encode stored_key key_index
    device_key set_device_key hex_key choose_key authenticate rename_error auth_error is_blank
rejected = refl

attempt-err_example :
    device_key (attempt toy toy_serde socket config none nonce rejecting).1.keys (ascii "m1") ≡ (
      if is_auth_rejected auth_rejected && text_eq config.mac_host (ascii "m1")
      then none
      else device_key keys (ascii "m1"))
attempt-err_example =
    attempt-err toy toy_serde socket config none nonce rejecting
      (attempt toy toy_serde socket config none nonce rejecting).1 auth_rejected (ascii "m1") refl
      (ap (λ r. (r, (attempt toy toy_serde socket config none nonce rejecting).1)) rejected)

abbrev changes : List Change
changes = set (ascii "m1") toy_key ∷ remove (ascii "10.0.0.2") ∷ []

run_refines_example : device_key (run changes no_keys) ≡ replay changes (device_key no_keys)
unfolding IsValid
run_refines_example = run_refines changes no_keys (toy_key-IsKey, (tt, tt))
