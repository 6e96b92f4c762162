-- ===== src/Tests/Frames.antt =====
-- The wire format, the cryptography and the framing at concrete inputs.
use remote_input_bridge.Base.{ℕ, ◌-◌, ◌<◌, ◌≤◌, ◌≡◌, ◌↔◌, refl, ap, List, [], ◌∷◌, ◌++◌, arith}
use remote_input_bridge.Base.{replicate, length, take, drop, get_or, map}
use remote_input_bridge.Base.{some, true, false}
use remote_input_bridge.Base.Text.{ascii}
use remote_input_bridge.Wire.Bytes.{to_be_bytes, from_be_bytes}
use remote_input_bridge.Wire.Message.{Reliable, key, release_all, decode}
use remote_input_bridge.Crypto.{ct_eq, is_alphanumeric, to_uppercase}
use remote_input_bridge.Crypto.Pairing
use remote_input_bridge.Crypto.Pairing.{derive_pairing_key-Respelling}
use remote_input_bridge.Frame.{after_tag, ok, incoming, seal}
use remote_input_bridge.Frame.{signed_part, decode_frame, reader}
use remote_input_bridge.Frame.Accepts.{decode_frame_accepts}
use remote_input_bridge.Frame.Stream.{send_all, Ends, reader-send_all, reader-Ends}
use remote_input_bridge.Packet.{MouseMovePacket}
use remote_input_bridge.Tests.Toy.{toy, toy_key}

abbrev press : Reliable
press = key 0x04 true false

-- The payload of `release_all` with the counter 5, as `replayed_counter_is_rejected` has it.
abbrev payload : List ℕ
payload = (0 ∷ 0 ∷ 0 ∷ 0 ∷ 0 ∷ 0 ∷ 0 ∷ 5 ∷ 0x09 ∷ []) ++ replicate 16 233

-- Its last byte turned over.
abbrev tampered : List ℕ
tampered = (0 ∷ 0 ∷ 0 ∷ 0 ∷ 0 ∷ 0 ∷ 0 ∷ 5 ∷ 0x09 ∷ []) ++ (replicate 15 233 ++ 22 ∷ [])

abbrev packet : MouseMovePacket
packet = record {
  session_id = 9;
  sequence = 3;
  timestamp_us = 1000;
  total_x = 5;
  total_y = 4294967295;
}

lowercase_spaced : Pairing.Respelling (ascii "ab 1") (ascii "AB1")
unfolding is_alphanumeric to_uppercase
lowercase_spaced = Pairing.upper [] (ascii "b 1") 97 (
    Pairing.upper (ascii "A") (ascii " 1") 98
      (Pairing.separator (ascii "AB") (ascii "1") 32 refl Pairing.same))

payload-seal : payload ≡ seal toy toy_key (signed_part 5 0x09 [])
unfolding seal signed_part to_be_bytes
payload-seal = refl

tampered_forged :
    take 16 (toy.hmac toy_key (take (length tampered - 16) tampered))
      ≡ drop (length tampered - 16) tampered
    → ⊥
tampered_forged e =
    let last : ◌≡◌ {A = ℕ} 233 22 = ap (λ (l : List ℕ). get_or l 15 0) e in omega arith

payload_accepted : decode_frame toy toy_key payload 4 ≡ ok (5, release_all)
unfolding decode_frame ct_eq after_tag from_be_bytes decode
payload_accepted = refl

decode_frame_accepts_example : (decode_frame toy toy_key payload 4 ≡ ok (5, release_all)) ↔ (
    (25 ≤ length payload)
    × (take 16 (toy.hmac toy_key (take 9 payload)) ≡ drop 9 payload)
    × (from_be_bytes (take 8 (take 9 payload)) ≡ 5)
    × (4 < 5)
    × (decode (get_or (take 9 payload) 8 0) (drop 9 (take 9 payload)) ≡ some release_all))
decode_frame_accepts_example = decode_frame_accepts toy toy_key payload 4 5 release_all

reader-Ends_example : Ends (reader toy 200 toy_key 0 payload)
reader-Ends_example = reader-Ends toy toy_key 200 0 payload (omega arith)

reader-send_all_example :
    reader toy 3 toy_key 0 (send_all toy toy_key 0 (press ∷ release_all ∷ []) ++ [])
    ≡ map incoming (press ∷ release_all ∷ []) ++ reader toy 1 toy_key 2 []
reader-send_all_example =
    reader-send_all toy toy_key (press ∷ release_all ∷ []) 1 0 [] (omega arith, (tt, tt))
      (omega arith)
