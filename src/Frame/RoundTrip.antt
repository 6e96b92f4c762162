-- ===== src/Frame/RoundTrip.antt =====
-- net/control.rs: `encode_frame` against `read_frame` and `decode_frame`.
use remote_input_bridge.Base.{ℕ, ◌+◌, ◌-◌, ◌%◌, ◌^◌, ◌≤◌, ◌<◌, ◌≡◌, refl, ap, sym, ◌∙◌, List, []}
use remote_input_bridge.Base.{◌∷◌, ◌++◌, append_assoc, append-nil, length, take, drop}
use remote_input_bridge.Base.{length-append, length-take, take-length, drop-length, arith, leb}
use remote_input_bridge.Base.{if◌then◌else◌, true, false, ltb}
use remote_input_bridge.Wire.Bytes.{to_be_bytes, length-to_be_bytes, from-to_be_bytes}
use remote_input_bridge.Wire.Message.{Reliable, ping, release_all, InRange, msg_type, encode_body}
use remote_input_bridge.Wire.Message.{decode}
use remote_input_bridge.Wire.Message.RoundTrip.{decode-encode_body}
use remote_input_bridge.Crypto.{Primitives, ct_eq}
use remote_input_bridge.Frame.{ok, err, replayed, read_exact, read_payload, read_frame, seal}
use remote_input_bridge.Frame.{with_length, encode_frame, after_tag, decode_frame, tag_len}
use remote_input_bridge.Frame.{signed_part, or_unknown, max_frame_len}

pub encode_body-append : (m : Reliable) (out : List ℕ) → encode_body m out ≡ out ++ encode_body m []
unfolding encode_body
encode_body-append release_all out = sym (append-nil out)
encode_body-append m out = refl

-- The longest body is that of a pong.
pub length-encode_body : (m : Reliable) → length (encode_body m []) ≤ 24
unfolding encode_body to_be_bytes
length-encode_body (ping t) = omega arith
length-encode_body m = omega arith

pub length-signed_part :
    (counter type : ℕ) (body : List ℕ) → length (signed_part counter type body) ≡ 9 + length body
unfolding signed_part to_be_bytes
length-signed_part counter type body = omega arith

after_tag_lem :
    (counter type last : ℕ) (body : List ℕ)
    → counter < 2 ^ 64
    → after_tag (signed_part counter type body) last ≡ (
        if leb counter last
        then err (replayed counter)
        else or_unknown counter type (decode type body))
unfolding after_tag signed_part to_be_bytes
after_tag_lem counter type last body h =
    ap (λ (c : ℕ). if leb c last then err (replayed c) else or_unknown c type (decode type body))
      (from-to_be_bytes 8 counter h)

read_exact_all :
    (front rest : List ℕ) → read_exact (length front) (front ++ rest) ≡ ok (front, rest)
unfolding read_exact
read_exact_all front rest = ground (
  arith,
  length-append front rest,
  take-length front rest (length front) refl,
  drop-length front rest (length front) refl,
)

read_exact_front :
    (front mid rest : List ℕ) (n : ℕ)
    → length front ≡ n
    → read_exact n ((front ++ mid) ++ rest) ≡ ok (front, mid ++ rest)
read_exact_front front mid rest n h =
    rw (← h, append_assoc front mid rest) (read_exact_all front (mid ++ rest))

-- A stream that starts with a length and as many bytes gives those bytes.
pub read_frame-with_length :
    (payload rest : List ℕ)
    → 0 < length payload
    → length payload ≤ max_frame_len
    → read_frame (with_length payload ++ rest) ≡ ok (payload, rest)
unfolding read_frame read_payload with_length
read_frame-with_length payload rest lo hi =
    let n = length payload % 2 ^ 32 in
    let size : n ≡ length payload = omega arith in
    let four : read_exact 4 ((to_be_bytes 4 n ++ payload) ++ rest)
        ≡ ok (to_be_bytes 4 n, payload ++ rest) =
      read_exact_front (to_be_bytes 4 n) payload rest 4 (length-to_be_bytes 4 n) in
    rw (four, read_frame, from-to_be_bytes 4 n (omega arith), size)
      (ground (arith, read_exact_all payload rest))

module _ (p : Primitives) (tcp_key : List ℕ) where
  open p use {hmac, length-hmac, slices_eq_iff}

  length-tag : (signed : List ℕ) → length (take tag_len (hmac tcp_key signed)) ≡ 16
  length-tag signed =
      omega (arith, length-take 16 (hmac tcp_key signed), length-hmac tcp_key signed)

  length-seal : (signed : List ℕ) → length (seal p tcp_key signed) ≡ length signed + 16
  unfolding seal
  length-seal signed =
      omega (arith, length-append signed (take tag_len (hmac tcp_key signed)), length-tag signed)

  pub ct_eq_refl : (a : List ℕ) → ct_eq p a a ≡ true
  unfolding ct_eq
  ct_eq_refl a = ground (arith, (slices_eq_iff a a).1 refl)

  -- The receiver of a sealed text takes the text and the tag apart and gets past the tag.
  pub decode_frame-seal :
      (signed : List ℕ) (last : ℕ)
      → 9 ≤ length signed
      → decode_frame p tcp_key (seal p tcp_key signed) last ≡ after_tag signed last
  unfolding decode_frame
  decode_frame-seal signed last h =
      let tag = take tag_len (hmac tcp_key signed) in
      let len : length (seal p tcp_key signed) - 16 ≡ length signed =
        omega (arith, length-seal signed) in
      let front : take (length signed) (seal p tcp_key signed) ≡ signed =
        unfold seal in take-length signed tag (length signed) refl in
      let back : drop (length signed) (seal p tcp_key signed) ≡ tag =
        unfold seal in drop-length signed tag (length signed) refl in
      let long : ltb (length (seal p tcp_key signed)) 25 ≡ false =
        ground (arith, length-seal signed) in
      rw (long, len, front, back, ct_eq_refl tag)

  -- A sealed frame with a fresh counter is judged by its type and body alone.
  pub decode_frame-signed :
      (counter type last : ℕ) (body : List ℕ)
      → counter < 2 ^ 64
      → last < counter
      → decode_frame p tcp_key (seal p tcp_key (signed_part counter type body)) last
        ≡ or_unknown counter type (decode type body)
  decode_frame-signed counter type last body h fresh =
      decode_frame-seal (signed_part counter type body) last
        (omega (arith, length-signed_part counter type body))
      ∙ after_tag_lem counter type last body h
      ∙ ground arith

  encode_frame-signed :
      (counter : ℕ) (msg : Reliable)
      → encode_frame p tcp_key counter msg
        ≡ with_length (seal p tcp_key (signed_part counter (msg_type msg) (encode_body msg [])))
  unfolding encode_frame signed_part
  encode_frame-signed counter msg =
      ap (λ (s : List ℕ). with_length (seal p tcp_key s))
        (encode_body-append msg (to_be_bytes 8 counter ++ msg_type msg ∷ [])
          ∙ append_assoc (to_be_bytes 8 counter) (msg_type msg ∷ []) (encode_body msg []))

  -- Reading the frame of a message in range with a fresh counter from a stream leaves what follows,
  -- and the payload read decodes to the counter and the message.
  pub read-encode_frame :
      (counter last : ℕ) (msg : Reliable) (rest : List ℕ)
      → InRange msg
      → counter < 2 ^ 64
      → last < counter
      → (payload : List ℕ) × (read_frame (encode_frame p tcp_key counter msg ++ rest)
          ≡ ok (payload, rest))
        × (decode_frame p tcp_key payload last ≡ ok (counter, msg))
  read-encode_frame counter last msg rest h hc fresh =
      let body = encode_body msg [] in
      let signed = signed_part counter (msg_type msg) body in
      let size = length-seal signed in
      let size' = length-signed_part counter (msg_type msg) body in
      (
        seal p tcp_key signed,
        rw (encode_frame-signed counter msg) (
            read_frame-with_length (seal p tcp_key signed) rest (omega arith)
              (omega (arith, length-encode_body msg))),
        decode_frame-signed counter (msg_type msg) last body hc fresh
            ∙ rw (decode-encode_body msg h) refl,
      )
