-- ===== src/Frame/Accepts.antt =====
-- net/control.rs, `decode_frame` on any payload.
use remote_input_bridge.Base.{ℕ, ◌-◌, ◌≤◌, ◌<◌, ◌≡◌, ◌↔◌, List, length, take, drop, get_or, arith}
use remote_input_bridge.Base.{some}
use remote_input_bridge.Wire.Bytes.{from_be_bytes}
use remote_input_bridge.Wire.Message.{Reliable, decode}
use remote_input_bridge.Crypto.{Primitives, ct_eq}
use remote_input_bridge.Frame.{ok, err, replayed, bad_tag, after_tag, decode_frame}

module _ (p : Primitives) (tcp_key payload : List ℕ) where
  open p use {hmac, slices_eq_iff}

  abbrev signed : List ℕ
  signed = take (length payload - 16) payload

  abbrev tag : List ℕ
  tag = drop (length payload - 16) payload

  -- A payload is accepted as message `msg` with counter `c` exactly when it is long enough, its
  -- last 16 bytes are the tag of the rest, its counter is `c` and above the last one, and the rest
  -- decodes to `msg`.
  pub decode_frame_accepts :
      (last c : ℕ) (msg : Reliable)
      → (decode_frame p tcp_key payload last ≡ ok (c, msg)) ↔ (
          (25 ≤ length payload)
          × (take 16 (hmac tcp_key (take (length payload - 16) payload))
              ≡ drop (length payload - 16) payload)
          × (from_be_bytes (take 8 (take (length payload - 16) payload)) ≡ c)
          × (last < c)
          × (decode
                (get_or (take (length payload - 16) payload) 8 0)
                (drop 9 (take (length payload - 16) payload))
              ≡ some msg))
  unfolding decode_frame after_tag ct_eq
  decode_frame_accepts last c msg = (
    (λ e. ground (arith, slices_eq_iff (take 16 (hmac tcp_key signed)) tag)),
    (λ h. ground (arith, slices_eq_iff (take 16 (hmac tcp_key signed)) tag)),
  )

  -- A payload that was accepted once is refused as a replay whenever the last counter is at least
  -- its own.
  pub decode_frame_once :
      (last c later : ℕ) (msg : Reliable)
      → decode_frame p tcp_key payload last ≡ ok (c, msg)
      → c ≤ later
      → decode_frame p tcp_key payload later ≡ err (replayed c)
  unfolding decode_frame after_tag
  decode_frame_once last c later msg e h = ground arith

  -- A payload that is long enough, but whose last 16 bytes are not the tag of the rest, is refused for
  -- its tag, whatever its counter and message.
  decode_frame_forged :
      (last : ℕ)
      → 25 ≤ length payload
      → (take 16 (hmac tcp_key (take (length payload - 16) payload))
            ≡ drop (length payload - 16) payload
          → ⊥)
      → decode_frame p tcp_key payload last ≡ err bad_tag
  unfolding decode_frame ct_eq
  decode_frame_forged last h forged =
      ground (arith, slices_eq_iff (take 16 (hmac tcp_key signed)) tag)
