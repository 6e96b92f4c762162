-- ===== src/Packet/Layout.antt =====
-- The datagram, cut at its fixed offsets.
use remote_input_bridge.Base.{ℕ, ◌<◌, ◌^◌, ◌≡◌, refl, arith, List, [], ◌∷◌, ◌++◌, some, take}
use remote_input_bridge.Base.{length, ◌∙◌, ap, sym, ◌+◌, ◌≤◌, zero, suc, drop, ◌>>=◌}
use remote_input_bridge.Base.{length-append, take-length, drop-length, length-take}
use remote_input_bridge.Wire.Bytes.{to_be_bytes, from_be_bytes, from-to_be_bytes, slice}
use remote_input_bridge.Wire.Message.{int_at}
use remote_input_bridge.Crypto.{Primitives}
use remote_input_bridge.Packet.{MouseMovePacket, head, encode, udp_packet_len, udp_magic}

-- The fields are 64-bit and 32-bit integers.
pub record IsInRange (m : MouseMovePacket) : Type 0 where
  pub session_id : m.session_id < 2 ^ 64
  pub sequence : m.sequence < 2 ^ 64
  pub timestamp_us : m.timestamp_us < 2 ^ 64
  pub total_x : m.total_x < 2 ^ 32
  pub total_y : m.total_y < 2 ^ 32

take-drop_append :
    (off n : ℕ) (h t : List ℕ)
    → off + n ≤ length h
    → take n (drop off (h ++ t)) ≡ take n (drop off h)
take-drop_append zero zero h t le = refl
take-drop_append zero (suc n) [] t le = absurd (omega arith)
take-drop_append zero (suc n) (x ∷ h) t le = ap (◌∷◌ x) (take-drop_append zero n h t (omega arith))
take-drop_append (suc off) n [] t le = absurd (omega arith)
take-drop_append (suc off) n (x ∷ h) t le = take-drop_append off n h t (omega arith)

-- A field inside the front part is cut out of the front part.
slice_front : (off n : ℕ) (h t : List ℕ) → off + n ≤ length h → slice off n (h ++ t) ≡ slice off n h
unfolding slice
slice_front off n h t le = ground (arith, take-drop_append off n h t le, length-append h t)

take-all : (xs : List ℕ) (n : ℕ) → length xs ≡ n → take n xs ≡ xs
take-all [] zero h = refl
take-all [] (suc n) h = absurd (omega arith)
take-all (x ∷ xs) zero h = absurd (omega arith)
take-all (x ∷ xs) (suc n) h = ap (◌∷◌ x) (take-all xs n (omega arith))

module _ (p : Primitives) (udp_key : List ℕ) (m : MouseMovePacket) where
  length-head : length (head m) ≡ 36
  unfolding head to_be_bytes
  length-head = refl

  abbrev tag : List ℕ
  tag = take 8 (p.hmac udp_key (head m))

  length-tag : length tag ≡ 8
  length-tag =
      omega (arith, length-take 8 (p.hmac udp_key (head m)), p.length-hmac udp_key (head m))

  length-encode : length (encode p udp_key m) ≡ udp_packet_len
  unfolding encode
  length-encode = omega (arith, length-append (head m) tag, length-head, length-tag)

  take-encode : take 36 (encode p udp_key m) ≡ head m
  unfolding encode
  take-encode = take-length (head m) tag 36 length-head

  drop-encode : drop 36 (encode p udp_key m) ≡ tag
  unfolding encode
  drop-encode = drop-length (head m) tag 36 length-head

  slice-tag : slice 36 8 (encode p udp_key m) ≡ some tag
  unfolding slice
  slice-tag = ground (arith, length-encode, drop-encode, take-all tag 8 length-tag)

  field :
      (off n v : ℕ)
      → off + n ≤ 36
      → v < 256 ^ n
      → slice off n (head m) ≡ some (to_be_bytes n v)
      → int_at n (encode p udp_key m) off ≡ some v
  unfolding encode int_at
  field off n v le range e =
      ap (λ s. s >>= λ b. some (from_be_bytes b))
        (slice_front off n (head m) _ (rw length-head le) ∙ e)
      ∙ ap some (from-to_be_bytes n v range)

  -- The datagram of a packet whose fields are in range is 44 bytes. Cut at the offsets of the layout it gives back the session, the
  -- sequence number, the time and the totals, and its last 8 bytes are the start of the tag of the
  -- first 36.
  pub encode_fields :
      IsInRange m
      → (length (encode p udp_key m) ≡ udp_packet_len)
        × (int_at 2 (encode p udp_key m) 0 ≡ some udp_magic)
        × (int_at 8 (encode p udp_key m) 4 ≡ some m.session_id)
        × (int_at 8 (encode p udp_key m) 12 ≡ some m.sequence)
        × (int_at 8 (encode p udp_key m) 20 ≡ some m.timestamp_us)
        × (int_at 4 (encode p udp_key m) 28 ≡ some m.total_x)
        × (int_at 4 (encode p udp_key m) 32 ≡ some m.total_y)
        × (slice 36 8 (encode p udp_key m)
            ≡ some (take 8 (p.hmac udp_key (take 36 (encode p udp_key m)))))
  unfolding head to_be_bytes slice
  encode_fields r = (
    length-encode,
    field 0 2 udp_magic (omega arith) (omega arith) refl,
    field 4 8 m.session_id (omega arith) r.session_id refl,
    field 12 8 m.sequence (omega arith) r.sequence refl,
    field 20 8 m.timestamp_us (omega arith) r.timestamp_us refl,
    field 28 4 m.total_x (omega arith) r.total_x refl,
    field 32 4 m.total_y (omega arith) r.total_y refl,
    slice-tag ∙ sym (ap (λ b. some (take 8 (p.hmac udp_key b))) take-encode),
  )
