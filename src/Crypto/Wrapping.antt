-- ===== src/Crypto/Wrapping.antt =====
-- crypto.rs, `unwrap_device_key`: the device key under the mask of a pairing key.
use remote_input_bridge.Base.{ℕ, suc, ◌≡◌, refl, ap, ap₂, List, [], ◌∷◌, length, All, arith}
use remote_input_bridge.Wire.Bytes.{IsByte}
use remote_input_bridge.Base.Masks.{bit_xor_twice, bit_xor-lt}
use remote_input_bridge.Crypto.{Primitives, IsKey, xor_loop, wrap_mask, unwrap_device_key}

xor_loop_twice : (xs ms : List ℕ) → length xs ≡ length ms → xor_loop (xor_loop xs ms) ms ≡ xs
unfolding xor_loop
xor_loop_twice [] ms h = refl
xor_loop_twice (x ∷ xs) [] h = absurd (omega arith)
xor_loop_twice (x ∷ xs) (m ∷ ms) h =
    ap₂ (λ a b. a ∷ b) (bit_xor_twice x m) (xor_loop_twice xs ms (omega arith))

length-xor_loop : (xs ms : List ℕ) → length xs ≡ length ms → length (xor_loop xs ms) ≡ length xs
unfolding xor_loop
length-xor_loop [] ms h = refl
length-xor_loop (x ∷ xs) [] h = absurd (omega arith)
length-xor_loop (x ∷ xs) (m ∷ ms) h = ap suc (length-xor_loop xs ms (omega arith))

xor_loop-IsByte : (xs ms : List ℕ) → All IsByte xs → All IsByte ms → All IsByte (xor_loop xs ms)
unfolding xor_loop
xor_loop-IsByte [] ms h k = tt
xor_loop-IsByte (x ∷ xs) [] h k = tt
xor_loop-IsByte (x ∷ xs) (m ∷ ms) h k = (bit_xor-lt 8 x m h.0 k.0, xor_loop-IsByte xs ms h.1 k.1)

module _ (p : Primitives) (pairing_key : List ℕ) where
  open p use {length-hkdf32, hkdf32-IsByte}

  wrap_mask-IsByte : All IsByte (wrap_mask p pairing_key)
  unfolding wrap_mask
  wrap_mask-IsByte = hkdf32-IsByte _ _ _

  length-wrap_mask : length (wrap_mask p pairing_key) ≡ 32
  unfolding wrap_mask
  length-wrap_mask = length-hkdf32 _ _ _

  -- For a device key of 32 bytes: what unwrapping makes of it has 32 bytes, and unwrapping that under
  -- the same pairing key gives the device key back, so the operation is its own inverse.
  pub unwrap_twice :
      (key : List ℕ)
      → length key ≡ 32
      → (unwrap_device_key p pairing_key (unwrap_device_key p pairing_key key) ≡ key)
        × (length (unwrap_device_key p pairing_key key) ≡ 32)
  unfolding unwrap_device_key
  unwrap_twice key h =
      let m = wrap_mask p pairing_key in
      (
        xor_loop_twice key m (omega (arith, length-wrap_mask)),
        omega (arith, length-wrap_mask, length-xor_loop key m),
      )

  -- Unwrapping 32 bytes gives 32 bytes.
  pub unwrap_device_key-IsKey :
      (wrapped : List ℕ) → IsKey wrapped → IsKey (unwrap_device_key p pairing_key wrapped)
  unfolding unwrap_device_key
  unwrap_device_key-IsKey wrapped h = record {
    sized =
        omega (arith, h.sized, length-wrap_mask, length-xor_loop wrapped (wrap_mask p pairing_key));
    bytes = xor_loop-IsByte wrapped (wrap_mask p pairing_key) h.bytes wrap_mask-IsByte;
  }
