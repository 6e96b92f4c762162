-- ===== src/Crypto.antt =====
-- crypto.rs: pairing codes, the key schedule, proofs, wrapped keys and hexadecimal text. Keys,
-- nonces and tags are lists of bytes; texts are lists of code points. The crates hmac, hkdf and
-- subtle are the parameter `Primitives`.
use remote_input_bridge.Base.{
  ℕ, ◌+◌, ◌-◌, ◌*◌, ◌/◌, ◌%◌, ◌≡◌, ◌↔◌, List, [], ◌∷◌, ◌++◌, Option, none, some, Bool, true, false,
  ◌&&◌, ◌||◌, bit_and, bit_or, bit_xor, leb, ◌==◌, if◌then◌else◌, ◌>>=◌, length, get_or, All,
}
use remote_input_bridge.Wire.Bytes.{IsByte, to_be_bytes}
use remote_input_bridge.Base.Text.{ascii}
pub mod Hex
pub mod Pairing
pub mod Wrapping

-- A device key is 32 bytes.
pub record IsKey (key : List ℕ) : Type 0 where
  pub sized : length key ≡ 32
  pub bytes : All IsByte key

-- What the three crates promise: outputs of 32 bytes, and a comparison of equal contents.
pub record Primitives : Type 0 where
  pub hmac : List ℕ → List ℕ → List ℕ
  pub hkdf32 : List ℕ → List ℕ → List ℕ → List ℕ
  pub slices_eq : List ℕ → List ℕ → Bool
  pub length-hmac : (key bytes : List ℕ) → length (hmac key bytes) ≡ 32
  pub hmac-IsByte : (key bytes : List ℕ) → All IsByte (hmac key bytes)
  pub length-hkdf32 : (ikm salt info : List ℕ) → length (hkdf32 ikm salt info) ≡ 32
  pub hkdf32-IsByte : (ikm salt info : List ℕ) → All IsByte (hkdf32 ikm salt info)
  pub slices_eq_iff : (a b : List ℕ) → (slices_eq a b ≡ true) ↔ (a ≡ b)

is_digit : ℕ → Bool
is_digit c = leb b'0' c && leb c b'9'

is_lower : ℕ → Bool
is_lower c = leb b'a' c && leb c b'z'

is_upper : ℕ → Bool
is_upper c = leb b'A' c && leb c b'Z'

unfoldable pub is_alphanumeric : ℕ → Bool
unfolding is_digit is_lower is_upper
is_alphanumeric c = is_digit c || (is_lower c || is_upper c)

unfoldable pub to_uppercase : ℕ → ℕ
unfolding is_lower
to_uppercase c = if is_lower c then c - 32 else c

-- `chars().filter(..).flat_map(to_uppercase)`: behind the filter each character is ASCII, whose
-- uppercase is one character.
pub normalize_pairing_code : List ℕ → List ℕ
normalize_pairing_code [] = []
normalize_pairing_code (c ∷ cs) =
    if is_alphanumeric c
    then to_uppercase c ∷ normalize_pairing_code cs
    else normalize_pairing_code cs

-- The loop `out[i] = wrapped[i] ^ mask[i]`.
xor_loop : List ℕ → List ℕ → List ℕ
xor_loop [] mask = []
xor_loop (w ∷ ws) [] = []
xor_loop (w ∷ ws) (m ∷ ms) = bit_xor w m ∷ xor_loop ws ms

hex_digits : List ℕ
hex_digits = ascii "0123456789abcdef"

unfoldable pub hex_encode : List ℕ → List ℕ
unfolding hex_digits
hex_encode [] = []
hex_encode (b ∷ bs) =
    get_or hex_digits (b / 16) 0 ∷ get_or hex_digits (bit_and b 0xf) 0 ∷ hex_encode bs

nibble : ℕ → Option ℕ
nibble c =
    if leb b'0' c && leb c b'9'
    then some (c - b'0')
    else if leb b'a' c && leb c b'f'
    then some (c - b'a' + 10)
    else if leb b'A' c && leb c b'F'
    then some (c - b'A' + 10)
    else none

-- The loop over `chunks(2)`. The length is even, so a chunk of one byte does not occur.
decode_pairs : List ℕ → Option (List ℕ)
decode_pairs [] = some []
decode_pairs (c ∷ []) = none
decode_pairs (c ∷ d ∷ rest) = do
  hi ← nibble c
  lo ← nibble d
  out ← decode_pairs rest
  some (bit_or (hi * 16 % 256) lo ∷ out)

unfoldable pub hex_decode : List ℕ → Option (List ℕ)
unfolding nibble decode_pairs
hex_decode s = if length s % 2 == 0 then decode_pairs s else none

-- `try_into` an array of 32 bytes.
unfoldable pub hex_key : List ℕ → Option (List ℕ)
unfolding hex_decode
hex_key s = do bytes ← hex_decode s; if length bytes == 32 then some bytes else none

module _ (p : Primitives) where
  open p use {hmac, hkdf32, slices_eq}

  unfoldable pub derive_pairing_key : List ℕ → List ℕ
  derive_pairing_key code =
      hkdf32 (normalize_pairing_code code) (ascii "rib-pair-v1") (ascii "pairing")

  unfoldable pub wrap_mask : List ℕ → List ℕ
  wrap_mask pairing_key = hkdf32 pairing_key (ascii "rib-pair-v1") (ascii "wrap")

  pub unwrap_device_key : List ℕ → List ℕ → List ℕ
  unwrap_device_key pairing_key wrapped = xor_loop wrapped (wrap_mask pairing_key)

  unfoldable pub session_keys : List ℕ → List ℕ → List ℕ → List ℕ × List ℕ
  session_keys device_key client_nonce server_nonce =
      let salt = client_nonce ++ server_nonce in
      (
        hkdf32 device_key salt (ascii "rib-session-v1|tcp"),
        hkdf32 device_key salt (ascii "rib-session-v1|udp"),
      )

  unfoldable pub pair_proof : List ℕ → List ℕ → List ℕ → List ℕ
  pair_proof pairing_key client_nonce server_nonce =
      hmac pairing_key (ascii "pair" ++ (client_nonce ++ server_nonce))

  unfoldable pub wrap_tag : List ℕ → List ℕ → List ℕ → List ℕ → List ℕ
  wrap_tag pairing_key client_nonce server_nonce wrapped =
      hmac pairing_key (ascii "wrap" ++ (client_nonce ++ (server_nonce ++ wrapped)))

  unfoldable pub auth_proof : List ℕ → List ℕ → List ℕ → List ℕ
  auth_proof device_key client_nonce server_nonce =
      hmac device_key (ascii "auth" ++ (client_nonce ++ server_nonce))

  unfoldable pub auth_ack_proof : List ℕ → List ℕ → List ℕ → ℕ → List ℕ
  auth_ack_proof device_key client_nonce server_nonce session_id =
      hmac device_key
        (ascii "auth-ack" ++ (client_nonce ++ (server_nonce ++ to_be_bytes 8 session_id)))

  unfoldable pub ct_eq : List ℕ → List ℕ → Bool
  ct_eq a b = length a == length b && slices_eq a b
