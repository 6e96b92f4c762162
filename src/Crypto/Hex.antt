-- ===== src/Crypto/Hex.antt =====
-- crypto.rs, hexadecimal text: `hex_encode`, `hex_decode` and `hex_key` against each other.
use remote_input_bridge.Base.{
  ℕ, ◌*◌, ◌/◌, ◌%◌, ◌≡◌, refl, ap, sym, ◌∙◌, if-some, >>=-some, List, [], ◌∷◌, Option, none, some,
}
use remote_input_bridge.Base.{Bool, true, false, bit_and, bit_or, ◌==◌, ==_iff, if◌then◌else◌}
use remote_input_bridge.Base.{length, get_or, All, arith, ◌<◌, ltb, ltb→lt, Option-cases, inl, inr}
use remote_input_bridge.Base.Masks.{each_below, each_below_sound}
use remote_input_bridge.Wire.Bytes.{IsByte}
use remote_input_bridge.Crypto.{
  IsKey, hex_digits, hex_encode, nibble, decode_pairs, hex_decode, hex_key,
}

is_some_of : Option ℕ → ℕ → Bool
is_some_of none n = false
is_some_of (some m) n = m == n

is_some_of-eq : (o : Option ℕ) (n : ℕ) → is_some_of o n ≡ true → o ≡ some n
unfolding is_some_of
is_some_of-eq none n h = cc
is_some_of-eq (some m) n h = ap some ((==_iff m n).0 h)

high_table :
    each_below 256 (λ b. is_some_of (nibble (get_or hex_digits (b / 16) 0)) (b / 16)) ≡ true
unfolding each_below nibble hex_digits is_some_of
high_table = refl

low_table :
    each_below 256 (λ b. is_some_of (nibble (get_or hex_digits (bit_and b 0xf) 0)) (b % 16)) ≡ true
unfolding each_below nibble hex_digits is_some_of
low_table = refl

join_table : each_below 256 (λ b. bit_or (b / 16 * 16 % 256) (b % 16) == b) ≡ true
unfolding each_below
join_table = refl

decode_pairs-hex_encode : (bs : List ℕ) → All IsByte bs → decode_pairs (hex_encode bs) ≡ some bs
unfolding decode_pairs hex_encode
decode_pairs-hex_encode [] h = refl
decode_pairs-hex_encode (b ∷ bs) h =
    let hi = is_some_of-eq _ _ (each_below_sound 256 _ b high_table h.0) in
    let lo = is_some_of-eq _ _ (each_below_sound 256 _ b low_table h.0) in
    let join = (==_iff _ b).0 (each_below_sound 256 _ b join_table h.0) in
    rw (hi, lo, decode_pairs-hex_encode bs h.1) (ap (λ x. some (x ∷ bs)) join)

length-hex_encode : (bs : List ℕ) → length (hex_encode bs) ≡ 2 * length bs
unfolding hex_encode
length-hex_encode [] = refl
length-hex_encode (b ∷ bs) = omega (arith, length-hex_encode bs)

-- Any list of bytes is read back from its hexadecimal text.
pub hex_decode-hex_encode : (bs : List ℕ) → All IsByte bs → hex_decode (hex_encode bs) ≡ some bs
unfolding hex_decode
hex_decode-hex_encode bs h = ground (arith, length-hex_encode bs, decode_pairs-hex_encode bs h)

-- A stored device key is read back; a text of any other length of bytes is not a key.
pub hex_key-hex_encode :
    (bs : List ℕ)
    → All IsByte bs
    → hex_key (hex_encode bs) ≡ (if length bs == 32 then some bs else none)
unfolding hex_key
hex_key-hex_encode bs h = rw (hex_decode-hex_encode bs h)

nibble-lt : (c n : ℕ) → nibble c ≡ some n → n < 16
unfolding nibble
nibble-lt c n h = ground arith

byte_table : each_below 16 (λ hi. each_below 16 (λ lo. ltb (bit_or (hi * 16 % 256) lo) 256)) ≡ true
unfolding each_below
byte_table = refl

byte-lt : (hi lo : ℕ) → hi < 16 → lo < 16 → bit_or (hi * 16 % 256) lo < 256
byte-lt hi lo h l = ltb→lt _ _ (each_below_sound 16 _ lo (each_below_sound 16 _ hi byte_table h) l)

decode_pairs-IsByte : (s bs : List ℕ) → decode_pairs s ≡ some bs → All IsByte bs
unfolding decode_pairs
decode_pairs-IsByte [] bs h = ground arith
decode_pairs-IsByte (c ∷ []) bs h = cc
decode_pairs-IsByte (c ∷ d ∷ rest) bs h = elim (Option-cases (nibble c)) [
  | inl e ↦ ground arith
  | inr (hi, e) ↦ elim (Option-cases (nibble d)) [
    | inl e' ↦ ground arith
    | inr (lo, e') ↦ elim (Option-cases (decode_pairs rest)) [
      | inl r ↦ ground arith
      | inr (out, r) ↦ ground (
        arith,
        byte-lt hi lo (nibble-lt c hi e) (nibble-lt d lo e'),
        decode_pairs-IsByte rest out r,
      )
    ]
  ]
]

hex_key-some :
    (s key : List ℕ) → hex_key s ≡ some key → (hex_decode s ≡ some key) × (length key ≡ 32)
unfolding hex_key
hex_key-some s key h =
    let (bytes, read, kept) = >>=-some (hex_decode s) _ h in
    let (sized, same) = if-some _ bytes key kept in
    (read ∙ ap some same, ap length (sym same) ∙ (==_iff (length bytes) 32).0 sized)

hex_decode-IsByte : (s bs : List ℕ) → hex_decode s ≡ some bs → All IsByte bs
unfolding hex_decode
hex_decode-IsByte s bs h = decode_pairs-IsByte s bs (ground arith)

-- What is read as a key is one.
pub hex_key-IsKey : (s : List ℕ) {key : List ℕ} → hex_key s ≡ some key → IsKey key
hex_key-IsKey s {key} h =
    let read = hex_key-some s key h in
    record { sized = read.1; bytes = hex_decode-IsByte s key read.0 }
