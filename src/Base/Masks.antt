-- ===== src/Base/Masks.antt =====
-- Facts on small ranges by evaluation of every value, and the laws of masks at variables.
use Prim.Native.Nat.{ℕ, zero, suc, ◌+◌, ◌*◌, ◌/◌, ◌%◌, ◌≤◌, ◌<◌, ◌^◌, bit_xor, bit_or, max, ◌-◌}
use Prim.Native.Nat.{digits, bit_xor-bitwise, bit_or-bitwise, differ}
use mathlib.Core.Path.{◌≡◌, refl, ap, ◌∙◌}
use mathlib.Core.Bool.{Bool, true, ◌&&◌}
use native.Mathlib.Nat.{pow-suc, div-div-eq-div-mul}
use native.Mathlib.Omega.{arith}

unfoldable pub each_below : ℕ → (ℕ → Bool) → Bool
each_below zero test = true
each_below (suc bound) test = each_below bound test && test bound

pub each_below_sound :
    (bound : ℕ) (test : ℕ → Bool) (x : ℕ) → each_below bound test ≡ true → x < bound → test x ≡ true
unfolding each_below
each_below_sound (suc bound) test x all lt = ground (arith, each_below_sound bound test x)
each_below_sound zero test x all lt = absurd (omega arith)

-- `bit_xor` by its lowest digit. The digit recursion has fuel, which does not matter.
abbrev xor_digits : ℕ → ℕ → ℕ → ℕ
xor_digits fuel a b = digits (λ rest. rest) differ fuel a b

xor_digits_fuel : (f g a b : ℕ) → a ≤ f → a ≤ g → xor_digits f a b ≡ xor_digits g a b
xor_digits_fuel (suc f) (suc g) (suc a) b enough more =
    let shorter = xor_digits_fuel f g (suc a / 2) (b / 2) (omega arith) (omega arith) in
    omega (arith, shorter)
xor_digits_fuel zero g (suc a) b enough more = absurd (omega arith)
xor_digits_fuel (suc f) zero (suc a) b enough more = absurd (omega arith)
xor_digits_fuel zero zero zero b enough more = refl
xor_digits_fuel zero (suc g) zero b enough more = refl
xor_digits_fuel (suc f) zero zero b enough more = refl
xor_digits_fuel (suc f) (suc g) zero b enough more = refl

pub zero-bit_xor : (y : ℕ) → bit_xor 0 y ≡ y
zero-bit_xor y = bit_xor-bitwise 0 y

pub bit_xor_step : (x y : ℕ) → bit_xor x y ≡ bit_xor (x / 2) (y / 2) * 2 + differ (x % 2) (y % 2)
bit_xor_step (suc x) y =
    let same = xor_digits_fuel x (suc x / 2) (suc x / 2) (y / 2) (omega arith) (omega arith) in
    omega (arith, same, bit_xor-bitwise (suc x / 2) (y / 2), bit_xor-bitwise (suc x) y)
bit_xor_step zero y = omega (arith, zero-bit_xor (y / 2), zero-bit_xor y)

differ_bits : (x y : ℕ) → x < 2 → y < 2 → (differ x y < 2) × (differ (differ x y) y ≡ x)
differ_bits zero zero h k = omega arith
differ_bits zero (suc zero) h k = omega arith
differ_bits zero (suc (suc y)) h k = absurd (omega arith)
differ_bits (suc zero) zero h k = omega arith
differ_bits (suc zero) (suc zero) h k = omega arith
differ_bits (suc zero) (suc (suc y)) h k = absurd (omega arith)
differ_bits (suc (suc x)) y h k = absurd (omega arith)

-- A mask that is applied twice is taken off again, at every width.
bit_xor_twice_fuel : (n a b : ℕ) → a ≤ n → b ≤ n → bit_xor (bit_xor a b) b ≡ a
bit_xor_twice_fuel zero zero zero p q = refl
bit_xor_twice_fuel zero zero (suc b) p q = absurd (omega arith)
bit_xor_twice_fuel zero (suc a) b p q = absurd (omega arith)
bit_xor_twice_fuel (suc n) a b p q =
    let (lt, back) = differ_bits (a % 2) (b % 2) (omega arith) (omega arith) in
    let half : bit_xor a b / 2 ≡ bit_xor (a / 2) (b / 2) = omega (arith, bit_xor_step a b) in
    let low : bit_xor a b % 2 ≡ differ (a % 2) (b % 2) = omega (arith, bit_xor_step a b) in
    rw
      (
        bit_xor_step (bit_xor a b) b,
        half,
        low,
        back,
        bit_xor_twice_fuel n (a / 2) (b / 2) (omega arith) (omega arith),
      )
      (omega arith)

pub bit_xor_twice : (a b : ℕ) → bit_xor (bit_xor a b) b ≡ a
bit_xor_twice a b = bit_xor_twice_fuel (a + b) a b (omega arith) (omega arith)

-- A result has no more bits than its arguments.
pub bit_xor-lt : (w a b : ℕ) → a < 2 ^ w → b < 2 ^ w → bit_xor a b < 2 ^ w
bit_xor-lt zero zero zero p q = omega arith
bit_xor-lt zero zero (suc b) p q = absurd (omega arith)
bit_xor-lt zero (suc a) b p q = absurd (omega arith)
bit_xor-lt (suc w) a b p q =
    let pw : 2 ^ suc w ≡ 2 ^ w * 2 = pow-suc 2 w in
    omega (
      arith,
      bit_xor_step a b,
      differ_bits (a % 2) (b % 2) (omega arith) (omega arith),
      bit_xor-lt w (a / 2) (b / 2) (omega arith) (omega arith),
    )

-- `bit_or` by its lowest digit.
abbrev or_digits : ℕ → ℕ → ℕ → ℕ
or_digits fuel a b = digits (λ rest. rest) max fuel a b

or_digits_fuel : (f g a b : ℕ) → a ≤ f → a ≤ g → or_digits f a b ≡ or_digits g a b
or_digits_fuel (suc f) (suc g) (suc a) b enough more =
    let shorter = or_digits_fuel f g (suc a / 2) (b / 2) (omega arith) (omega arith) in
    omega (arith, shorter)
or_digits_fuel zero g (suc a) b enough more = absurd (omega arith)
or_digits_fuel (suc f) zero (suc a) b enough more = absurd (omega arith)
or_digits_fuel zero zero zero b enough more = refl
or_digits_fuel zero (suc g) zero b enough more = refl
or_digits_fuel (suc f) zero zero b enough more = refl
or_digits_fuel (suc f) (suc g) zero b enough more = refl

zero-bit_or : (y : ℕ) → bit_or 0 y ≡ y
zero-bit_or y = bit_or-bitwise 0 y

bit_or_step : (x y : ℕ) → bit_or x y ≡ bit_or (x / 2) (y / 2) * 2 + max (x % 2) (y % 2)
bit_or_step (suc x) y =
    let same = or_digits_fuel x (suc x / 2) (suc x / 2) (y / 2) (omega arith) (omega arith) in
    omega (arith, same, bit_or-bitwise (suc x / 2) (y / 2), bit_or-bitwise (suc x) y)
bit_or_step zero y = omega (arith, zero-bit_or (y / 2), zero-bit_or y)

bit_or-zero : (fuel x : ℕ) → x ≤ fuel → bit_or x 0 ≡ x
bit_or-zero fuel zero h = zero-bit_or 0
bit_or-zero zero (suc x) h = absurd (omega arith)
bit_or-zero (suc fuel) (suc x) h =
    omega (arith, bit_or_step (suc x) 0, bit_or-zero fuel (suc x / 2) (omega arith))

pub pow_pos : (k : ℕ) → 0 < 2 ^ k
pow_pos zero = omega arith
pow_pos (suc k) = rw (pow-suc 2 k) (omega (arith, pow_pos k))

-- A mask of ones below a power sets all the low bits.
pub bit_or_ones : (k x : ℕ) → bit_or x (2 ^ k - 1) ≡ x / 2 ^ k * 2 ^ k + (2 ^ k - 1)
bit_or_ones zero x = omega (arith, bit_or-zero x x (omega arith))
bit_or_ones (suc k) x =
    let pw : 2 ^ suc k ≡ 2 ^ k * 2 = pow-suc 2 k in
    let half : (2 ^ k * 2 - 1) / 2 ≡ 2 ^ k - 1 = omega (arith, pow_pos k) in
    let cut : x / 2 / 2 ^ k ≡ x / (2 ^ k * 2) =
      div-div-eq-div-mul x 2 (2 ^ k) ∙ ap (λ (t : ℕ). x / t) (omega arith) in
    let rest : bit_or (x / 2) ((2 ^ k * 2 - 1) / 2) ≡ x / (2 ^ k * 2) * 2 ^ k + (2 ^ k - 1) =
      rw half (bit_or_ones k (x / 2)) ∙ ap (λ (t : ℕ). t * 2 ^ k + (2 ^ k - 1)) cut in
    rw pw
      (omega (arith, bit_or_step x (2 ^ k * 2 - 1), rest, pow_pos k, ap (λ (t : ℕ). t * 2) rest))
