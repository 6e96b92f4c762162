-- ===== src/Wire/Bytes.antt =====
-- The byte views of integers that the wire format uses: `to_be_bytes` and `from_be_bytes` at any
-- width, and `get(off..off + n)` on a slice of bytes. An `i32` is its bit pattern, below 2 ^ 32.
use native.Mathlib.Nat.{pow-suc, div-add-mod', div-div-eq-div-mul}
use remote_input_bridge.Base.{ℕ, zero, suc, ◌+◌, ◌*◌, ◌/◌, ◌%◌, ◌^◌, ◌<◌, ◌≡◌, refl, ap, arith}
use remote_input_bridge.Base.{List, [], ◌∷◌, ◌++◌, Option, none, some, Bool, true, false, ◌∙◌}
use remote_input_bridge.Base.{if◌then◌else◌, leb, length, take, drop, All, take-length, drop-length}
use remote_input_bridge.Base.{length-append, length-take, length-drop, All-take, All-drop}

abbrev pub IsByte : ℕ → Type 0
IsByte b = b < 256

-- The `n` low bytes of `x`, the highest first.
unfoldable pub to_be_bytes : ℕ → ℕ → List ℕ
to_be_bytes zero x = []
to_be_bytes (suc n) x = (x / 256 ^ n % 256) ∷ to_be_bytes n x

from_be_loop : ℕ → List ℕ → ℕ
from_be_loop acc [] = acc
from_be_loop acc (b ∷ bs) = from_be_loop (acc * 256 + b) bs

unfoldable pub from_be_bytes : List ℕ → ℕ
unfolding from_be_loop
from_be_bytes = from_be_loop 0

-- `b.get(off..off + n)`.
unfoldable pub slice : ℕ → ℕ → List ℕ → Option (List ℕ)
slice off n b = if leb (off + n) (length b) then some (take n (drop off b)) else none

unfoldable pub bool_byte : Bool → ℕ
bool_byte true = 1
bool_byte false = 0

pub length-to_be_bytes : (n x : ℕ) → length (to_be_bytes n x) ≡ n
unfolding to_be_bytes
length-to_be_bytes zero x = refl
length-to_be_bytes (suc n) x = ap suc (length-to_be_bytes n x)

pub to_be_bytes-IsByte : (n x : ℕ) → All IsByte (to_be_bytes n x)
unfolding to_be_bytes
to_be_bytes-IsByte zero x = tt
to_be_bytes-IsByte (suc n) x = (omega arith, to_be_bytes-IsByte n x)

-- The remainder by one more byte is that byte and the remainder below it.
digit_split : (x p : ℕ) → x / p % 256 * p + x % p ≡ x % (p * 256)
digit_split x p = omega (
  arith,
  div-add-mod' x p,
  div-add-mod' x (p * 256),
  ap (λ (t : ℕ). t * p) (div-add-mod' (x / p) 256),
  ap (λ (t : ℕ). t * (p * 256)) (div-div-eq-div-mul x p 256),
)

from_be_loop-to_be_bytes :
    (n acc x : ℕ) → from_be_loop acc (to_be_bytes n x) ≡ acc * 256 ^ n + x % 256 ^ n
unfolding from_be_loop to_be_bytes
from_be_loop-to_be_bytes zero acc x = omega arith
from_be_loop-to_be_bytes (suc n) acc x =
    from_be_loop-to_be_bytes n (acc * 256 + x / 256 ^ n % 256) x
    ∙ rw (pow-suc 256 n) (omega (arith, digit_split x (256 ^ n)))

pub from-to_be_bytes : (n x : ℕ) → x < 256 ^ n → from_be_bytes (to_be_bytes n x) ≡ x
unfolding from_be_bytes
from-to_be_bytes n x h = grind (arith, from_be_loop-to_be_bytes n 0 x)

from_be_loop-lt :
    (bs : List ℕ) (acc : ℕ) → All IsByte bs → from_be_loop acc bs < (acc + 1) * 256 ^ length bs
unfolding from_be_loop
from_be_loop-lt [] acc h = omega arith
from_be_loop-lt (b ∷ bs) acc h =
    rw (pow-suc 256 (length bs)) (grind (arith, from_be_loop-lt bs (acc * 256 + b) h.1))

pub from_be_bytes-lt : (bs : List ℕ) → All IsByte bs → from_be_bytes bs < 256 ^ length bs
unfolding from_be_bytes
from_be_bytes-lt bs h = omega (arith, from_be_loop-lt bs 0 h)

-- A field between two others is cut out exactly.
pub slice_middle :
    (front mid back : List ℕ) (off n : ℕ)
    → length front ≡ off
    → length mid ≡ n
    → slice off n (front ++ (mid ++ back)) ≡ some mid
unfolding slice
slice_middle front mid back off n h k = ground (
  arith,
  drop-length front (mid ++ back) off h,
  take-length mid back n k,
  length-append front (mid ++ back),
  length-append mid back,
)

-- A slice that is there has its length, and bytes stay bytes.
pub slice-some :
    (off n : ℕ) (b s : List ℕ)
    → slice off n b ≡ some s
    → All IsByte b
    → (length s ≡ n) × All IsByte s
unfolding slice
slice-some off n b s e h = ground (
  arith,
  length-take n (drop off b),
  length-drop off b,
  All-take IsByte n (drop off b) (All-drop IsByte off b h),
)
