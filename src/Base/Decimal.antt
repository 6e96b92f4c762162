-- ===== src/Base/Decimal.antt =====
-- Numbers as decimal texts: `Display`, and `parse` at an unsigned type.
use Prim.Native.Nat.{ℕ, zero, suc, ◌+◌, ◌-◌, ◌*◌, ◌/◌, ◌%◌, ◌≤◌, ◌<◌}
use mathlib.Core.Bool.{◌&&◌}
use mathlib.Core.List.{List, [], ◌∷◌, ◌++◌}
use mathlib.Core.Option.{Option, none, some}
use mathlib.Core.Path.{◌≡◌, refl, ap, ◌∙◌}
use native.Mathlib.Omega.{arith}
use remote_input_bridge.Base.Lists.{All, All-append, length, length-append}
use remote_input_bridge.Base.Tests.{◌==◌, ltb, leb, if◌then◌else◌, if-either}

-- `Display` of a number: its decimal digits, of which there are at most as many as the fuel.
decimal_digits : ℕ → ℕ → List ℕ
decimal_digits zero n = []
decimal_digits (suc fuel) n =
    let rest = decimal_digits fuel (n / 10) in
    if ltb n 10 then (b'0' + n) ∷ [] else rest ++ (b'0' + n % 10) ∷ []

unfoldable pub decimal : ℕ → List ℕ
unfolding decimal_digits
decimal n = decimal_digits (suc n) n

-- `parse` at an unsigned type whose values are below the bound: an optional `+`, then digits, at
-- least one, with no value on the way that does not fit.
parse_digits : ℕ → ℕ → List ℕ → Option ℕ
parse_digits bound acc [] = some acc
parse_digits bound acc (c ∷ cs) =
    let next = acc * 10 + (c - b'0') in
    let rest = parse_digits bound next cs in
    if leb b'0' c && leb c b'9' then (if ltb next bound then rest else none) else none

parse_unsigned : ℕ → List ℕ → Option ℕ
unfolding parse_digits
parse_unsigned bound [] = none
parse_unsigned bound (c ∷ cs) = parse_digits bound 0 (c ∷ cs)

unfoldable pub parse_number : ℕ → List ℕ → Option ℕ
unfolding parse_unsigned
parse_number bound [] = none
parse_number bound (c ∷ cs) =
    if c == b'+' then parse_unsigned bound cs else parse_unsigned bound (c ∷ cs)

-- Digits are read from the left as a number.
pub read_digits : ℕ → List ℕ → ℕ
read_digits acc [] = acc
read_digits acc (c ∷ cs) = read_digits (acc * 10 + (c - b'0')) cs

unfoldable pub IsDigit : ℕ → Type 0
IsDigit c = (b'0' ≤ c) × (c ≤ b'9')

read_digits-append :
    (acc : ℕ) (xs : List ℕ) (d : ℕ)
    → read_digits acc (xs ++ (b'0' + d) ∷ []) ≡ read_digits acc xs * 10 + d
unfolding read_digits
read_digits-append acc [] d = omega arith
read_digits-append acc (x ∷ xs) d = read_digits-append (acc * 10 + (x - b'0')) xs d

read_digits-decimal_digits : (fuel n : ℕ) → n < fuel → read_digits 0 (decimal_digits fuel n) ≡ n
unfolding decimal_digits read_digits
read_digits-decimal_digits zero n h = absurd (omega arith)
read_digits-decimal_digits (suc fuel) n h = ground (
  arith,
  read_digits-append 0 (decimal_digits fuel (n / 10)) (n % 10),
  read_digits-decimal_digits fuel (n / 10),
)

le-read_digits : (acc : ℕ) (cs : List ℕ) → acc ≤ read_digits acc cs
unfolding read_digits
le-read_digits acc [] = omega arith
le-read_digits acc (c ∷ cs) = omega (arith, le-read_digits (acc * 10 + (c - b'0')) cs)

parse_digits-read_digits :
    (bound acc : ℕ) (cs : List ℕ)
    → All IsDigit cs
    → read_digits acc cs < bound
    → parse_digits bound acc cs ≡ some (read_digits acc cs)
unfolding parse_digits read_digits IsDigit
parse_digits-read_digits bound acc [] h lt = refl
parse_digits-read_digits bound acc (c ∷ cs) h lt = ground (
  arith,
  h.0,
  le-read_digits (acc * 10 + (c - b'0')) cs,
  parse_digits-read_digits bound (acc * 10 + (c - b'0')) cs h.1 lt,
)

decimal_digits-IsDigit : (fuel n : ℕ) → All IsDigit (decimal_digits fuel n)
unfolding decimal_digits
decimal_digits-IsDigit zero n = tt
decimal_digits-IsDigit (suc fuel) n =
    if-either (All IsDigit) (ltb n 10) _ _ (λ small. (unfold IsDigit in ground arith, tt))
      (λ large.
        All-append IsDigit (decimal_digits fuel (n / 10)) _ (decimal_digits-IsDigit fuel (n / 10))
          (unfold IsDigit in ground arith, tt))

pub decimal-IsDigit : (n : ℕ) → All IsDigit (decimal n)
unfolding decimal
decimal-IsDigit n = decimal_digits-IsDigit (suc n) n

decimal_digits-filled : (fuel n : ℕ) → 0 < length (decimal_digits (suc fuel) n)
unfolding decimal_digits
decimal_digits-filled fuel n =
    ground (arith, length-append (decimal_digits fuel (n / 10)) ((b'0' + n % 10) ∷ []))

parse_number-IsDigit :
    (bound : ℕ) (cs : List ℕ)
    → All IsDigit cs
    → 0 < length cs
    → read_digits 0 cs < bound
    → parse_number bound cs ≡ some (read_digits 0 cs)
unfolding parse_number parse_unsigned
parse_number-IsDigit bound [] h l lt = absurd (omega arith)
parse_number-IsDigit bound (c ∷ cs) h l lt =
    let first : (b'0' ≤ c) × (c ≤ b'9') = unfold IsDigit in h.0 in
    ground (arith, first, parse_digits-read_digits bound 0 (c ∷ cs) h lt)

-- What is printed in decimals is read back, if it fits.
pub parse_number-decimal : (bound n : ℕ) → n < bound → parse_number bound (decimal n) ≡ some n
unfolding decimal
parse_number-decimal bound n h =
    let back = read_digits-decimal_digits (suc n) n (omega arith) in
    parse_number-IsDigit bound _ (decimal_digits-IsDigit (suc n) n) (decimal_digits-filled n n)
      (omega (arith, back))
    ∙ ap some back
