-- ===== src/Base/Text.antt =====
-- Texts as lists of code points.
use Prim.Native.Char.{code}
use Prim.Native.String.{String}
use Prim.Native.Nat.{ℕ}
use mathlib.Core.Bool.{Bool, true, false, ◌&&◌}
use mathlib.Core.List.{List, [], ◌∷◌}
use mathlib.Core.Path.{◌≡◌, refl}
use native.Mathlib.Omega.{arith}
use remote_input_bridge.Base.Tests.{◌==◌}

-- The code points of a text: its bytes, if it is ASCII.
abbrev pub ascii : String → List ℕ
ascii String.[] = []
ascii (String.◌∷◌ c s) = code c ∷ ascii s

-- `==` on texts.
abbrev pub text_eq : List ℕ → List ℕ → Bool
text_eq [] [] = true
text_eq (x ∷ xs) (y ∷ ys) = x == y && text_eq xs ys
text_eq xs ys = false

pub text_eq_refl : (xs : List ℕ) → text_eq xs xs ≡ true
text_eq_refl [] = refl
text_eq_refl (x ∷ xs) = ground (arith, text_eq_refl xs)

pub text_eq→eq : (xs ys : List ℕ) → text_eq xs ys ≡ true → xs ≡ ys
text_eq→eq [] [] h = refl
text_eq→eq [] (y ∷ ys) h = cc
text_eq→eq (x ∷ xs) [] h = cc
text_eq→eq (x ∷ xs) (y ∷ ys) h = ground (arith, text_eq→eq xs ys)

pub text_eq_sym : (xs ys : List ℕ) → text_eq xs ys ≡ text_eq ys xs
text_eq_sym [] [] = refl
text_eq_sym [] (y ∷ ys) = refl
text_eq_sym (x ∷ xs) [] = refl
text_eq_sym (x ∷ xs) (y ∷ ys) = ground (arith, text_eq_sym xs ys)
