-- ===== src/Crypto/Pairing.antt =====
-- crypto.rs, `normalize_pairing_code`: the spellings of a pairing code.
use remote_input_bridge.Base.{ℕ, ◌≡◌, refl, sym, ◌∙◌, List, [], ◌∷◌, ◌++◌, false, arith}
use remote_input_bridge.Crypto.{Primitives, is_alphanumeric, to_uppercase, normalize_pairing_code}
use remote_input_bridge.Crypto.{derive_pairing_key}

normalize-append :
    (xs ys : List ℕ)
    → normalize_pairing_code (xs ++ ys) ≡ normalize_pairing_code xs ++ normalize_pairing_code ys
unfolding normalize_pairing_code
normalize-append [] ys = refl
normalize-append (x ∷ xs) ys = ground (arith, normalize-append xs ys)

to_uppercase-is_alphanumeric : (c : ℕ) → is_alphanumeric (to_uppercase c) ≡ is_alphanumeric c
unfolding is_alphanumeric to_uppercase
to_uppercase-is_alphanumeric c = ground arith

to_uppercase_twice : (c : ℕ) → to_uppercase (to_uppercase c) ≡ to_uppercase c
unfolding to_uppercase
to_uppercase_twice c = ground arith

normalize-separator :
    (c : ℕ) (ys : List ℕ)
    → is_alphanumeric c ≡ false
    → normalize_pairing_code (c ∷ ys) ≡ normalize_pairing_code ys
unfolding normalize_pairing_code
normalize-separator c ys h = rw h

normalize-case :
    (c : ℕ) (ys : List ℕ)
    → normalize_pairing_code (to_uppercase c ∷ ys) ≡ normalize_pairing_code (c ∷ ys)
unfolding normalize_pairing_code
normalize-case c ys = ground (arith, to_uppercase-is_alphanumeric c, to_uppercase_twice c)

-- The two spellings of a code that differ by one keystroke: a separator put in, or a letter in the
-- other case.
pub data Respelling : List ℕ → List ℕ → Type 0 where
  same : {xs : List ℕ} → Respelling xs xs
  separator :
      (xs ys : List ℕ) (c : ℕ) {zs : List ℕ}
      → is_alphanumeric c ≡ false
      → Respelling (xs ++ ys) zs
      → Respelling (xs ++ c ∷ ys) zs
  upper :
      (xs ys : List ℕ) (c : ℕ) {zs : List ℕ}
      → Respelling (xs ++ to_uppercase c ∷ ys) zs
      → Respelling (xs ++ c ∷ ys) zs
  back : {xs ys : List ℕ} → Respelling ys xs → Respelling xs ys
  chain : {xs ys zs : List ℕ} → Respelling xs ys → Respelling ys zs → Respelling xs zs

Respelling-normalize :
    {xs ys : List ℕ} → Respelling xs ys → normalize_pairing_code xs ≡ normalize_pairing_code ys
Respelling-normalize same = refl
Respelling-normalize (separator xs ys c h r) =
    rw (normalize-append xs (c ∷ ys), normalize-separator c ys h, ← normalize-append xs ys)
      (Respelling-normalize r)
Respelling-normalize (upper xs ys c r) =
    rw
      (
        normalize-append xs (c ∷ ys),
        ← normalize-case c ys,
        ← normalize-append xs (to_uppercase c ∷ ys),
      )
      (Respelling-normalize r)
Respelling-normalize (back r) = sym (Respelling-normalize r)
Respelling-normalize (chain r s) = Respelling-normalize r ∙ Respelling-normalize s

-- Two codes that differ in separators and in case alone derive the same pairing key.
pub derive_pairing_key-Respelling :
    (p : Primitives) {xs ys : List ℕ}
    → Respelling xs ys
    → derive_pairing_key p xs ≡ derive_pairing_key p ys
unfolding derive_pairing_key
derive_pairing_key-Respelling p r = rw (Respelling-normalize r, derive_pairing_key)
