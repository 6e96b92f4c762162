-- ===== src/KeyStore/Lookup.antt =====
-- config.rs, `KeyStore`: what is found after a key is filed or removed.
use remote_input_bridge.Base.{ℕ, ◌≡◌, refl, List, [], ◌∷◌, none, some, true, false, arith}
use remote_input_bridge.Base.{if◌then◌else◌, Bool-cases, >>=-some, inl, inr}
use remote_input_bridge.Base.Text.{text_eq, text_eq_sym, text_eq→eq}
use remote_input_bridge.Crypto.{IsKey, hex_encode, hex_key}
use remote_input_bridge.Crypto.Hex.{hex_key-hex_encode, hex_key-IsKey}
use remote_input_bridge.KeyStore.{KeyStore, KeyTable, get, insert, remove, device_key}
use remote_input_bridge.KeyStore.{set_device_key, remove_device_key}

text_eq_swap : (a b c : List ℕ) → text_eq a b ≡ true → text_eq a c ≡ text_eq b c
text_eq_swap a b c h = rw (text_eq→eq a b h)

-- A name that is not `h` is looked at first or last.
pass_over {ℓ} :
    {A : Type ℓ} (x y z : A) (name h q : List ℕ)
    → text_eq name h ≡ false
    → (if text_eq name q then x else if text_eq h q then y else z)
      ≡ (if text_eq h q then y else if text_eq name q then x else z)
pass_over x y z name h q e = elim (Bool-cases (text_eq name q)) [
  | inl f ↦ ground (arith, text_eq→eq name q f, text_eq_swap name q h f, text_eq_sym q h)
  | inr f ↦ ground arith
]

get-insert :
    (m : KeyTable) (h q text : List ℕ)
    → get (insert m h text) q ≡ (if text_eq h q then some text else get m q)
unfolding get insert
get-insert [] h q text = refl
get-insert ((name, old) ∷ rest) h q text = elim (Bool-cases (text_eq name h)) [
  | inl e ↦ rw (e, text_eq_swap name h q e) (ground arith)
  | inr e ↦ rw (e, get-insert rest h q text) (pass_over _ _ _ name h q e)
]

get-remove :
    (m : KeyTable) (h q : List ℕ) → get (remove m h) q ≡ (if text_eq h q then none else get m q)
unfolding get remove
get-remove [] h q = ground arith
get-remove ((name, old) ∷ rest) h q = elim (Bool-cases (text_eq name h)) [
  | inl e ↦ rw (e, get-remove rest h q, text_eq_swap name h q e) (ground arith)
  | inr e ↦ rw (e, get-remove rest h q) (pass_over _ _ _ name h q e)
]

-- A key that is filed is found under its name, and what is filed under the others stays.
pub device_key-set :
    (keys : KeyStore) (h key q : List ℕ)
    → IsKey key
    → device_key (set_device_key h key keys) q
      ≡ (if text_eq h q then some key else device_key keys q)
unfolding device_key set_device_key
device_key-set keys h key q k =
    rw (get-insert keys.device_keys h q (hex_encode key))
      (ground (arith, hex_key-hex_encode key k.bytes, k.sized))

pub device_key-remove :
    (keys : KeyStore) (h q : List ℕ)
    → device_key (remove_device_key h keys) q ≡ (if text_eq h q then none else device_key keys q)
unfolding device_key remove_device_key
device_key-remove keys h q = rw (get-remove keys.device_keys h q) (ground arith)

pub device_key-IsKey :
    (keys : KeyStore) (h : List ℕ) (key : List ℕ) → device_key keys h ≡ some key → IsKey key
unfolding device_key
device_key-IsKey keys h key e =
    let (text, there, read) = >>=-some (get keys.device_keys h) hex_key e in hex_key-IsKey text read
