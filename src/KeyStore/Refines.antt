-- ===== src/KeyStore/Refines.antt =====
-- config.rs, `KeyStore`, against a map from names to keys that is a function.
use mathlib.Core.Path.{fun_ext}
use remote_input_bridge.Base.{
  ℕ, ◌≡◌, refl, ap, ◌∙◌, List, [], ◌∷◌, Option, none, some, if◌then◌else◌, All,
}
use remote_input_bridge.Base.Text.{text_eq}
use remote_input_bridge.Crypto.{IsKey}
use remote_input_bridge.KeyStore.{KeyStore, device_key, set_device_key, remove_device_key}
use remote_input_bridge.KeyStore.Lookup.{device_key-set, device_key-remove}

-- What the program does to the key store.
pub data Change : Type 0 where
  set : (host key : List ℕ) → Change
  remove : (host : List ℕ) → Change

unfoldable pub IsValid : Change → Type 0
IsValid (set host key) = IsKey key
IsValid (remove host) = Unit

unfoldable pub run : List Change → KeyStore → KeyStore
run [] keys = keys
run (set host key ∷ cs) keys = run cs (set_device_key host key keys)
run (remove host ∷ cs) keys = run cs (remove_device_key host keys)

-- A function, changed at one name.
abbrev pub change_at :
    List ℕ → Option (List ℕ) → (List ℕ → Option (List ℕ)) → List ℕ → Option (List ℕ)
change_at host key f q = if text_eq host q then key else f q

-- The same changes, on a function.
unfoldable pub replay : List Change → (List ℕ → Option (List ℕ)) → List ℕ → Option (List ℕ)
replay [] f = f
replay (set host key ∷ cs) f = replay cs (change_at host (some key) f)
replay (remove host ∷ cs) f = replay cs (change_at host none f)

-- From any key store, after any changes in which the keys filed have 32 bytes, the store answers every
-- lookup like the function that the same changes make of the lookups at the start.
pub run_refines :
    (cs : List Change) (keys : KeyStore)
    → All IsValid cs
    → device_key (run cs keys) ≡ replay cs (device_key keys)
unfolding run replay IsValid
run_refines [] keys valid = refl
run_refines (set host key ∷ cs) keys (k, ks) =
    run_refines cs (set_device_key host key keys) ks
    ∙ ap (replay cs) (fun_ext λ q. device_key-set keys host key q k)
run_refines (remove host ∷ cs) keys (k, ks) =
    run_refines cs (remove_device_key host keys) ks
    ∙ ap (replay cs) (fun_ext λ q. device_key-remove keys host q)
