-- ===== src/KeyStore.antt =====
-- config.rs, `KeyStore`: the device keys, in hexadecimal, by the name that they are filed under. The
-- `BTreeMap` is an association list in which a name stands once. The file of the store is left out.
use remote_input_bridge.Base.{ℕ, List, [], ◌∷◌, Option, none, some, if◌then◌else◌, ◌>>=◌}
use remote_input_bridge.Base.Text.{text_eq}
use remote_input_bridge.Crypto.{hex_encode, hex_key}
pub mod Lookup
pub mod Refines

abbrev pub KeyTable : Type 0
KeyTable = List (List ℕ × List ℕ)

pub record KeyStore : Type 0 where
  pub client_id : List ℕ
  pub device_keys : KeyTable

get : KeyTable → List ℕ → Option (List ℕ)
get [] host = none
get ((name, text) ∷ rest) host = if text_eq name host then some text else get rest host

insert : KeyTable → List ℕ → List ℕ → KeyTable
insert [] host text = (host, text) ∷ []
insert ((name, old) ∷ rest) host text =
    if text_eq name host then (name, text) ∷ rest else (name, old) ∷ insert rest host text

remove : KeyTable → List ℕ → KeyTable
remove [] host = []
remove ((name, text) ∷ rest) host =
    if text_eq name host then remove rest host else (name, text) ∷ remove rest host

unfoldable pub device_key : KeyStore → List ℕ → Option (List ℕ)
unfolding get
device_key keys host = do text ← get keys.device_keys host; hex_key text

unfoldable pub set_device_key : List ℕ → List ℕ → KeyStore → KeyStore
unfolding insert
set_device_key host key keys = record keys {
  device_keys = insert keys.device_keys host (hex_encode key);
}

-- `keys.device_keys.remove(..)` of the network thread.
unfoldable pub remove_device_key : List ℕ → KeyStore → KeyStore
unfolding remove
remove_device_key host keys = record keys { device_keys = remove keys.device_keys host }

-- `KeyStore::load`, with what the default makes and what reading the file gives: none for an error,
-- and in it none for a text that serde_json refuses. The store, and what is written to the file.
unfoldable pub load : KeyStore → Option (Option KeyStore) → KeyStore × Option KeyStore
load fresh none = (fresh, some fresh)
load fresh (some none) = (fresh, none)
load fresh (some (some store)) = (store, none)
