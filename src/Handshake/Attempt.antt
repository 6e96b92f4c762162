-- ===== src/Handshake/Attempt.antt =====
-- net/mod.rs, what the network thread does with the key store around a handshake, and the outcome
-- that its round sees; what a failed attempt leaves of the key store.
use remote_input_bridge.Base.{ℕ, ◌≡◌, refl, ap, ap₂, subst, sym, ◌∙◌, List, Option, none, Bool}
use remote_input_bridge.Base.{true, false, ◌&&◌}
use remote_input_bridge.Base.{if◌then◌else◌, arith}
use remote_input_bridge.Base.Text.{text_eq}
use remote_input_bridge.Crypto.{Primitives}
use remote_input_bridge.Config.{Config}
use remote_input_bridge.Frame.{Result, ok, err}
use remote_input_bridge.KeyStore.{KeyStore, device_key, remove_device_key}
use remote_input_bridge.KeyStore.Lookup.{device_key-remove}
use remote_input_bridge.Net
use remote_input_bridge.Net.{ConnectError, auth_rejected, Outcome, failed}
use remote_input_bridge.Handshake.{Text, Serde, Socket, Channel, Session, Exchange, continue}
use remote_input_bridge.Handshake.{guard, ◌>>=◌, ◌>>◌}
use remote_input_bridge.Handshake.Connect.{greet, choose_key, authenticate, connect, file_key}
use remote_input_bridge.Handshake.Connect.{stored_key, key_index}
use remote_input_bridge.Handshake.Kept.{IsKept, keys_kept, greet-IsKept, choose_key-IsKept}
use remote_input_bridge.Handshake.Kept.{authenticate-IsKept}

unfoldable pub is_auth_rejected : ConnectError → Bool
is_auth_rejected auth_rejected = true
is_auth_rejected _ = false

-- The key that is known to be wrong is dropped.
unfoldable pub clear_stale : Config → Result ConnectError Session → KeyStore → KeyStore
unfolding is_auth_rejected
clear_stale cfg (ok session) keys = keys
clear_stale cfg (err e) keys =
    if is_auth_rejected e then remove_device_key cfg.mac_host keys else keys

module _ (p : Primitives) (s : Serde) (k : Socket) where
  unfoldable pub attempt : Config → Option Text → List ℕ → Exchange Session
  unfolding clear_stale
  attempt cfg code client_nonce ch =
      let (result, after) = connect p s k cfg code client_nonce ch in
      (result, record after { keys = clear_stale cfg result after.keys })

-- `err.to_string()` is the parameter `to_string`.
unfoldable pub outcome_of : (ConnectError → Text) → Result ConnectError Session → Outcome
outcome_of to_string (ok session) =
    Net.session (record { session_id = session.session_id; server_name = session.server_name })
outcome_of to_string (err e) = failed e (to_string e)

clear_stale-err :
    (cfg : Config) (e : ConnectError) (keys : KeyStore) (q : Text)
    → device_key (clear_stale cfg (err e) keys) q
      ≡ (if is_auth_rejected e && text_eq cfg.mac_host q then none else device_key keys q)
unfolding clear_stale
clear_stale-err cfg e keys q = ground (arith, device_key-remove keys cfg.mac_host q)

abbrev IsKeptByErrors : {A : Type 0} → Exchange A → Type 0
IsKeptByErrors m =
    (ch after : Channel) (e : ConnectError) → m ch ≡ (err e, after) → after.keys ≡ ch.keys

continue-err :
    {A B : Type 0} (f : A → Exchange B) (r : Result ConnectError A × Channel) (e : ConnectError)
    (after : Channel)
    → ((a : A) → IsKeptByErrors (f a))
    → continue f r ≡ (err e, after)
    → after.keys ≡ r.1.keys
unfolding continue
continue-err f (ok a, ch) e after h eq = h a ch after e eq
continue-err f (err e', ch) e after h eq = ap (λ x. x.1.keys) (sym eq)

chain-IsKeptByErrors :
    {A B : Type 0} (m : Exchange A) (f : A → Exchange B)
    → IsKept m
    → ((a : A) → IsKeptByErrors (f a))
    → IsKeptByErrors (m >>= f)
chain-IsKeptByErrors m f h g ch after e eq = continue-err f (m ch) e after g eq ∙ h ch

IsKept-IsKeptByErrors : {A : Type 0} (m : Exchange A) → IsKept m → IsKeptByErrors m
IsKept-IsKeptByErrors m h ch after e eq = keys_kept m ch h eq

module _ (p : Primitives) (s : Serde) (k : Socket) where
  -- Once the key is filed, only the socket can fail.
  file_key-last :
      {A : Type 0} (index : Text) (key : List ℕ) (fresh : Bool) (a : A)
      → k.ready ≡ true
      → IsKeptByErrors (do file_key index key fresh; guard (k.ready) Net.io; λ ch. (ok a, ch))
  unfolding file_key continue
  file_key-last index key fresh a ready ch after e eq = ground arith

  connect-IsKeptByErrors :
      (cfg : Config) (code : Option Text) (cn : List ℕ)
      → k.ready ≡ true
      → IsKeptByErrors (connect p s k cfg code cn)
  unfolding connect
  connect-IsKeptByErrors cfg code cn ready =
      chain-IsKeptByErrors _ _ (λ ch. refl)
        λ ip. chain-IsKeptByErrors (greet s k cfg cn) _ (greet-IsKept s k cfg cn) λ (ack, sn).
          chain-IsKeptByErrors (λ ch. (ok (stored_key cfg ack ch.keys), ch)) _ (λ ch. refl)
            λ stored.
              chain-IsKeptByErrors (choose_key p s k ack stored code cn sn) _
                (choose_key-IsKept p s k ack stored code cn sn)
                λ (key, fresh).
                  chain-IsKeptByErrors (authenticate p s k key cn sn) _
                    (authenticate-IsKept p s k key cn sn)
                    λ answer. file_key-last (key_index cfg ack) key fresh _ ready

  -- A failed attempt to connect, whatever the Mac and the stream did, if the timeouts of the socket can
  -- be set: the key store answers every question as before, except that the entry under the configured
  -- address is gone if the attempt failed because the Mac rejected the device key.
  pub attempt-err :
      (cfg : Config) (code : Option Text) (cn : List ℕ) (ch after : Channel) (e : ConnectError)
      (q : Text)
      → k.ready ≡ true
      → attempt p s k cfg code cn ch ≡ (err e, after)
      → device_key after.keys q
        ≡ (if is_auth_rejected e && text_eq cfg.mac_host q then none else device_key ch.keys q)
  unfolding attempt
  attempt-err cfg code cn ch after e q ready h =
      let run = connect p s k cfg code cn ch in
      let failed : run.0 ≡ err e = ap (λ x. x.0) h in
      let kept =
        connect-IsKeptByErrors cfg code cn ready ch run.1 e (ap (λ r. (r, run.1)) failed) in
      let left : clear_stale cfg (err e) ch.keys ≡ after.keys =
        ap₂ (clear_stale cfg) (sym failed) (sym kept) ∙ ap (λ x. x.1.keys) h in
      subst
        (λ keys.
          device_key keys q
          ≡ (if is_auth_rejected e && text_eq cfg.mac_host q then none else device_key ch.keys q))
        left (clear_stale-err cfg e ch.keys q)
