-- ===== src/Handshake/Kept.antt =====
-- net/control.rs: no step of the handshake before the filing touches the key store.
use remote_input_bridge.Base.{ℕ, ◌≡◌, refl, ap, sym, ◌∙◌, List, Option, none, some, arith}
use remote_input_bridge.Crypto.{Primitives}
use remote_input_bridge.Config.{Config}
use remote_input_bridge.Frame.{Result, ok, err}
use remote_input_bridge.Net.{ConnectError}
use remote_input_bridge.Handshake.{Text, HelloAck, Serde, Socket, Channel, Exchange, or_raise}
use remote_input_bridge.Handshake.{continue, ◌>>=◌}
use remote_input_bridge.Handshake.Frames.{read_json, expect_frame, write_frame}
use remote_input_bridge.Handshake.Connect.{pair, greet, choose_key, authenticate, rename_error}

abbrev pub IsKept : {A : Type 0} → Exchange A → Type 0
IsKept m = (ch : Channel) → (m ch).1.keys ≡ ch.keys

-- Such a step that is seen to go from one channel to another.
pub keys_kept :
    {A : Type 0} (m : Exchange A) (ch : Channel) {r : Result ConnectError A} {after : Channel}
    → IsKept m
    → m ch ≡ (r, after)
    → after.keys ≡ ch.keys
keys_kept m ch kept e = ap (λ x. x.1.keys) (sym e) ∙ kept ch

continue-keys :
    {A B : Type 0} (f : A → Exchange B) (r : Result ConnectError A × Channel)
    → ((a : A) → IsKept (f a))
    → (continue f r).1.keys ≡ r.1.keys
unfolding continue
continue-keys f (ok a, ch) h = h a ch
continue-keys f (err e, ch) h = refl

chain-IsKept :
    {A B : Type 0} (m : Exchange A) (f : A → Exchange B)
    → IsKept m
    → ((a : A) → IsKept (f a))
    → IsKept (m >>= f)
chain-IsKept m f h g ch = continue-keys f (m ch) g ∙ h ch

or_raise-IsKept : {A : Type 0} (o : Option A) (e : ConnectError) → IsKept (or_raise o e)
or_raise-IsKept none e ch = refl
or_raise-IsKept (some a) e ch = refl

rename_error-IsKept : (m : Exchange Text) → IsKept m → IsKept (rename_error m)
unfolding rename_error
rename_error-IsKept m h ch = ground (arith, h ch)

write_frame-IsKept : (k : Socket) (payload : List ℕ) → IsKept (write_frame k payload)
unfolding write_frame
write_frame-IsKept k payload ch = ground arith

read_json-IsKept : (s : Serde) → IsKept (read_json s)
unfolding read_json
read_json-IsKept s ch = ground arith

expect_frame-IsKept : (s : Serde) (want : Text) → IsKept (expect_frame s want)
unfolding expect_frame
expect_frame-IsKept s want = chain-IsKept _ _ (read_json-IsKept s) λ text ch. refl

pub greet-IsKept : (s : Serde) (k : Socket) (cfg : Config) (cn : List ℕ) → IsKept (greet s k cfg cn)
unfolding greet
greet-IsKept s k cfg cn ch =
    chain-IsKept (write_frame k _) _ (write_frame-IsKept k _)
      (λ u. chain-IsKept _ _ (expect_frame-IsKept s _) λ text.
        chain-IsKept _ _ (or_raise-IsKept _ _) λ ack.
          chain-IsKept _ _ (λ c. refl) λ v. chain-IsKept _ _ (or_raise-IsKept _ _) λ nonce c. refl)
      ch

module _ (p : Primitives) (s : Serde) (k : Socket) where
  pair-IsKept : (code : Text) (cn sn : List ℕ) → IsKept (pair p s k code cn sn)
  unfolding pair
  pair-IsKept code cn sn = chain-IsKept _ _ (write_frame-IsKept k _) λ u.
      chain-IsKept _ _ (expect_frame-IsKept s _) λ text.
        chain-IsKept _ _ (or_raise-IsKept _ _) λ resp.
          chain-IsKept _ _ (or_raise-IsKept _ _)
            λ wrapped. chain-IsKept _ _ (λ ch. refl) λ u' ch. refl

  pub choose_key-IsKept :
      (ack : HelloAck) (stored : Option (List ℕ)) (code : Option Text) (cn sn : List ℕ)
      → IsKept (choose_key p s k ack stored code cn sn)
  unfolding choose_key
  choose_key-IsKept ack stored (some code) cn sn =
      chain-IsKept _ _ (λ ch. refl) λ u. chain-IsKept _ _ (pair-IsKept code cn sn) λ key ch. refl
  choose_key-IsKept ack (some key) none cn sn = λ ch. ground arith
  choose_key-IsKept ack none none cn sn = λ ch. refl

  pub authenticate-IsKept : (key cn sn : List ℕ) → IsKept (authenticate p s k key cn sn)
  unfolding authenticate
  authenticate-IsKept key cn sn = chain-IsKept _ _ (write_frame-IsKept k _) λ u.
      chain-IsKept _ _ (rename_error-IsKept _ (expect_frame-IsKept s _)) λ text.
        chain-IsKept _ _ (or_raise-IsKept _ _) λ answer. chain-IsKept _ _ (λ ch. refl) λ u' ch. refl
