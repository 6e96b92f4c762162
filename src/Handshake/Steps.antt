-- ===== src/Handshake/Steps.antt =====
-- net/control.rs: the steps of the handshake one by one. What a step that succeeds has read, and that
-- no step before the filing touches the key store.
use remote_input_bridge.Base.{ℕ, ◌≡◌, refl, subst, List, Option, none, some, Bool, true, false}
use remote_input_bridge.Base.{arith, length, ◌++◌}
use remote_input_bridge.Base.Text.{ascii}
use remote_input_bridge.Crypto.{Primitives, hex_decode, ct_eq, auth_ack_proof}
use remote_input_bridge.Wire.Bytes.{to_be_bytes}
use remote_input_bridge.Frame.{Result, ok, err}
use remote_input_bridge.Net.{ConnectError}
use remote_input_bridge.Handshake.{Text, AuthOk, Serde, Socket, Channel, Exchange, or_raise}
use remote_input_bridge.Handshake.{continue, guard}
use remote_input_bridge.Handshake.Frames.{expect_frame}
use remote_input_bridge.Handshake.Connect.{or_empty, authenticate, rename_error}

-- A chain that succeeds has a first step that succeeds, and goes on from what that step gives.
pub on_ok :
    {A B C : Type 0} (f : A → Exchange B) (r : Result ConnectError A × Channel) {b : B}
    {ch : Channel}
    → continue f r ≡ (ok b, ch)
    → ((a : A) (mid : Channel) → r ≡ (ok a, mid) → f a mid ≡ (ok b, ch) → C)
    → C
unfolding continue
on_ok f (ok a, mid) h next = next a mid refl h
on_ok f (err e, mid) h next = cc

pub or_raise-ok :
    {A : Type 0} (o : Option A) (e : ConnectError) (ch : Channel) {a : A} {after : Channel}
    → or_raise o e ch ≡ (ok a, after)
    → (o ≡ some a) × (ch ≡ after)
or_raise-ok none e ch h = cc
or_raise-ok (some a) e ch h = (cc, cc)

pub guard-ok :
    (c : Bool) (e : ConnectError) (ch : Channel) {u : Unit {0}} {after : Channel}
    → guard c e ch ≡ (ok u, after)
    → (c ≡ true) × (ch ≡ after)
guard-ok false e ch h = cc
guard-ok true e ch h = (refl, cc)

rename_error-ok :
    (m : Exchange Text) (ch : Channel) {text : Text} {after : Channel}
    → rename_error m ch ≡ (ok text, after)
    → m ch ≡ (ok text, after)
unfolding rename_error
rename_error-ok m ch h = ground arith

-- That the Mac has answered `AUTH` with the proof of the key.
pub record IsProven (p : Primitives) (s : Serde) (key client_nonce server_nonce : List ℕ)
    (answer : AuthOk) : Type 0 where
  pub before : Channel
  pub after : Channel
  pub text : Text
  pub arrived : expect_frame s (ascii "AUTH_OK") before ≡ (ok text, after)
  pub parsed : s.auth_ok text ≡ some answer
  pub proven :
      hex_decode answer.server_proof
      ≡ some (
          p.hmac key (
            ascii "auth-ack"
            ++ (client_nonce ++ (server_nonce ++ to_be_bytes 8 answer.session_id))))

module _ (p : Primitives) (s : Serde) (k : Socket) where
  open p use {length-hmac, slices_eq_iff}

  or_empty-eq :
      (o : Option (List ℕ)) (tag : List ℕ)
      → length tag ≡ 32
      → ct_eq p tag (or_empty o) ≡ true
      → o ≡ some tag
  unfolding ct_eq
  or_empty-eq none tag h e = ground arith
  or_empty-eq (some got) tag h e = ground (arith, slices_eq_iff tag got)

  pub authenticate-ok :
      (key client_nonce server_nonce : List ℕ) (ch : Channel) {answer : AuthOk} {after : Channel}
      → authenticate p s k key client_nonce server_nonce ch ≡ (ok answer, after)
      → IsProven p s key client_nonce server_nonce answer
  unfolding authenticate auth_ack_proof
  authenticate-ok key client_nonce server_nonce ch {answer} h = on_ok _ _ h λ u c1 e1 h1.
      on_ok _ _ h1 λ text c2 e2 h2. on_ok _ _ h2 λ found c3 e3 h3. on_ok _ _ h3 λ v c4 e4 h4.
        let same : found ≡ answer = cc in
        let parsed = or_raise-ok _ _ c2 e3 in
        let tag = auth_ack_proof p key client_nonce server_nonce found.session_id in
        subst (IsProven p s key client_nonce server_nonce) same (record {
          before = c1;
          after = c2;
          text = text;
          arrived = rename_error-ok (expect_frame s (ascii "AUTH_OK")) c1 e2;
          parsed = parsed.0;
          proven = or_empty-eq _ tag (length-hmac _ _) (guard-ok _ _ c3 e4).0;
        })
