-- ===== src/Handshake/Proven.antt =====
-- net/control.rs, `connect`: what holds of the session and of the key store when it returns.
use remote_input_bridge.Base.{ℕ, ◌≡◌, refl, sym, ◌∙◌, ap, subst, List, Option, none, some, Bool}
use remote_input_bridge.Base.{true, arith, ◌⊎◌, ◌++◌, inl, inr, length, Option-cases}
use remote_input_bridge.Base.Text.{ascii, text_eq_refl}
use remote_input_bridge.Crypto.{Primitives, IsKey, hex_decode, session_keys, derive_pairing_key}
use remote_input_bridge.Crypto.Hex.{hex_key-IsKey}
use remote_input_bridge.Crypto.Wrapping.{unwrap_device_key-IsKey}
use remote_input_bridge.Config.{Config}
use remote_input_bridge.Frame.{ok}
use remote_input_bridge.KeyStore.{KeyStore, device_key, set_device_key}
use remote_input_bridge.KeyStore.Lookup.{device_key-set, device_key-IsKey}
use remote_input_bridge.Handshake.{Text, HelloAck, AuthOk, Serde, Socket, Channel, Session}
use remote_input_bridge.Handshake.{protocol_version}
use remote_input_bridge.Handshake.Frames.{expect_frame, write_frame}
use remote_input_bridge.Handshake.Connect.{pair, greet, choose_key, authenticate, connect}
use remote_input_bridge.Handshake.Connect.{file_key, make_session, stored_key, key_index}
use remote_input_bridge.Handshake.Connect.{usable_nonce}
use remote_input_bridge.Handshake.Steps.{on_ok, or_raise-ok, guard-ok, IsProven, authenticate-ok}
use remote_input_bridge.Handshake.Kept.{keys_kept, greet-IsKept, choose_key-IsKept}
use remote_input_bridge.Handshake.Kept.{authenticate-IsKept}

usable_nonce-length :
    (ack : HelloAck) (n : List ℕ)
    → usable_nonce ack ≡ some n
    → (hex_decode ack.server_nonce ≡ some n) × (length n ≡ 32)
unfolding usable_nonce
usable_nonce-length ack n h = (ground arith, ground arith)

-- That the first frame of the incoming bytes is a `HELLO_ACK` with this content, of this version, whose
-- nonce is the one given and has 32 bytes.
pub record IsGreeted (s : Serde) (incoming : List ℕ) (ack : HelloAck) (server_nonce : List ℕ)
    : Type 0 where
  pub before : Channel
  pub after : Channel
  pub text : Text
  pub from_start : before.incoming ≡ incoming
  pub arrived : expect_frame s (ascii "HELLO_ACK") before ≡ (ok text, after)
  pub parsed : s.hello_ack text ≡ some ack
  pub current : ack.protocol_version ≡ protocol_version
  pub decoded : hex_decode ack.server_nonce ≡ some server_nonce
  pub sized : length server_nonce ≡ 32

write_frame-incoming :
    (k : Socket) (payload : List ℕ) (ch : Channel) {u : Unit {0}} {after : Channel}
    → write_frame k payload ch ≡ (ok u, after)
    → after.incoming ≡ ch.incoming
unfolding write_frame
write_frame-incoming k payload ch h = ground arith

greet-ok :
    (s : Serde) (k : Socket) (cfg : Config) (cn : List ℕ) (ch : Channel) {ack : HelloAck}
    {sn : List ℕ} {after : Channel}
    → greet s k cfg cn ch ≡ (ok (ack, sn), after)
    → IsGreeted s ch.incoming ack sn
unfolding greet
greet-ok s k cfg cn ch {ack} {sn} h = on_ok _ _ h λ u c1 e1 h1. on_ok _ _ h1 λ text c2 e2 h2.
    on_ok _ _ h2 λ found c3 e3 h3. on_ok _ _ h3 λ v c4 e4 h4. on_ok _ _ h4 λ nonce c5 e5 h5.
      let usable = usable_nonce-length found nonce (or_raise-ok _ _ c4 e5).0 in
      let version = (guard-ok _ _ c3 e4).0 in
      let same : ◌≡◌ {A = HelloAck × List ℕ} (found, nonce) (ack, sn) = cc in
      subst (λ x. IsGreeted s ch.incoming x.0 x.1) same
        (record {
          before = c1;
          after = c2;
          text = text;
          from_start = write_frame-incoming k _ ch e1;
          arrived = e2;
          parsed = (or_raise-ok _ _ c2 e3).0;
          current = ground (arith, version);
          decoded = usable.0;
          sized = usable.1;
        })

pub stored_key-IsKey :
    (cfg : Config) (ack : HelloAck) (keys : KeyStore) (key : List ℕ)
    → stored_key cfg ack keys ≡ some key
    → IsKey key
unfolding stored_key
stored_key-IsKey cfg ack keys key e = elim (Option-cases (device_key keys (key_index cfg ack))) [
  | inl none_there ↦ device_key-IsKey keys cfg.mac_host key (ground arith)
  | inr (there, f) ↦ device_key-IsKey keys (key_index cfg ack) key (ground arith)
]

-- What `stored_key` finds under the Mac's name is what it takes.
pub stored_key-first :
    (cfg : Config) (ack : HelloAck) (keys : KeyStore) {found key : List ℕ}
    → device_key keys (key_index cfg ack) ≡ some found
    → stored_key cfg ack keys ≡ some key
    → found ≡ key
unfolding stored_key
stored_key-first cfg ack keys f e = ground arith

-- Filing leaves the key under its name, if what is there already is that key.
pub file_key-found :
    (index : Text) (key : List ℕ) (fresh : Bool) (ch : Channel)
    → IsKey key
    → (fresh ≡ true) ⊎ ((found : List ℕ) → device_key ch.keys index ≡ some found → found ≡ key)
    → device_key (file_key index key fresh ch).1.keys index ≡ some key
unfolding file_key
file_key-found index key fresh ch k h =
    let stored = rw (text_eq_refl index) at (device_key-set ch.keys index key index k) in
    elim (Option-cases (device_key ch.keys index)) [
      | inl e ↦ ground (arith, stored)
      | inr (found, e) ↦ elim h [
        | inl f ↦ ground (arith, stored)
        | inr same ↦ ground (arith, stored, same found e)
      ]
    ]

file_key-keys :
    (index : Text) (key : List ℕ) (fresh : Bool) (ch : Channel)
    → ((file_key index key fresh ch).1.keys ≡ ch.keys)
      ⊎ ((file_key index key fresh ch).1.keys ≡ set_device_key index key ch.keys)
unfolding file_key
file_key-keys index key fresh ch = ground arith

-- A change of one entry between two key stores that are known under other names.
since :
    (index : Text) (key : List ℕ) {from from' to to' : KeyStore}
    → from ≡ from'
    → to ≡ to'
    → (to ≡ from) ⊎ (to ≡ set_device_key index key from)
    → (to' ≡ from') ⊎ (to' ≡ set_device_key index key from')
since index key e e' h = elim h [
  | inl same ↦ inl (sym e' ∙ same ∙ e)
  | inr set ↦ inr (sym e' ∙ set ∙ ap (set_device_key index key) e)
]

-- The end of `connect`, for the key that was chosen.
filing :
    (cfg : Config) (ack : HelloAck) (stored : Option (List ℕ)) (key : List ℕ) (fresh : Bool)
    (ch after : Channel) (u : Unit {0})
    → file_key (key_index cfg ack) key fresh ch ≡ (ok u, after)
    → stored ≡ stored_key cfg ack ch.keys
    → ((fresh ≡ true) × IsKey key) ⊎ (stored ≡ some key)
    → IsKey key
      × (device_key after.keys (key_index cfg ack) ≡ some key)
      × ((after.keys ≡ ch.keys) ⊎ (after.keys ≡ set_device_key (key_index cfg ack) key ch.keys))
filing cfg ack stored key fresh ch after u e on_file chosen =
    let index = key_index cfg ack in
    let left : (file_key index key fresh ch).1.keys ≡ after.keys = ap (λ x. x.1.keys) e in
    let kept = since index key refl left (file_key-keys index key fresh ch) in
    let there : device_key (file_key index key fresh ch).1.keys index
        ≡ device_key after.keys index =
      ap (λ keys. device_key keys index) left in
    elim chosen [
      | inl (is_fresh, is_key) ↦
          (is_key, sym there ∙ file_key-found index key fresh ch is_key (inl is_fresh), kept)
      | inr same ↦
          let before = sym on_file ∙ same in
          let is_key = stored_key-IsKey cfg ack ch.keys key before in
          (
            is_key,
            sym there
                ∙ file_key-found index key fresh ch is_key
                    (inr (λ other found. stored_key-first cfg ack ch.keys found before)),
            kept,
          )
    ]

-- That a handshake on a stream with these incoming bytes, from one key store to another, made a session
-- with a Mac that greeted with this version and a nonce of 32 bytes and proved to hold the device key:
-- under the two keys that are derived from the device key and both nonces, with the device key now on
-- file under the name in the greeting.
pub record IsConnected (p : Primitives) (s : Serde) (cfg : Config) (client_nonce : List ℕ)
    (incoming : List ℕ) (before after : KeyStore) (session : Session) : Type 0 where
  pub ack : HelloAck
  pub server_nonce : List ℕ
  pub key : List ℕ
  pub answer : AuthOk
  pub greeted : IsGreeted s incoming ack server_nonce
  pub is_key : IsKey key
  pub proven : IsProven p s key client_nonce server_nonce answer
  pub numbered : session.session_id ≡ answer.session_id
  pub tcp_keyed :
      session.tcp_key ≡ p.hkdf32 key (client_nonce ++ server_nonce) (ascii "rib-session-v1|tcp")
  pub udp_keyed :
      session.udp_key ≡ p.hkdf32 key (client_nonce ++ server_nonce) (ascii "rib-session-v1|udp")
  pub filed : device_key after (key_index cfg ack) ≡ some key
  pub kept : (after ≡ before) ⊎ (after ≡ set_device_key (key_index cfg ack) key before)

module _ (p : Primitives) (s : Serde) (k : Socket) where
  pair-IsKey :
      (code : Text) (cn sn : List ℕ) (ch : Channel) {key : List ℕ} {after : Channel}
      → pair p s k code cn sn ch ≡ (ok key, after)
      → IsKey key
  unfolding pair
  pair-IsKey code cn sn ch {key} h = on_ok _ _ h λ u c1 e1 h1. on_ok _ _ h1 λ text c2 e2 h2.
      on_ok _ _ h2 λ resp c3 e3 h3. on_ok _ _ h3 λ wrapped c4 e4 h4. on_ok _ _ h4 λ v c5 e5 h5.
        let wrapped_key = hex_key-IsKey resp.wrapped_key (or_raise-ok _ _ c3 e4).0 in
        subst IsKey (cc) (unwrap_device_key-IsKey p (derive_pairing_key p code) wrapped wrapped_key)

  -- The key is paired just now, or it is the one on file.
  choose_key-ok :
      (ack : HelloAck) (stored : Option (List ℕ)) (code : Option Text) (cn sn : List ℕ)
      (ch : Channel) {key : List ℕ} {fresh : Bool} {after : Channel}
      → choose_key p s k ack stored code cn sn ch ≡ (ok (key, fresh), after)
      → ((fresh ≡ true) × IsKey key) ⊎ (stored ≡ some key)
  unfolding choose_key
  choose_key-ok ack stored (some code) cn sn ch h = on_ok _ _ h λ u c1 e1 h1.
      on_ok _ _ h1 λ key c2 e2 h2. inl (cc, subst IsKey (cc) (pair-IsKey code cn sn c1 e2))
  choose_key-ok ack (some key) none cn sn ch h = inr (ground arith)
  choose_key-ok ack none none cn sn ch h = cc

  pub connect-IsConnected :
      (cfg : Config) (code : Option Text) (cn : List ℕ) (ch : Channel) {session : Session}
      {after : Channel}
      → connect p s k cfg code cn ch ≡ (ok session, after)
      → IsConnected p s cfg cn ch.incoming ch.keys after.keys session
  unfolding connect make_session session_keys
  connect-IsConnected cfg code cn ch {session} {after} h = on_ok _ _ h λ ip c1 e1 h1.
      on_ok _ _ h1 λ (ack, sn) c2 e2 h2. on_ok _ _ h2 λ stored c3 e3 h3.
        on_ok _ _ h3 λ (key, fresh) c4 e4 h4. on_ok _ _ h4 λ answer c5 e5 h5.
          on_ok _ _ h5 λ u c6 e6 h6. on_ok _ _ h6 λ v c7 e7 h7.
            let k1 : c1.keys ≡ ch.keys = cc in
            let i1 : c1.incoming ≡ ch.incoming = cc in
            let k2 = keys_kept (greet s k cfg cn) c1 (greet-IsKept s k cfg cn) e2 ∙ k1 in
            let k3 : c3.keys ≡ ch.keys = ap (λ x. x.1.keys) (sym e3) ∙ k2 in
            let choose = choose_key p s k ack stored code cn sn in
            let k4 = keys_kept choose c3 (choose_key-IsKept p s k ack stored code cn sn) e4 ∙ k3 in
            let prove = authenticate p s k key cn sn in
            let k5 = keys_kept prove c4 (authenticate-IsKept p s k key cn sn) e5 ∙ k4 in
            let on_file : stored ≡ stored_key cfg ack c2.keys = cc in
            let on_file' = on_file ∙ ap (stored_key cfg ack) (k2 ∙ sym k5) in
            let filed =
              filing cfg ack stored key fresh c5 c6 u e6 on_file'
                (choose_key-ok ack stored code cn sn c3 e4) in
            let done : c6.keys ≡ after.keys = cc in
            let made : make_session p cfg ip ack answer key cn sn ≡ session = cc in
            record {
              ack = ack;
              server_nonce = sn;
              key = key;
              answer = answer;
              greeted = subst (λ bytes. IsGreeted s bytes ack sn) i1 (greet-ok s k cfg cn c1 e2);
              is_key = filed.0;
              proven = authenticate-ok p s k key cn sn c4 e5;
              numbered = ap (λ x. x.session_id) (sym made);
              tcp_keyed = ap (λ x. x.tcp_key) (sym made);
              udp_keyed = ap (λ x. x.udp_key) (sym made);
              filed = ap (λ keys. device_key keys (key_index cfg ack)) (sym done) ∙ filed.1;
              kept = since (key_index cfg ack) key k5 done filed.2;
            }
