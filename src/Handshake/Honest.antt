-- ===== src/Handshake/Honest.antt =====
-- net/control.rs, `connect` with a Mac that answers: from the bytes of its replies to the session.
use remote_input_bridge.Base.{ℕ, ◌≡◌, refl, ap, ◌∙◌, List, ◌++◌, Option, none, some}
use remote_input_bridge.Base.{Bool, true, false, inl, inr, ◌⊎◌, ◌==◌, if◌then◌else◌}
use remote_input_bridge.Base.Text.{ascii}
use remote_input_bridge.Crypto.{Primitives, IsKey, hex_encode}
use remote_input_bridge.Crypto.{auth_ack_proof, wrap_tag, session_keys}
use remote_input_bridge.Config.{Config}
use remote_input_bridge.Frame.{ok, with_length}
use remote_input_bridge.KeyStore.{device_key}
use remote_input_bridge.Net.{pairing_disabled, io}
use remote_input_bridge.Handshake.{Text, HelloAck, PairResponse, AuthOk, Serde, Socket, Channel}
use remote_input_bridge.Handshake.{Session, Exchange, pure, guard, ◌>>=◌, ◌>>◌}
use remote_input_bridge.Handshake.Connect.{pair, choose_key, authenticate, connect, file_key}
use remote_input_bridge.Handshake.Connect.{make_session, stored_key, key_index}
use remote_input_bridge.Handshake.Proven.{file_key-found, stored_key-first, stored_key-IsKey}
use remote_input_bridge.Handshake.Gives.{IsReply, Gives, continue_with, Gives-chain, Gives-guard}
use remote_input_bridge.Handshake.Gives.{file_key-runs}
use remote_input_bridge.Handshake.Replies.{IsGreeting, IsWrapped, IsAcceptance}
use remote_input_bridge.Handshake.Replies.{Gives-authenticate, Gives-pair, Gives-greet}

module _ (p : Primitives) (s : Serde) (k : Socket) (works : (n : ℕ) → k.fails n ≡ false) where
  -- The end of a handshake in which the device key is chosen.
  abbrev finish : Config → ℕ → HelloAck → List ℕ → List ℕ → List ℕ → Bool → Exchange Session
  finish cfg ip ack cn sn key fresh = do
    answer ← authenticate p s k key cn sn
    file_key (key_index cfg ack) key fresh
    guard (k.ready) io
    pure (make_session p cfg ip ack answer key cn sn)

  finish_lem :
      (cfg : Config) (ip : ℕ) (ack : HelloAck) (cn sn key payload rest : List ℕ) (fresh : Bool)
      (answer : AuthOk) (ch : Channel)
      → k.ready ≡ true
      → IsReply s AuthOk (ascii "AUTH_OK") (s.auth_ok) payload answer
      → answer.server_proof ≡ hex_encode (auth_ack_proof p key cn sn answer.session_id)
      → IsKey key
      → (fresh ≡ true) ⊎ (stored_key cfg ack ch.keys ≡ some key)
      → ch.incoming ≡ with_length payload ++ rest
      → (after : Channel) × (finish cfg ip ack cn sn key fresh ch
          ≡ (ok (make_session p cfg ip ack answer key cn sn), after))
        × (device_key after.keys (key_index cfg ack) ≡ some key)
  finish_lem cfg ip ack cn sn key payload rest fresh answer ch ready r proof is_key h here =
      let (c, ran, left, kept) =
        Gives-authenticate p s k works key cn sn payload rest answer ch r proof here in
      let session = make_session p cfg ip ack answer key cn sn in
      let index = key_index cfg ack in
      let filed = (file_key index key fresh c).1 in
      let close = λ (found : AuthOk).
        guard (k.ready) io >> pure (make_session p cfg ip ack found key cn sn) in
      (
        filed,
        continue_with (λ found. file_key index key fresh >> close found) answer c ran
            ∙ continue_with (λ u. close answer) tt filed (file_key-runs index key fresh c)
            ∙ continue_with (λ u. pure session) tt filed (ap (λ x. guard x io filed) ready),
        file_key-found index key fresh c is_key (elim h [
          | inl f ↦ inl f
          | inr e ↦ inr (λ other found.
              stored_key-first cfg ack c.keys found (ap (stored_key cfg ack) kept ∙ e))
        ]),
      )

  choose_known :
      (cfg : Config) (ack : HelloAck) (key cn sn : List ℕ) (ch : Channel)
      → ack.known_client ≡ true
      → stored_key cfg ack ch.keys ≡ some key
      → choose_key p s k ack (stored_key cfg ack ch.keys) none cn sn ch ≡ (ok (key, false), ch)
  unfolding choose_key
  choose_known cfg ack key cn sn ch known stored =
      ap (λ found. choose_key p s k ack found none cn sn ch) stored ∙ rw (choose_key, known) refl

  Gives-choose_key :
      (stored : Option (List ℕ)) (code : Text) (cn sn key payload rest : List ℕ) (ack : HelloAck)
      (resp : PairResponse) (ch : Channel)
      → ack.pairing_mode ≡ true
      → IsKey key
      → IsWrapped p s code key cn sn payload resp
      → ch.incoming ≡ with_length payload ++ rest
      → Gives (choose_key p s k ack stored (some code) cn sn) ch (key, true) rest
  unfolding choose_key wrap_tag
  Gives-choose_key stored code cn sn key payload rest ack resp ch mode is_key w here =
      let paired = λ (found : List ℕ). pure (found, true) in
      Gives-chain (guard (ack.pairing_mode) pairing_disabled)
        (λ u. pair p s k code cn sn >>= paired) ch tt (key, true) _ rest
        (Gives-guard (ack.pairing_mode) pairing_disabled ch _ mode here)
        λ c left kept.
          Gives-chain (pair p s k code cn sn) paired c key (key, true) rest rest
            (Gives-pair p s k works code cn sn key payload rest resp c w.reply is_key
              (w.wraps, w.tags) left)
            λ c' left' kept'. (c', refl, left', refl)

  -- A handshake whose greeting is answered and whose device key is chosen.
  connect-chosen :
      (cfg : Config) (ip : ℕ) (code : Option Text) (cn sn key greeting proof mid rest : List ℕ)
      (fresh : Bool) (ack : HelloAck) (answer : AuthOk) (ch : Channel)
      → k.opened ≡ ok ip
      → k.ready ≡ true
      → IsGreeting s sn greeting ack
      → IsKey key
      → (fresh ≡ true) ⊎ (stored_key cfg ack ch.keys ≡ some key)
      → ((c : Channel)
          → c.incoming ≡ mid
          → c.keys ≡ ch.keys
          → Gives
              (choose_key p s k ack (stored_key cfg ack c.keys) code cn sn)
              c
              (key, fresh)
              (with_length proof ++ rest))
      → IsAcceptance p s key cn sn proof answer
      → ch.incoming ≡ with_length greeting ++ mid
      → (after : Channel) × (connect p s k cfg code cn ch
          ≡ (ok (make_session p cfg ip ack answer key cn sn), after))
        × (device_key after.keys (key_index cfg ack) ≡ some key)
  unfolding connect auth_ack_proof
  connect-chosen cfg ip code cn sn key greeting proof mid rest fresh ack answer ch opened ready g
        is_key h choose a here =
      let (c, ran, left, kept) =
        Gives-greet p s k works cfg cn sn greeting mid ack ch g.reply g.current g.is_nonce g.nonce
          here in
      let (c', ran', left', kept') = choose c left kept in
      let h' : (fresh ≡ true) ⊎ (stored_key cfg ack c'.keys ≡ some key) = elim h [
        | inl f ↦ inl f
        | inr e ↦ inr (ap (stored_key cfg ack) (kept' ∙ kept) ∙ e)
      ] in
      let (after, ran'', filed) =
        finish_lem cfg ip ack cn sn key proof rest fresh answer c' ready a.reply a.proves is_key h'
          left' in
      (
        after,
        continue_with _ ip ch (ap (λ x. (x, ch)) opened)
            ∙ continue_with _ (ack, sn) c ran
            ∙ continue_with _ (stored_key cfg ack c.keys) c refl
            ∙ continue_with _ (key, fresh) c' ran'
            ∙ ran'',
        filed,
      )

  -- A Mac that holds a device key this machine has on file for it, and that answers the greeting and
  -- `AUTH` as the protocol says, over a socket that works: without a pairing code `connect` gives the
  -- session under the session keys of that device key, and the key is on file under the Mac's name.
  pub connect-known :
      (cfg : Config) (ip : ℕ) (cn sn key greeting proof rest : List ℕ) (ack : HelloAck)
      (answer : AuthOk) (ch : Channel)
      → k.opened ≡ ok ip
      → k.ready ≡ true
      → IsGreeting s sn greeting ack
      → ack.known_client ≡ true
      → stored_key cfg ack ch.keys ≡ some key
      → IsAcceptance p s key cn sn proof answer
      → ch.incoming ≡ with_length greeting ++ (with_length proof ++ rest)
      → (after : Channel) × (connect p s k cfg none cn ch
          ≡ (ok (make_session p cfg ip ack answer key cn sn), after))
        × (device_key after.keys (key_index cfg ack) ≡ some key)
  connect-known cfg ip cn sn key greeting proof rest ack answer ch opened ready g known stored a
        here =
      connect-chosen cfg ip none cn sn key greeting proof _ rest false ack answer ch opened ready g
        (stored_key-IsKey cfg ack ch.keys key stored) (inr stored)
        (λ c left kept. (
          c,
          choose_known cfg ack key cn sn c known (ap (stored_key cfg ack) kept ∙ stored),
          left,
          refl,
        ))
        a here

  pub connect-pairs :
      (cfg : Config) (ip : ℕ) (code : Text) (cn sn key greeting pairing proof rest : List ℕ)
      (ack : HelloAck) (resp : PairResponse) (answer : AuthOk) (ch : Channel)
      → k.opened ≡ ok ip
      → k.ready ≡ true
      → IsGreeting s sn greeting ack
      → ack.pairing_mode ≡ true
      → IsKey key
      → IsWrapped p s code key cn sn pairing resp
      → IsAcceptance p s key cn sn proof answer
      → ch.incoming ≡ with_length greeting ++ (with_length pairing ++ (with_length proof ++ rest))
      → (after : Channel) × (connect p s k cfg (some code) cn ch ≡ (
        ok (record {
          session_id = answer.session_id;
          tcp_key = p.hkdf32 key (cn ++ sn) (ascii "rib-session-v1|tcp");
          udp_key = p.hkdf32 key (cn ++ sn) (ascii "rib-session-v1|udp");
          udp_addr = (ip, if answer.udp_port == 0 then cfg.udp_port else answer.udp_port);
          server_name = ack.server_name;
          send_counter = 0;
        }),
        after,
      ))
        × (device_key after.keys (key_index cfg ack) ≡ some key)
  unfolding make_session session_keys
  connect-pairs cfg ip code cn sn key greeting pairing proof rest ack resp answer ch opened ready g
        mode is_key w a here =
      connect-chosen cfg ip (some code) cn sn key greeting proof _ rest true ack answer ch opened
        ready g is_key (inl refl)
        (λ c left kept.
          Gives-choose_key (stored_key cfg ack c.keys) code cn sn key pairing _ ack resp c mode
            is_key w left)
        a here
