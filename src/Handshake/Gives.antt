-- ===== src/Handshake/Gives.antt =====
-- net/control.rs: a handshake in which nothing fails, step by step; what is left on the stream.
use remote_input_bridge.Base.{ℕ, suc, ◌≡◌, ◌<◌, ◌≤◌, refl, ap, ◌∙◌, List, ◌++◌, Option, none}
use remote_input_bridge.Base.{some}
use remote_input_bridge.Base.{[], All, Bool, true, false, if◌then◌else◌, arith, length, ◌==◌}
use remote_input_bridge.Base.Text.{ascii, text_eq, text_eq_refl}
use remote_input_bridge.Crypto.{Primitives, IsKey, hex_encode, hex_decode, hex_key, ct_eq}
use remote_input_bridge.Crypto.Hex.{hex_decode-hex_encode, hex_key-hex_encode}
use remote_input_bridge.Wire.Bytes.{IsByte}
use remote_input_bridge.Frame.{Result, ok, read_frame, with_length, max_frame_len}
use remote_input_bridge.Frame.RoundTrip.{read_frame-with_length, ct_eq_refl}
use remote_input_bridge.Net.{ConnectError}
use remote_input_bridge.Handshake.{Text, HelloAck, Serde, Socket, Channel, Exchange, or_raise}
use remote_input_bridge.Handshake.{from_result, continue, guard, ◌>>=◌, ◌>>◌}
use remote_input_bridge.Handshake.Frames.{check_frame, remote_error, read_json, expect_frame}
use remote_input_bridge.Handshake.Frames.{write_frame}
use remote_input_bridge.Handshake.Connect.{or_empty, usable_nonce, file_key, rename_error}

-- That a payload is the frame `frame` of kind `want` to serde_json, and fits the stream.
pub record IsReply (s : Serde) (F : Type 0) (want : Text) (read : Text → Option F)
    (payload : List ℕ) (frame : F) : Type 0 where
  pub text : Text
  pub decoded : s.from_utf8 payload ≡ some text
  pub tagged : s.any_frame text ≡ some want
  pub parsed : read text ≡ some frame
  pub present : 0 < length payload
  pub fits : length payload ≤ max_frame_len

-- That a step succeeds with `a`, leaves `rest` on the stream and the key store alone.
abbrev pub Gives : {A : Type 0} → Exchange A → Channel → A → List ℕ → Type 0
Gives m ch a rest =
    (after : Channel) × (m ch ≡ (ok a, after)) × (after.incoming ≡ rest) × (after.keys ≡ ch.keys)

pub continue_with :
    {A B : Type 0} (f : A → Exchange B) (a : A) (mid : Channel)
    {r : Result ConnectError A × Channel}
    → r ≡ (ok a, mid)
    → continue f r ≡ f a mid
unfolding continue
continue_with f a mid e = ap (continue f) e ∙ refl

pub Gives-chain :
    {A B : Type 0} (m : Exchange A) (f : A → Exchange B) (ch : Channel) (a : A) (b : B)
    (mid rest : List ℕ)
    → Gives m ch a mid
    → ((c : Channel) → c.incoming ≡ mid → c.keys ≡ ch.keys → Gives (f a) c b rest)
    → Gives (m >>= f) ch b rest
Gives-chain m f ch a b mid rest (c, ran, left, kept) next =
    let (after, ran', left', kept') = next c left kept in
    (after, continue_with f a c ran ∙ ran', left', kept' ∙ kept)

pub Gives-or_raise :
    {A : Type 0} (o : Option A) (e : ConnectError) (ch : Channel) (a : A) (rest : List ℕ)
    → o ≡ some a
    → ch.incoming ≡ rest
    → Gives (or_raise o e) ch a rest
Gives-or_raise o e ch a rest h left = (ch, ap (λ x. or_raise x e ch) h, left, refl)

pub Gives-guard :
    (c : Bool) (e : ConnectError) (ch : Channel) (rest : List ℕ)
    → c ≡ true
    → ch.incoming ≡ rest
    → Gives (guard c e) ch tt rest
Gives-guard c e ch rest h left = (ch, ap (λ x. guard x e ch) h, left, refl)

pub Gives-write_frame :
    (k : Socket) (payload : List ℕ) (ch : Channel) (rest : List ℕ)
    → ((n : ℕ) → k.fails n ≡ false)
    → ch.incoming ≡ rest
    → Gives (write_frame k payload) ch tt rest
unfolding write_frame
Gives-write_frame k payload ch rest works left = (
  record ch { writes = suc ch.writes; sent = ch.sent ++ with_length payload },
  rw (write_frame, works ch.writes) refl,
  left,
  refl,
)

module _ (s : Serde) (F : Type 0) (want : Text) (read : Text → Option F) (payload : List ℕ)
    (frame : F) where
  pub Gives-read_json :
      (r : IsReply s F want read payload frame) (ch : Channel) (rest : List ℕ)
      → ch.incoming ≡ with_length payload ++ rest
      → Gives (read_json s) ch (r.text) rest
  unfolding read_json
  Gives-read_json r ch rest here =
      let got = ap read_frame here ∙ read_frame-with_length payload rest r.present r.fits in
      (record ch { incoming = rest }, rw (read_json, got, r.decoded) refl, refl, refl)

  check_frame-reply :
      (r : IsReply s F want read payload frame)
      → text_eq want (ascii "ERROR") ≡ false
      → check_frame s want r.text ≡ ok r.text
  unfolding check_frame remote_error
  check_frame-reply r plain =
      rw (check_frame, remote_error, r.tagged, plain, r.tagged, text_eq_refl want) refl

  pub Gives-expect_frame :
      (r : IsReply s F want read payload frame) (ch : Channel) (rest : List ℕ)
      → text_eq want (ascii "ERROR") ≡ false
      → ch.incoming ≡ with_length payload ++ rest
      → Gives (expect_frame s want) ch (r.text) rest
  unfolding expect_frame
  Gives-expect_frame r ch rest plain here =
      Gives-chain (read_json s) (λ text. from_result (check_frame s want text)) ch r.text r.text
        rest rest (Gives-read_json r ch rest here)
        λ c left kept. (c, ap (λ x. (x, c)) (check_frame-reply r plain), left, refl)

pub Gives-rename_error :
    (m : Exchange Text) (ch : Channel) (text : Text) (rest : List ℕ)
    → Gives m ch text rest
    → Gives (rename_error m) ch text rest
unfolding rename_error
Gives-rename_error m ch text rest (after, ran, left, kept) =
    (after, ground (arith, ran), left, kept)

-- A tag that was sent in hexadecimal is found equal.
pub ct_eq-sent :
    (p : Primitives) (tag : List ℕ) (sent : Text)
    → All IsByte tag
    → sent ≡ hex_encode tag
    → ct_eq p tag (or_empty (hex_decode sent)) ≡ true
ct_eq-sent p tag sent h e =
    ap (λ t. ct_eq p tag (or_empty (hex_decode t))) e
    ∙ ap (λ o. ct_eq p tag (or_empty o)) (hex_decode-hex_encode tag h)
    ∙ ct_eq_refl p [] tag

pub hex_key-sent :
    (key : List ℕ) (sent : Text) → IsKey key → sent ≡ hex_encode key → hex_key sent ≡ some key
hex_key-sent key sent h e =
    ap hex_key e
    ∙ hex_key-hex_encode key h.bytes
    ∙ ap (λ n. if n == 32 then some key else none) h.sized

pub usable_nonce-sent :
    (ack : HelloAck) (sn : List ℕ)
    → IsKey sn
    → ack.server_nonce ≡ hex_encode sn
    → usable_nonce ack ≡ some sn
unfolding usable_nonce
usable_nonce-sent ack sn h e =
    rw (usable_nonce, e, hex_decode-hex_encode sn h.bytes)
      (ap (λ n. if n == 32 then some sn else none) h.sized)

pub file_key-runs :
    (index : Text) (key : List ℕ) (fresh : Bool) (ch : Channel)
    → file_key index key fresh ch ≡ (ok tt, (file_key index key fresh ch).1)
unfolding file_key
file_key-runs index key fresh ch = refl

-- A frame is sent, its reply is heard and parsed, and the exchange goes on from it.
pub Gives-exchange :
    {F B : Type 0} (k : Socket) (request : List ℕ) (listen : Exchange Text) (text : Text)
    (read : Text → Option F) (e : ConnectError) (f : F → Exchange B) (ch : Channel) (frame : F)
    (b : B) (here mid rest : List ℕ)
    → ((n : ℕ) → k.fails n ≡ false)
    → ch.incoming ≡ here
    → ((c : Channel) → c.incoming ≡ here → Gives listen c text mid)
    → read text ≡ some frame
    → ((c : Channel) → c.incoming ≡ mid → c.keys ≡ ch.keys → Gives (f frame) c b rest)
    → Gives
        (do write_frame k request; heard ← listen; reply ← or_raise (read heard) e; f reply)
        ch
        b
        rest
Gives-exchange k request listen text read e f ch frame b here mid rest works at hears parsed next =
    let parse = λ (heard : Text). or_raise (read heard) e >>= f in
    Gives-chain (write_frame k request) (λ u. listen >>= parse) ch tt b here rest
      (Gives-write_frame k request ch here works at)
      λ c left kept. Gives-chain listen parse c text b mid rest (hears c left) λ c' left' kept'.
        Gives-chain (or_raise (read text) e) f c' frame b mid rest
          (Gives-or_raise (read text) e c' frame mid parsed left')
          λ c'' left'' kept''. next c'' left'' (kept'' ∙ kept' ∙ kept)
