-- ===== src/Frame/Stream.antt =====
-- net/mod.rs, `spawn_reader`: the reader thread on a whole stream.
use remote_input_bridge.Base.{ℕ, zero, suc, ◌+◌, ◌%◌, ◌^◌, ◌≤◌, ◌<◌, ◌≡◌, refl, ap, ◌∙◌, List, []}
use remote_input_bridge.Base.{◌∷◌, ◌++◌, append_assoc, map, All, length, length-drop, arith, inl}
use remote_input_bridge.Base.{inr, ◌⊎◌}
use native.Mathlib.Nat.{zero-add, add-zero}
use remote_input_bridge.Wire.Bytes.{from_be_bytes}
use remote_input_bridge.Wire.Message.{Reliable, InRange}
use remote_input_bridge.Crypto.{Primitives}
use remote_input_bridge.Frame.{Result, ok, err, replayed, read_exact, read_payload, read_frame}
use remote_input_bridge.Frame.{encode_frame, decode_frame, send, reader, Event, incoming}
use remote_input_bridge.Frame.{link_lost, out_of_fuel}
use remote_input_bridge.Frame.RoundTrip.{read-encode_frame}
use remote_input_bridge.Frame.Accepts.{decode_frame_once}

Result-cases : {E A : Type 0} (r : Result E A) → ((a : A) × (r ≡ ok a)) ⊎ ((e : E) × (r ≡ err e))
Result-cases (ok a) = inl (a, refl)
Result-cases (err e) = inr (e, refl)

-- The last event of a list of events is not that the fuel ran out.
abbrev pub Ends : List Event → Type 0
Ends [] = ⊥
Ends (out_of_fuel ∷ es) = ⊥
Ends (incoming m ∷ es) = Ends es
Ends (e ∷ es) = es ≡ []

read_exact_shorter :
    (n : ℕ) (s front rest : List ℕ) → read_exact n s ≡ ok (front, rest) → length rest + n ≡ length s
unfolding read_exact
read_exact_shorter n s front rest e = ground (arith, length-drop n s)

read_payload_shorter :
    (n : ℕ) (s payload rest : List ℕ)
    → read_payload n s ≡ ok (payload, rest)
    → length rest ≤ length s
unfolding read_payload
read_payload_shorter n s payload rest e = ground (arith, read_exact_shorter n s payload rest)

read_frame_shorter :
    (s payload rest : List ℕ) → read_frame s ≡ ok (payload, rest) → length rest < length s
unfolding read_frame
read_frame_shorter s payload rest e = elim (Result-cases (read_exact 4 s)) [
  | inr (x, r) ↦ absurd (cc (rw (r, read_frame) at e))
  | inl ((front, more), r) ↦ omega (
    arith,
    read_exact_shorter 4 s front more r,
    read_payload_shorter (from_be_bytes front) more payload rest (rw (r, read_frame) at e),
  )
]

module _ (p : Primitives) (tcp_key : List ℕ) where
  -- The bytes of a run of `Session::send`, from a counter on.
  unfoldable pub send_all : ℕ → List Reliable → List ℕ
  send_all counter [] = []
  send_all counter (m ∷ ms) =
      let (next, bytes) = send p tcp_key counter m in bytes ++ send_all next ms

  reader_step :
      (fuel last counter : ℕ) (m : Reliable) (rest : List ℕ)
      → InRange m
      → counter < 2 ^ 64
      → last < counter
      → reader p (suc fuel) tcp_key last (encode_frame p tcp_key counter m ++ rest)
        ≡ incoming m ∷ reader p fuel tcp_key counter rest
  unfolding reader
  reader_step fuel last counter m rest h hc fresh =
      let (payload, r, d) = read-encode_frame p tcp_key counter last m rest h hc fresh in
      rw (r, reader, d)

  -- Messages whose fields are in range, sent while the counter stays below 2 ^ 64, are delivered in
  -- the order sent, and then the reader goes on with whatever the stream holds behind them.
  pub reader-send_all :
      (ms : List Reliable) (fuel counter : ℕ) (rest : List ℕ)
      → All InRange ms
      → counter + length ms < 2 ^ 64
      → reader p (length ms + fuel) tcp_key counter (send_all counter ms ++ rest)
        ≡ map incoming ms ++ reader p fuel tcp_key (counter + length ms) rest
  unfolding send_all send
  reader-send_all [] fuel counter rest h hc = simp (zero-add, add-zero)
  reader-send_all (m ∷ ms) fuel counter rest h hc =
      let next : (counter + 1) % 2 ^ 64 ≡ counter + 1 = omega arith in
      let shift : suc (length ms) + fuel ≡ suc (length ms + fuel) = omega arith in
      let tail = send_all (counter + 1) ms in
      rw
        (
          next,
          shift,
          append_assoc (encode_frame p tcp_key (counter + 1) m) tail rest,
          reader_step (length ms + fuel) counter (counter + 1) m (tail ++ rest) h.0 (omega arith)
              (omega arith),
          reader-send_all ms fuel (counter + 1) rest h.1 (omega arith),
        )
        (ap (λ (c : ℕ). incoming m ∷ (map incoming ms ++ reader p fuel tcp_key c rest))
          (omega arith))

  -- A frame of a message in range with a fresh counter that comes twice in a row is delivered once:
  -- then the reader reports the replay and ends.
  pub reader_replay :
      (fuel last counter : ℕ) (m : Reliable) (rest : List ℕ)
      → InRange m
      → counter < 2 ^ 64
      → last < counter
      → let frame = encode_frame p tcp_key counter m in
        reader p (suc (suc fuel)) tcp_key last (frame ++ (frame ++ rest))
        ≡ incoming m ∷ link_lost (replayed counter) ∷ []
  reader_replay fuel last counter m rest h hc fresh =
      let frame = encode_frame p tcp_key counter m in
      let (payload, r, d) = read-encode_frame p tcp_key counter last m rest h hc fresh in
      reader_step (suc fuel) last counter m (frame ++ rest) h hc fresh
      ∙ unfold reader in
        rw (r, reader, decode_frame_once p tcp_key payload last counter counter m d (omega arith))

  -- On every stream the reader ends with the loss of the link, when its fuel exceeds the bytes.
  pub reader-Ends :
      (fuel last : ℕ) (s : List ℕ) → length s < fuel → Ends (reader p fuel tcp_key last s)
  unfolding reader
  reader-Ends zero last s h = absurd (omega arith)
  reader-Ends (suc fuel) last s h = elim (Result-cases (read_frame s)) [
    | inr (e, r) ↦ rw (r, reader) refl
    | inl ((payload, rest), r) ↦ elim (Result-cases (decode_frame p tcp_key payload last)) [
      | inr (e, d) ↦ rw (r, reader, d) refl
      | inl ((c, m), d) ↦
          rw (r, reader, d)
            (reader-Ends fuel c rest (omega (arith, read_frame_shorter s payload rest r)))
    ]
  ]
