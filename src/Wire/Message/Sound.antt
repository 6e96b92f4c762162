-- ===== src/Wire/Message/Sound.antt =====
-- protocol.rs: what `decode` accepts.
use remote_input_bridge.Base.{ℕ, ◌≡◌, ◌<◌, arith, List, [], ◌∷◌, All, some, none, Option}
use remote_input_bridge.Base.{get_elem?, get_or, Option-cases, inl, inr, subst, zero, suc, ◌^◌}
use remote_input_bridge.Wire.Bytes.{IsByte, from_be_bytes, from_be_bytes-lt, slice, slice-some}
use remote_input_bridge.Wire.Message.{Reliable, InRange, msg_type, decode, int_at}

-- Each field that is read is missing or in range.
abbrev Below : ℕ → Option ℕ → Type 0
Below n none = Unit {0}
Below n (some x) = x < n

int_at-Below : (n : ℕ) (b : List ℕ) (off : ℕ) → All IsByte b → Below (256 ^ n) (int_at n b off)
unfolding int_at
int_at-Below n b off h = elim (Option-cases (slice off n b)) [
  | inl e ↦ rw (e, int_at) tt
  | inr (s, e) ↦
      let (len, bytes) = slice-some off n b s e h in
      rw (e, int_at) (subst (λ k. from_be_bytes s < 256 ^ k) len (from_be_bytes-lt s bytes))
]

get_elem?-Below : (b : List ℕ) (i : ℕ) → All IsByte b → Below 256 (get_elem? b i)
get_elem?-Below [] i h = tt
get_elem?-Below (x ∷ b) zero h = h.0
get_elem?-Below (x ∷ b) (suc i) h = get_elem?-Below b i h.1

get_or-Below : (b : List ℕ) (i : ℕ) → All IsByte b → get_or b i 0 < 256
get_or-Below [] i h = omega arith
get_or-Below (x ∷ b) zero h = h.0
get_or-Below (x ∷ b) (suc i) h = get_or-Below b i h.1

-- An accepted message has the type byte it was decoded with, and its fields are in range.
decode_sound :
    (t : ℕ) (b : List ℕ) (m : Reliable)
    → All IsByte b
    → decode t b ≡ some m
    → (msg_type m ≡ t) × InRange m
unfolding decode msg_type
decode_sound t b m h e = ground (
  arith,
  int_at-Below 4 b 0 h,
  int_at-Below 4 b 4 h,
  int_at-Below 8 b 0 h,
  int_at-Below 8 b 8 h,
  int_at-Below 4 b 16 h,
  int_at-Below 4 b 20 h,
  int_at-Below 2 b 0 h,
  get_elem?-Below b 0 h,
  get_elem?-Below b 4 h,
  get_or-Below b 0 h,
)
