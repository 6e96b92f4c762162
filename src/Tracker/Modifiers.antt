-- ===== src/Tracker/Modifiers.antt =====
-- The modifier mask of the tracker against its table of keys.
use native.Mathlib.Decide.{dec_lt}
use native.Mathlib.Nat.{one-le-pow}
use remote_input_bridge.Base.{ℕ, ◌+◌, ◌-◌, ◌^◌, ◌<◌, ◌≡◌, ◌≢◌, ◌⊎◌, inl, inr, sym, refl, arith}
use remote_input_bridge.Base.{List, [], ◌∷◌, Bool, true, false, not, ◌&&◌, ◌||◌, ◌==◌, ==_iff}
use remote_input_bridge.Base.{ltb, bit_and, bit_or, update, if◌then◌else◌}
use remote_input_bridge.Base.Masks.{each_below, each_below_sound}
use remote_input_bridge.Hotkey.{has_group}
use remote_input_bridge.Keymap.{modifier_bit}
use remote_input_bridge.Tracker.{Hotkeys, InputTracker, new, on_key, on_button, mark_all_stale}
use remote_input_bridge.Tracker.Stale.{Event, key_event, button_event, step, run}

-- Setting or clearing one of the eight bits leaves the others.
same : Bool → Bool → Bool
same true b = b
same false b = not b

same→eq : (a b : Bool) → same a b ≡ true → a ≡ b
unfolding same
same→eq true true h = refl
same→eq true false h = cc
same→eq false true h = cc
same→eq false false h = refl

set_ok : ℕ → ℕ → ℕ → Bool
set_ok m i j =
    same (has_group (bit_or m (2 ^ i)) (2 ^ j)) (i == j || has_group m (2 ^ j))
    && ltb (bit_or m (2 ^ i)) 256

clear_ok : ℕ → ℕ → ℕ → Bool
clear_ok m i j =
    same (has_group (bit_and m (0xffff - 2 ^ i)) (2 ^ j)) (not (i == j) && has_group m (2 ^ j))
    && ltb (bit_and m (0xffff - 2 ^ i)) 256

mask_table :
    each_below 256 (λ m. each_below 8 (λ i. each_below 8 (λ j. set_ok m i j && clear_ok m i j)))
    ≡ true
unfolding each_below set_ok clear_ok same has_group
mask_table = refl

mask_lem :
    (m i j : ℕ)
    → m < 256
    → i < 8
    → j < 8
    → (has_group (bit_or m (2 ^ i)) (2 ^ j) ≡ (i == j || has_group m (2 ^ j)))
      × (bit_or m (2 ^ i) < 256)
      × (has_group (bit_and m (0xffff - 2 ^ i)) (2 ^ j) ≡ (not (i == j) && has_group m (2 ^ j)))
      × (bit_and m (0xffff - 2 ^ i) < 256)
mask_lem m i j hm hi hj =
    let row = each_below_sound 256 _ m mask_table hm in
    let col = each_below_sound 8 _ i row hi in
    let cell = each_below_sound 8 _ j col hj in
    unfold set_ok clear_ok in
    ground (
      arith,
      cell,
      same→eq (has_group (bit_or m (2 ^ i)) (2 ^ j)) (i == j || has_group m (2 ^ j)),
      same→eq (has_group (bit_and m (0xffff - 2 ^ i)) (2 ^ j))
          (not (i == j) && has_group m (2 ^ j)),
    )

bit_table : each_below 8 (λ i. modifier_bit (0xe0 + i) == 2 ^ i) ≡ true
unfolding each_below modifier_bit
bit_table = refl

-- A usage is one of the eight modifiers, with its bit, or has none.
modifier_bit_cases :
    (hid : ℕ)
    → ((modifier_bit hid ≡ 0) × ((hid < 0xe0) ⊎ (0xe7 < hid)))
      ⊎ ((i : ℕ) × (i < 8) × (hid ≡ 0xe0 + i) × (modifier_bit hid ≡ 2 ^ i) × (2 ^ i ≢ 0))
modifier_bit_cases hid = elim (dec_lt hid 0xe0) [
  | yes lt ↦ inl (unfold modifier_bit in ground arith, inl lt)
  | no ge ↦ elim (dec_lt hid 0xe8) [
    | no gt ↦ inl (unfold modifier_bit in ground arith, inr (omega arith))
    | yes lt ↦
        let at : 0xe0 + (hid - 0xe0) ≡ hid = omega arith in
        let bit = (==_iff _ _).0 (each_below_sound 8 _ (hid - 0xe0) bit_table (omega arith)) in
        inr (
          hid - 0xe0,
          omega arith,
          sym at,
          rw at at bit,
          λ e. omega (arith, one-le-pow (hid - 0xe0) 2),
        )
  ]
]

-- Bit `j` of the mask tells whether the `j`-th modifier is down, and there are no other bits.
pub record IsInStep (t : InputTracker) : Type 0 where
  pub small : t.modifiers < 256
  pub bits : (j : ℕ) → j < 8 → has_group t.modifiers (2 ^ j) ≡ t.keys_down (0xe0 + j)

abbrev set_mods : ℕ → Bool → ℕ → ℕ
set_mods bit down mods =
    if bit == 0 then mods else if down then bit_or mods bit else bit_and mods (0xffff - bit)

on_key_fields :
    (hid : ℕ) (down : Bool) (hk : Hotkeys) (t : InputTracker)
    → ((on_key hid down hk t).0 ≡ t)
      ⊎ (((on_key hid down hk t).0.keys_down ≡ update t.keys_down hid down)
          × ((on_key hid down hk t).0.modifiers ≡ set_mods (modifier_bit hid) down t.modifiers))
unfolding on_key
on_key_fields hid true hk t = ground arith
on_key_fields hid false hk t = ground arith

-- The two fields after an event decide whether the mask is still in step.
moved-IsInStep :
    (hid : ℕ) (down : Bool) (t u : InputTracker)
    → u.keys_down ≡ update t.keys_down hid down
    → u.modifiers ≡ set_mods (modifier_bit hid) down t.modifiers
    → IsInStep t
    → IsInStep u
moved-IsInStep hid down t u d m s = elim (modifier_bit_cases hid) [
  | inl (zero, far) ↦ record {
    small = ground (arith, s.small);
    bits = λ j hj. rw (d, m) (ground (arith, s.bits j hj));
  }
  | inr (i, hi, at, bit, pos) ↦ record {
    small = ground (arith, s.small, mask_lem t.modifiers i 0);
    bits = λ j hj. rw (d, m) (ground (arith, s.small, mask_lem t.modifiers i j, s.bits j hj));
  }
]

on_key-IsInStep :
    (hid : ℕ) (down : Bool) (hk : Hotkeys) (t : InputTracker)
    → IsInStep t
    → IsInStep (on_key hid down hk t).0
on_key-IsInStep hid down hk t s = elim (on_key_fields hid down hk t) [
  | inl e ↦ rw e s
  | inr (d, m) ↦ moved-IsInStep hid down t _ d m s
]

on_button-IsInStep :
    (index : ℕ) (down : Bool) (t : InputTracker) → IsInStep t → IsInStep (on_button index down t).0
on_button-IsInStep index down t s = record {
  small = unfold on_button in ground (arith, s.small);
  bits = λ j hj. unfold on_button in ground (arith, s.bits j hj);
}

step-IsInStep : (hk : Hotkeys) (t : InputTracker) (e : Event) → IsInStep t → IsInStep (step hk t e)
unfolding step
step-IsInStep hk t (key_event hid down) s = on_key-IsInStep hid down hk t s
step-IsInStep hk t (button_event index down) s = on_button-IsInStep index down t s

run-IsInStep :
    (hk : Hotkeys) (t : InputTracker) (es : List Event) → IsInStep t → IsInStep (run hk t es)
unfolding run
run-IsInStep hk t [] s = s
run-IsInStep hk t (e ∷ es) s = run-IsInStep hk (step hk t e) es (step-IsInStep hk t e s)

empty_table : each_below 8 (λ j. not (has_group 0 (2 ^ j))) ≡ true
unfolding each_below has_group
empty_table = refl

new-IsInStep : IsInStep new
unfolding new
new-IsInStep = record {
  small = omega arith;
  bits = λ j hj. ground (arith, each_below_sound 8 _ j empty_table hj);
}

pub run_modifiers :
    (hk : Hotkeys) (before after : List Event)
    → IsInStep (run hk (mark_all_stale (run hk new before)) after)
run_modifiers hk before after =
    let s = run-IsInStep hk new before new-IsInStep in
    run-IsInStep hk _ after (unfold mark_all_stale in record { small = s.small; bits = s.bits })
