-- ===== src/Tracker/Stale.antt =====
-- input/mod.rs, the stale flags: keys that are held across a switch, or that fired a hotkey.
use remote_input_bridge.Base.{ℕ, ◌<◌, ◌≡◌, ◌≢◌, ap, arith, List, [], ◌∷◌, Bool, true, false, All}
use remote_input_bridge.Tracker.{Hotkeys, HotkeyAction, forward, drop, hotkey, InputTracker}
use remote_input_bridge.Tracker.{on_key, on_button, mark_all_stale}

-- An event of a key or of a button.
pub data Event : Type 0 where
  key_event : (hid : ℕ) (down : Bool) → Event
  button_event : (index : ℕ) (down : Bool) → Event

unfoldable pub step : Hotkeys → InputTracker → Event → InputTracker
step hk t (key_event hid down) = (on_key hid down hk t).0
step hk t (button_event index down) = (on_button index down t).0

unfoldable pub run : Hotkeys → InputTracker → List Event → InputTracker
run hk t [] = t
run hk t (e ∷ es) = run hk (step hk t e) es

-- Held, and not to be forwarded.
pub record IsMuted (k : ℕ) (t : InputTracker) : Type 0 where
  pub down : t.keys_down k ≡ true
  pub stale : t.keys_stale k ≡ true

abbrev pub NotReleaseOf : ℕ → Event → Type 0
NotReleaseOf k e = e ≢ key_event k false

on_key-IsMuted :
    (k hid : ℕ) (down : Bool) (hk : Hotkeys) (t : InputTracker)
    → key_event hid down ≢ key_event k false
    → IsMuted k t
    → IsMuted k (on_key hid down hk t).0
unfolding on_key
on_key-IsMuted k hid true hk t other m = ground arith
on_key-IsMuted k hid false hk t other m =
    let differ : hid ≢ k = λ e. other (ap (λ h. key_event h false) e) in ground arith

step-IsMuted :
    (k : ℕ) (hk : Hotkeys) (t : InputTracker) (e : Event)
    → NotReleaseOf k e
    → IsMuted k t
    → IsMuted k (step hk t e)
unfolding step
step-IsMuted k hk t (key_event hid down) other m = on_key-IsMuted k hid down hk t other m
step-IsMuted k hk t (button_event index down) other m = unfold on_button in ground arith

run-IsMuted :
    (k : ℕ) (hk : Hotkeys) (t : InputTracker) (es : List Event)
    → All (NotReleaseOf k) es
    → IsMuted k t
    → IsMuted k (run hk t es)
unfolding run
run-IsMuted k hk t [] others m = m
run-IsMuted k hk t (e ∷ es) others m =
    run-IsMuted k hk (step hk t e) es others.1 (step-IsMuted k hk t e others.0 m)

-- A muted key forwards neither a press nor its release, and its release ends the muting.
on_key_muted :
    (k : ℕ) (hk : Hotkeys) (t : InputTracker)
    → 0 < k
    → k < 256
    → IsMuted k t
    → ((repeat : Bool) → (on_key k true hk t).1 ≢ forward repeat)
      × ((on_key k false hk t).1 ≡ drop)
      × ((on_key k false hk t).0.keys_down k ≡ false)
      × ((on_key k false hk t).0.keys_stale k ≡ false)
unfolding on_key
on_key_muted k hk t pos h m = ((λ r e. ground arith), ground arith, ground arith, ground arith)

-- What is forwarded of key `k` after the events `es`.
abbrev pub IsQuiet : ℕ → Hotkeys → InputTracker → List Event → Type 0
IsQuiet k hk t es =
    ((repeat : Bool) → (on_key k true hk (run hk t es)).1 ≢ forward repeat)
    × ((on_key k false hk (run hk t es)).1 ≡ drop)

-- A key that is down at a switch is quiet from then on: whatever other events come, also presses of
-- the key itself, a press of it is not forwarded and its release is dropped. After the release it
-- is neither down nor stale. The key is one of the table, other than the reserved key 0.
pub mark_all_stale-IsQuiet :
    (k : ℕ) (hk : Hotkeys) (t : InputTracker) (es : List Event)
    → 0 < k
    → k < 256
    → t.keys_down k ≡ true
    → All (NotReleaseOf k) es
    → IsQuiet k hk (mark_all_stale t) es
      × ((on_key k false hk (run hk (mark_all_stale t) es)).0.keys_down k ≡ false)
      × ((on_key k false hk (run hk (mark_all_stale t) es)).0.keys_stale k ≡ false)
mark_all_stale-IsQuiet k hk t es pos h held others =
    let m : IsMuted k (mark_all_stale t) = unfold mark_all_stale in ground arith in
    let (press, release, up, fresh) = on_key_muted k hk _ pos h (run-IsMuted k hk _ es others m) in
    ((press, release), up, fresh)

-- A key whose press fired a hotkey is quiet from then on, through any events but its release: no
-- press of it is forwarded, and its release is dropped.
pub hotkey-IsQuiet :
    (k : ℕ) (hk : Hotkeys) (t : InputTracker) (action : HotkeyAction) (es : List Event)
    → (on_key k true hk t).1 ≡ hotkey action
    → All (NotReleaseOf k) es
    → IsQuiet k hk (on_key k true hk t).0 es
hotkey-IsQuiet k hk t action es fired others =
    let pos : 0 < k = unfold on_key in ground arith in
    let range : k < 256 = unfold on_key in ground arith in
    let m : IsMuted k (on_key k true hk t).0 = unfold on_key in ground arith in
    let (press, release, _, _) = on_key_muted k hk _ pos range (run-IsMuted k hk _ es others m) in
    (press, release)
