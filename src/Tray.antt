-- ===== src/Tray.antt =====
-- ui/tray.rs: the icon of the tray, its tip and its menu. The shell is a parameter: the state it has,
-- and what its calls that add, change and delete the icon answer and leave.
use remote_input_bridge.Base.{
  ℕ, ◌+◌, ◌-◌, ◌/◌, ◌%◌, suc, List, [], ◌∷◌, ◌++◌, Option, none, some, Bool, true, false, ltb,
  if◌then◌else◌, length, take, drop,
}
pub mod Shown
pub mod Menu
pub mod Tip

-- `encode_utf16` of a code point.
unfoldable pub utf16_units : ℕ → List ℕ
utf16_units c =
    if ltb c 0x1_0000
    then c ∷ []
    else (0xd800 + (c - 0x1_0000) / 1024) ∷ (0xdc00 + (c - 0x1_0000) % 1024) ∷ []

unfoldable pub encode_utf16 : List ℕ → List ℕ
unfolding utf16_units
encode_utf16 [] = []
encode_utf16 (c ∷ cs) = utf16_units c ++ encode_utf16 cs

-- `set_tip` on the array `szTip`: none if an index is out of range.
unfoldable pub set_tip : List ℕ → List ℕ → Option (List ℕ)
unfolding encode_utf16
set_tip tip text =
    let encoded = take (length tip - 1) (encode_utf16 text) in
    if ltb (length encoded) (length tip)
    then some (encoded ++ 0 ∷ drop (suc (length encoded)) tip)
    else none

-- `PRESENT`, and the state of the shell.
pub record Tray (S : Type 0) : Type 0 where
  pub present : Bool
  pub shell : S

-- What reaches the icon: the timer, the broadcast of a new task bar, the end of the window, and what
-- the shell does by itself.
pub data Event (S : Type 0) : Type 0 where
  ticks broadcast closes : Event S
  shell_turns : (S → S) → Event S

module _ {S : Type 0} (nim_add nim_modify : S → Bool × S) (nim_delete : S → S) where
  unfoldable pub add : Tray S → Tray S
  add t =
      let (added, after) = nim_add t.shell in
      record { present = if added then true else t.present; shell = after }

  unfoldable pub update : Tray S → Tray S
  unfolding add
  update t =
      let (changed, after) = nim_modify t.shell in
      if t.present then record { present = changed; shell = after } else add t

  unfoldable pub readd : Tray S → Tray S
  unfolding add
  readd t = add (record { present = false; shell = nim_delete t.shell })

  unfoldable pub remove : Tray S → Tray S
  remove t = record { present = false; shell = if t.present then nim_delete t.shell else t.shell }

  unfoldable pub happen : Event S → Tray S → Tray S
  unfolding update readd remove
  happen ticks t = update t
  happen broadcast t = readd t
  happen closes t = remove t
  happen (shell_turns f) t = record t { shell = f t.shell }

  unfoldable pub run : List (Event S) → Tray S → Tray S
  unfolding happen
  run [] t = t
  run (e ∷ es) t = run es (happen e t)
