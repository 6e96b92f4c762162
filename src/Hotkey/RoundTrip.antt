-- ===== src/Hotkey/RoundTrip.antt =====
-- config.rs: `format_hotkey` against `parse_hotkey` and `mods_match`.
use native.Mathlib.Decide.{dec_lt}
use remote_input_bridge.Base.{ℕ, ◌≤◌, ◌<◌, ◌≡◌, refl, arith, ap, ◌∙◌, List, [], ◌∷◌, Option, none}
use remote_input_bridge.Base.{some, Bool, true, false, ◌&&◌, ◌==◌, ==_iff, if◌then◌else◌, bit_or}
use remote_input_bridge.Base.{Option-cases, inl, inr, All}
use remote_input_bridge.Base.Masks.{each_below, each_below_sound}
use remote_input_bridge.Base.Text.{ascii, text_eq, text_eq→eq}
use remote_input_bridge.Wire.Modmask
use remote_input_bridge.Hotkey.{Hotkey, vk_names, find_code, split_plus, Token, trigger, token_of}
use remote_input_bridge.Hotkey.{parse_parts, parse_hotkey, parse_u16, key_text, has_group}
use remote_input_bridge.Hotkey.{part_text, render, format_hotkey, same_group, mods_match}

-- A key's text is one part, and that part is read as the key.
is_one_part : List (List ℕ) → List ℕ → Bool
is_one_part (piece ∷ []) k = text_eq piece k
is_one_part pieces k = false

is_trigger : Token → ℕ → Bool
is_trigger (trigger code) vk = code == vk
is_trigger token vk = false

reads_back : ℕ → Option (List ℕ) → Bool
unfolding is_one_part is_trigger
reads_back vk none = true
reads_back vk (some k) = is_one_part (split_plus k) k && is_trigger (token_of k) vk

is_one_part→eq : (ps : List (List ℕ)) (k : List ℕ) → is_one_part ps k ≡ true → ps ≡ k ∷ []
unfolding is_one_part
is_one_part→eq [] k h = cc
is_one_part→eq (p ∷ []) k h = ap (λ x. x ∷ []) (text_eq→eq p k h)
is_one_part→eq (p ∷ q ∷ ps) k h = cc

is_trigger→eq : (t : Token) (vk : ℕ) → is_trigger t vk ≡ true → t ≡ trigger vk
unfolding is_trigger
is_trigger→eq (trigger code) vk h = ap trigger ((==_iff code vk).0 h)
is_trigger→eq _ vk h = cc

key_table : each_below 256 (λ vk. reads_back vk (key_text vk)) ≡ true
unfolding each_below reads_back key_text split_plus token_of parse_u16
key_table = refl

find_code_above :
    (vk : ℕ) (t : List (List ℕ × ℕ)) → All (λ e. e.1 < 256) t → 256 ≤ vk → find_code vk t ≡ none
unfolding find_code
find_code_above vk [] h le = refl
find_code_above vk ((name, code) ∷ rest) h le = ground (arith, find_code_above vk rest h.1)

key_text_above : (vk : ℕ) → 256 ≤ vk → key_text vk ≡ none
unfolding key_text
key_text_above vk h = ground (arith, find_code_above vk vk_names (unfold vk_names in omega arith) h)

abbrev add_group : Bool → ℕ → ℕ → ℕ
add_group b mask mods = if b then bit_or mods mask else mods

groups : Bool → Bool → Bool → Bool → ℕ
groups ctrl alt shift gui = add_group gui Modmask.any_gui (
    add_group shift Modmask.any_shift
      (add_group alt Modmask.any_alt (add_group ctrl Modmask.any_ctrl 0)))

-- A modifier's part adds its mask and no more.
abbrev Adds : List ℕ → ℕ → Type 0
Adds name mask =
    (b : Bool) (mods : ℕ) (rest : List ℕ)
    → parse_parts mods none (split_plus (part_text b name rest))
      ≡ parse_parts (add_group b mask mods) none (split_plus rest)

ctrl-Adds : Adds (ascii "Ctrl") Modmask.any_ctrl
unfolding parse_parts split_plus token_of part_text
ctrl-Adds true mods rest = refl
ctrl-Adds false mods rest = refl

alt-Adds : Adds (ascii "Alt") Modmask.any_alt
unfolding parse_parts split_plus token_of part_text
alt-Adds true mods rest = refl
alt-Adds false mods rest = refl

shift-Adds : Adds (ascii "Shift") Modmask.any_shift
unfolding parse_parts split_plus token_of part_text
shift-Adds true mods rest = refl
shift-Adds false mods rest = refl

gui-Adds : Adds (ascii "Win") Modmask.any_gui
unfolding parse_parts split_plus token_of part_text
gui-Adds true mods rest = refl
gui-Adds false mods rest = refl

parse_parts-render :
    (c a s g : Bool) (k : List ℕ)
    → parse_parts 0 none (split_plus (render c a s g k))
      ≡ parse_parts (groups c a s g) none (split_plus k)
unfolding groups
parse_parts-render c a s g k =
    unfold render part_text in ctrl-Adds c 0 _ ∙ alt-Adds a _ _ ∙ shift-Adds s _ _ ∙ gui-Adds g _ k

groups-has_group :
    (c a s g : Bool)
    → (has_group (groups c a s g) Modmask.any_ctrl ≡ c)
      × (has_group (groups c a s g) Modmask.any_alt ≡ a)
      × (has_group (groups c a s g) Modmask.any_shift ≡ s)
      × (has_group (groups c a s g) Modmask.any_gui ≡ g)
unfolding has_group groups
groups-has_group c a s g = ground arith

key_text_lem :
    (vk : ℕ) (k : List ℕ)
    → key_text vk ≡ some k
    → (split_plus k ≡ k ∷ []) × (token_of k ≡ trigger vk)
key_text_lem vk k found = elim (dec_lt vk 256) [
  | no ge ↦ absurd (cc (key_text_above vk (omega arith)))
  | yes lt ↦
      let fine = rw found at (each_below_sound 256 _ vk key_table lt) in
      unfold reads_back in
      ground (arith, fine, is_one_part→eq (split_plus k) k, is_trigger→eq (token_of k) vk)
]

parse_hotkey-render :
    (c a s g : Bool) (vk : ℕ) (k : List ℕ)
    → key_text vk ≡ some k
    → parse_hotkey (render c a s g k) ≡ some (record { mods = groups c a s g; vk = vk })
unfolding parse_hotkey
parse_hotkey-render c a s g vk k found =
    let (one, key) = key_text_lem vk k found in
    parse_parts-render c a s g k ∙ rw one (unfold parse_parts in rw (key, parse_parts))

same_group-of_eq :
    (required pressed group : ℕ)
    → has_group required group ≡ has_group pressed group
    → same_group required pressed group ≡ true
unfolding same_group
same_group-of_eq required pressed group e = ground arith

mods_match-of_eq :
    (required pressed : ℕ)
    → (has_group required Modmask.any_ctrl ≡ has_group pressed Modmask.any_ctrl)
      × (has_group required Modmask.any_alt ≡ has_group pressed Modmask.any_alt)
      × (has_group required Modmask.any_shift ≡ has_group pressed Modmask.any_shift)
      × (has_group required Modmask.any_gui ≡ has_group pressed Modmask.any_gui)
    → mods_match required pressed ≡ true
unfolding mods_match
mods_match-of_eq required pressed (c, a, s, g) =
    let same = same_group-of_eq required pressed in
    rw (
      same Modmask.any_ctrl c,
      same Modmask.any_shift s,
      same Modmask.any_alt a,
      same Modmask.any_gui g,
    )

-- Whatever `format_hotkey` prints for a pressed combination, `parse_hotkey` reads back as a hotkey
-- on the same key, whose modifiers match the ones that were pressed.
pub parse_hotkey-format_hotkey :
    (mods vk : ℕ) (text : List ℕ)
    → format_hotkey mods vk ≡ some text
    → (h : Hotkey) × (parse_hotkey text ≡ some h) × (h.vk ≡ vk) × (mods_match h.mods mods ≡ true)
unfolding format_hotkey parse_hotkey
parse_hotkey-format_hotkey mods vk text e = elim (Option-cases (key_text vk)) [
  | inl missing ↦ absurd (cc (rw (missing, format_hotkey) at e))
  | inr (k, found) ↦
      let c = has_group mods Modmask.any_ctrl in
      let a = has_group mods Modmask.any_alt in
      let s = has_group mods Modmask.any_shift in
      let g = has_group mods Modmask.any_gui in
      let printed : render c a s g k ≡ text = cc (rw (found, format_hotkey) at e) in
      (
        record { mods = groups c a s g; vk = vk },
        rw (← printed) (parse_hotkey-render c a s g vk k found),
        refl,
        mods_match-of_eq (groups c a s g) mods (groups-has_group c a s g),
      )
]
