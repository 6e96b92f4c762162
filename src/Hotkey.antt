-- ===== src/Hotkey.antt =====
-- config.rs, the hotkeys: `parse_hotkey`, `format_hotkey` and `mods_match`. Texts are lists of code
-- points, so `len() == 1` of a token, which counts bytes, is one code point below 0x80.
use remote_input_bridge.Base.{
  ℕ, ◌+◌, ◌-◌, ◌*◌, ◌/◌, ◌%◌, List, [], ◌∷◌, ◌++◌, Option, none, some, Bool, true, false, not, ◌&&◌,
  ◌||◌, ◌==◌, leb, ltb, if◌then◌else◌, bit_and, bit_or, ◌>>=◌,
}
use remote_input_bridge.Base.Text.{ascii, text_eq}
use remote_input_bridge.Wire.Modmask
use remote_input_bridge.Keymap.{within}
pub mod RoundTrip

pub record Hotkey : Type 0 where
  pub mods : ℕ
  pub vk : ℕ

unfoldable pub vk_names : List (List ℕ × ℕ)
vk_names =
    (ascii "LEFT", 0x25)
    ∷ (ascii "UP", 0x26)
    ∷ (ascii "RIGHT", 0x27)
    ∷ (ascii "DOWN", 0x28)
    ∷ (ascii "ESCAPE", 0x1b)
    ∷ (ascii "ESC", 0x1b)
    ∷ (ascii "SPACE", 0x20)
    ∷ (ascii "TAB", 0x09)
    ∷ (ascii "ENTER", 0x0d)
    ∷ (ascii "RETURN", 0x0d)
    ∷ (ascii "BACKSPACE", 0x08)
    ∷ (ascii "DELETE", 0x2e)
    ∷ (ascii "INSERT", 0x2d)
    ∷ (ascii "HOME", 0x24)
    ∷ (ascii "END", 0x23)
    ∷ (ascii "PAGEUP", 0x21)
    ∷ (ascii "PAGEDOWN", 0x22)
    ∷ (ascii "PAUSE", 0x13)
    ∷ (ascii "SCROLLLOCK", 0x91)
    ∷ (ascii "PRINTSCREEN", 0x2c)
    ∷ []

unfoldable pub find_name : List ℕ → List (List ℕ × ℕ) → Option ℕ
find_name token [] = none
find_name token ((name, vk) ∷ rest) = if text_eq name token then some vk else find_name token rest

unfoldable pub find_code : ℕ → List (List ℕ × ℕ) → Option (List ℕ)
find_code code [] = none
find_code code ((name, vk) ∷ rest) = if vk == code then some name else find_code code rest

-- `str::trim`: the characters with the property White_Space.
unfoldable pub is_whitespace : ℕ → Bool
unfolding within
is_whitespace c =
    within 9 13 c
    || (c == 0x20
        || (c == 0x85
            || (c == 0xa0
                || (c == 0x1680
                    || (within 0x2000 0x200a c
                        || (c == 0x2028
                            || (c == 0x2029 || (c == 0x202f || (c == 0x205f || c == 0x3000)))))))))

unfoldable pub trim_start : List ℕ → List ℕ
trim_start [] = []
trim_start (c ∷ cs) = if is_whitespace c then trim_start cs else c ∷ cs

unfoldable pub trim_end : List ℕ → List ℕ
trim_end [] = []
trim_end (c ∷ cs) = elim (trim_end cs) [
  | [] ↦ if is_whitespace c then [] else c ∷ []
  | d ∷ ds ↦ c ∷ d ∷ ds
]

unfoldable pub to_ascii_uppercase : List ℕ → List ℕ
unfolding within
to_ascii_uppercase [] = []
to_ascii_uppercase (c ∷ cs) = (if within b'a' b'z' c then c - 32 else c) ∷ to_ascii_uppercase cs

unfoldable pub put_front : ℕ → List (List ℕ) → List (List ℕ)
put_front c [] = (c ∷ []) ∷ []
put_front c (piece ∷ pieces) = (c ∷ piece) ∷ pieces

-- `split('+')`: at least one piece.
unfoldable pub split_plus : List ℕ → List (List ℕ)
unfolding put_front
split_plus [] = [] ∷ []
split_plus (c ∷ cs) = if c == b'+' then [] ∷ split_plus cs else put_front c (split_plus cs)

parse_digits : ℕ → List ℕ → Option ℕ
parse_digits acc [] = some acc
parse_digits acc (c ∷ cs) =
    let next = acc * 10 + (c - b'0') in
    let rest = parse_digits next cs in
    if within b'0' b'9' c then (if leb next 65535 then rest else none) else none

-- `parse::<u16>` of a token, which holds no sign `+`: digits, at least one, no overflow.
unfoldable pub parse_u16 : List ℕ → Option ℕ
unfolding parse_digits
parse_u16 [] = none
parse_u16 (c ∷ cs) = parse_digits 0 (c ∷ cs)

function_key : List ℕ → Option ℕ
function_key rest = do n ← parse_u16 rest; if leb 1 n && leb n 24 then some (0x70 + n - 1) else none

single_key : ℕ → Option ℕ
unfolding within
single_key c =
    if within b'0' b'9' c || (within b'A' b'Z' c || within b'a' b'z' c) then some c else none

-- A token that is neither a modifier nor the name of a key: one ASCII character, or `F` and a
-- number.
spelled_key : List ℕ → Option ℕ
unfolding function_key single_key
spelled_key [] = none
spelled_key (c ∷ []) = if ltb c 0x80 then single_key c else none
spelled_key (c ∷ d ∷ rest) = if c == b'F' then function_key (d ∷ rest) else none

key_code : List ℕ → Option ℕ
unfolding spelled_key find_name vk_names
key_code token = elim (find_name token vk_names) [
  | some code ↦ some code
  | none ↦ spelled_key token
]

pub data Token : Type 0 where
  empty bad : Token
  modifier : (mask : ℕ) → Token
  trigger : (code : ℕ) → Token

or_bad : Option ℕ → Token
or_bad none = bad
or_bad (some code) = trigger code

-- What a trimmed token in capitals says.
read_token : List ℕ → Token
unfolding or_bad key_code
read_token [] = empty
read_token (c ∷ cs) =
    let token = c ∷ cs in
    if text_eq token (ascii "CTRL") || text_eq token (ascii "CONTROL")
    then modifier Modmask.any_ctrl
    else if text_eq token (ascii "ALT") || text_eq token (ascii "OPTION")
    then modifier Modmask.any_alt
    else if text_eq token (ascii "SHIFT")
    then modifier Modmask.any_shift
    else if text_eq token (ascii "WIN")
        || (text_eq token (ascii "SUPER")
            || (text_eq token (ascii "META")
                || (text_eq token (ascii "CMD") || text_eq token (ascii "GUI"))))
    then modifier Modmask.any_gui
    else or_bad (key_code token)

token_of : List ℕ → Token
unfolding read_token to_ascii_uppercase trim_start trim_end is_whitespace
token_of part = read_token (to_ascii_uppercase (trim_end (trim_start part)))

-- The loop over the parts. A second trigger key, like a bad token, ends it with no hotkey.
parse_parts : ℕ → Option ℕ → List (List ℕ) → Option Hotkey
parse_parts mods vk [] = do code ← vk; some (record { mods = mods; vk = code })
parse_parts mods vk (part ∷ parts) = elim (token_of part) [
  | empty ↦ parse_parts mods vk parts
  | bad ↦ none
  | modifier mask ↦ parse_parts (bit_or mods mask) vk parts
  | trigger code ↦ elim vk [ none ↦ parse_parts mods (some code) parts | some other ↦ none ]
]

unfoldable pub parse_hotkey : List ℕ → Option Hotkey
unfolding split_plus parse_parts token_of
parse_hotkey spec = parse_parts 0 none (split_plus spec)

-- Printing a number below 100.
decimal : ℕ → List ℕ
decimal n = if ltb n 10 then (b'0' + n) ∷ [] else (b'0' + n / 10) ∷ (b'0' + n % 10) ∷ []

key_text : ℕ → Option (List ℕ)
unfolding within decimal find_code vk_names
key_text vk = elim (find_code vk vk_names) [
  | some name ↦ some name
  | none ↦
      if within 0x70 0x87 vk
      then some (b'F' ∷ decimal (vk - 0x70 + 1))
      else if within b'0' b'9' vk || within b'A' b'Z' vk
      then some (vk ∷ [])
      else none
]

-- `mods & group != 0`.
unfoldable pub has_group : ℕ → ℕ → Bool
has_group mods group = not (bit_and mods group == 0)

-- One part, and the `+` that joins it to the next.
part_text : Bool → List ℕ → List ℕ → List ℕ
part_text true name rest = name ++ (b'+' ∷ rest)
part_text false name rest = rest

render : Bool → Bool → Bool → Bool → List ℕ → List ℕ
unfolding part_text
render ctrl alt shift gui key = part_text ctrl (ascii "Ctrl") (
    part_text alt (ascii "Alt") (part_text shift (ascii "Shift") (part_text gui (ascii "Win") key)))

unfoldable pub format_hotkey : ℕ → ℕ → Option (List ℕ)
unfolding render key_text
format_hotkey mods vk = do
  key ← key_text vk
  some (
      render (has_group mods Modmask.any_ctrl) (has_group mods Modmask.any_alt)
        (has_group mods Modmask.any_shift) (has_group mods Modmask.any_gui) key)

unfoldable pub same_group : ℕ → ℕ → ℕ → Bool
same_group required pressed group =
    if has_group required group then has_group pressed group else not (has_group pressed group)

unfoldable pub mods_match : ℕ → ℕ → Bool
mods_match required pressed =
    same_group required pressed Modmask.any_ctrl
    && (same_group required pressed Modmask.any_shift
        && (same_group required pressed Modmask.any_alt
            && same_group required pressed Modmask.any_gui))
