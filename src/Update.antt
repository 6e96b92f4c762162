-- ===== src/Update.antt =====
-- update.rs: the manifest, the comparison of versions, and the state of the updater.
use remote_input_bridge.Base.{
  ℕ, ◌+◌, ◌-◌, ◌*◌, ◌^◌, zero, suc, max, List, [], ◌∷◌, Option, none, some, Bool, true, false, ◌||◌,
  ◌==◌, ltb, if◌then◌else◌, length, get_or, map,
}
use remote_input_bridge.Hotkey.{trim_start, trim_end, put_front}
use remote_input_bridge.Keymap.{within}
pub mod Version
pub mod Download
pub mod Install
pub mod Url
pub mod Fetch

abbrev pub Text : Type 0
Text = List ℕ

pub record Artifact : Type 0 where
  pub url : Text
  pub sha256 : Text
  pub size : ℕ

pub record Manifest : Type 0 where
  pub version : Text
  pub notes_url : Text
  pub windows : Option Artifact
  pub macos : Option Artifact

parse_digits : ℕ → Text → Option ℕ
unfolding within
parse_digits acc [] = some acc
parse_digits acc (c ∷ cs) =
    let next = acc * 10 + (c - b'0') in
    let rest = parse_digits next cs in
    if within b'0' b'9' c then (if ltb next (2 ^ 64) then rest else none) else none

-- `part.parse().unwrap_or(0)` at u64, of a part that holds no sign `+`.
unfoldable pub parse_or_zero : Text → ℕ
unfolding parse_digits
parse_or_zero [] = 0
parse_or_zero (c ∷ cs) = elim (parse_digits 0 (c ∷ cs)) [ none ↦ 0 | some n ↦ n ]

unfoldable pub trim_v : Text → Text
trim_v [] = []
trim_v (c ∷ cs) = if c == b'v' then trim_v cs else c ∷ cs

unfoldable pub split_version : Text → List Text
unfolding put_front
split_version [] = [] ∷ []
split_version (c ∷ cs) =
    if c == b'.' || (c == b'-' || c == b'+')
    then [] ∷ split_version cs
    else put_front c (split_version cs)

unfoldable pub parts : Text → List ℕ
unfolding trim_start trim_end
parts text = map parse_or_zero (split_version (trim_v (trim_end (trim_start text))))

-- The loop over the indices, from `index` on, of which `steps` are left.
unfoldable pub newer_from : ℕ → ℕ → List ℕ → List ℕ → Bool
newer_from zero index left right = false
newer_from (suc steps) index left right =
    let a = get_or left index 0 in
    let b = get_or right index 0 in
    let rest = newer_from steps (suc index) left right in if a == b then rest else ltb b a

unfoldable pub is_newer : Text → Text → Bool
is_newer candidate current =
    let left = parts candidate in
    let right = parts current in newer_from (max (length left) (length right)) 0 left right
