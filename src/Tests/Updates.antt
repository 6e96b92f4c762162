-- ===== src/Tests/Updates.antt =====
-- The updater at concrete inputs, with a checksum in place of SHA-256 and a server that sends a file.
use remote_input_bridge.Base.{ℕ, ◌≡◌, ◌↔◌, refl, List, [], ◌∷◌, none, some, true, false}
use remote_input_bridge.Base.{replicate, All}
use remote_input_bridge.Base.Text.{ascii}
use remote_input_bridge.Frame.{Result, ok}
use remote_input_bridge.Update.{Text, Artifact, Manifest, parts, is_newer, newer_from}
use remote_input_bridge.Update.{split_version, trim_v, parse_or_zero}
use remote_input_bridge.Hotkey.{is_whitespace}
use remote_input_bridge.Update.Version.{IsAhead, is_newer_iff}
use remote_input_bridge.Update.Download.{Outside}
use remote_input_bridge.Update.Install.{Event, boot, run, step, calls_check, calls_install, steps}
use remote_input_bridge.Update.Install.{shows, up_to_date}
use remote_input_bridge.Update.Install.Alone.{IsAlone, run-IsAlone}
use remote_input_bridge.Update.Install.Sound.{IsChecked, attempts-AreChecked}
use remote_input_bridge.Update.Install.Lockout.{stuck, failed_spawn_locks}

abbrev content : List ℕ
content = 0x4d ∷ 0x5a ∷ 0x90 ∷ []

abbrev checksum : List ℕ → List ℕ
checksum bytes = replicate 32 (elim bytes [ [] ↦ 0 | b ∷ rest ↦ b ])

abbrev server : Outside
server = record {
  open_url = λ url. ok (record {
    declared_length = some 3;
    reads =
        ok (record { bytes = 0x4d ∷ 0x5a ∷ []; failed_at = none })
        ∷ ok (record { bytes = 0x90 ∷ []; failed_at = none })
        ∷ [];
  });
  sha256 = checksum;
  remove_file = λ file. none;
  create_error = none;
  flush_error = none;
  spawn_error = none;
}

abbrev version : Text
version = ascii "0.3.2"

-- The digest is the one of the file, with capital letters.
abbrev artifact : Artifact
artifact = record {
  url = ascii "https://example.invalid/setup.exe";
  sha256 = ascii "4D4D4D4D4D4D4D4D4D4D4D4D4D4D4D4D4D4D4D4D4D4D4D4D4D4D4D4D4D4D4D4D";
  size = 0;
}

abbrev manifest : Result Text Manifest
manifest =
    ok (record { version = ascii "v0.4"; notes_url = []; windows = some artifact; macos = none })

-- A check that finds the update, and an installation in which a second check is called.
abbrev story : List Event
story =
    calls_check true true
    ∷ steps 0 manifest none
    ∷ steps 0 manifest none
    ∷ steps 0 manifest none
    ∷ steps 0 manifest none
    ∷ calls_install true
    ∷ steps 0 manifest none
    ∷ calls_check true true
    ∷ shows 0 66
    ∷ steps 0 manifest none
    ∷ []

newer_patch : is_newer (ascii "0.2.1") (ascii "0.2.0") ≡ true
unfolding is_newer newer_from parts split_version trim_v is_whitespace parse_or_zero
newer_patch = refl

newer_than_none : is_newer [] (ascii "0.0.1") ≡ false
unfolding is_newer newer_from parts split_version trim_v is_whitespace parse_or_zero
newer_than_none = refl

-- Of a version that is not one, the numbers that can be read still count.
newer_malformed : is_newer (ascii "1.x") version ≡ true
unfolding is_newer newer_from parts split_version trim_v is_whitespace parse_or_zero
newer_malformed = refl

is_newer_iff_example :
    (is_newer (ascii "v0.4") version ≡ true) ↔ IsAhead 0 (parts (ascii "v0.4")) (parts version)
is_newer_iff_example = is_newer_iff (ascii "v0.4") version

run-IsAlone_example : IsAlone (run server version story boot)
run-IsAlone_example = run-IsAlone server version story

attempts-AreChecked_example :
    All (IsChecked server version) (run server version story boot).attempts
attempts-AreChecked_example = attempts-AreChecked server version story

failed_spawn_locks_example :
    run server version story (
      step server version (calls_check false true) (record {
        state = record { stage = up_to_date; pending = none; busy = false };
        tasks = [];
        attempts = [];
      }))
    ≡ stuck up_to_date none []
failed_spawn_locks_example = failed_spawn_locks server version up_to_date [] true none story
