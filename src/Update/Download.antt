-- ===== src/Update/Download.antt =====
-- update.rs, `http::download` and `download_and_launch`. WinHTTP, the file system, the start of a
-- process and the sha2 crate are arguments. The hasher is the list of the bytes it has been given.
use remote_input_bridge.Base.{
  ℕ, ◌+◌, ◌*◌, ◌/◌, ◌≡◌, min, List, [], ◌∷◌, ◌++◌, Option, none, some, Bool, true, false, ◌==◌, ltb,
  if◌then◌else◌, length, take, map, not, ◌&&◌,
}
use remote_input_bridge.Base.Text.{ascii, text_eq}
use remote_input_bridge.Keymap.{within}
use remote_input_bridge.Frame.{Result, ok, err}
use remote_input_bridge.Crypto.{hex_encode}
use remote_input_bridge.Update.{Text, Artifact}
pub mod Verified

-- A read of the response, and where writing it to the file fails, if it does.
pub record Chunk : Type 0 where
  pub bytes : List ℕ
  pub failed_at : Option ℕ

pub record Response : Type 0 where
  pub declared_length : Option ℕ
  pub reads : List (Result Text Chunk)

-- What is not the program's: a function from the file to what removing it leaves, and the errors
-- of the other calls.
pub record Outside : Type 0 where
  pub open_url : Text → Result Text Response
  pub sha256 : List ℕ → List ℕ
  pub remove_file : Option (List ℕ) → Option (List ℕ)
  pub create_error : Option Text
  pub flush_error : Option Text
  pub spawn_error : Option Text

abbrev pub max_installer_bytes : ℕ
max_installer_bytes = 128 * 1024 * 1024

-- The variables of the loop, the file and the percentages shown.
pub record Progress : Type 0 where
  pub file : Option (List ℕ)
  pub hasher : List ℕ
  pub written : ℕ
  pub last_reported : ℕ
  pub shown : List ℕ

unfoldable pub append_file : Option (List ℕ) → List ℕ → Option (List ℕ)
append_file none bytes = none
append_file (some old) bytes = some (old ++ bytes)

unfoldable pub report : Option ℕ → Progress → Progress
report none s = s
report (some total) s =
    let percent = min ((s.written * 100) / total) 100 in
    if total == 0
    then s
    else if percent == s.last_reported
    then s
    else record s { last_reported = percent; shown = percent ∷ s.shown }

unfoldable pub total_of : Option ℕ → ℕ → Option ℕ
total_of (some declared) expected = some declared
total_of none expected = if expected == 0 then none else some expected

unfoldable pub is_above : Option ℕ → ℕ → Bool
is_above none limit = false
is_above (some bytes) limit = ltb limit bytes

-- `total.filter(|total| *total > 0)` and `written != total`.
unfoldable pub is_short : Option ℕ → ℕ → Bool
is_short none written = false
is_short (some total) written = ltb 0 total && not (written == total)

unfoldable pub write_all : Option ℕ → List ℕ → Progress → Option Text × Progress
write_all none bytes s = (none, record s { file = append_file s.file bytes })
write_all (some n) bytes s =
    (some (ascii "could not write"), record s { file = append_file s.file (take n bytes) })

-- A chunk of the loop: the error that ends it, if one does, and the state after it.
unfoldable pub take_chunk : Outside → ℕ → Chunk → Progress → Option Text × Progress
unfolding write_all append_file
take_chunk w limit c s =
    let counted = record s { written = s.written + length c.bytes } in
    if ltb limit counted.written
    then (
      some (ascii "the download exceeded the limit"),
      record counted { file = w.remove_file counted.file },
    )
    else write_all c.failed_at c.bytes (record counted { hasher = counted.hasher ++ c.bytes })

unfoldable pub go_on :
    Option Text × Progress → (Progress → Option Text × Progress) → Option Text × Progress
go_on (none, s) next = next s
go_on (some e, s) next = (some e, s)

-- The loop over the reads; a read of no bytes is the end.
unfoldable pub read_loop :
    Outside → Option ℕ → ℕ → List (Result Text Chunk) → Progress → Option Text × Progress
unfolding take_chunk report go_on
read_loop w total limit [] s = (none, s)
read_loop w total limit (err e ∷ rest) s = (some e, s)
read_loop w total limit (ok c ∷ rest) s =
    if length c.bytes == 0
    then (none, s)
    else go_on (take_chunk w limit c s) λ after. read_loop w total limit rest (report total after)

-- After `flush`: the length is compared, and the hash taken.
unfoldable pub flushed :
    Outside → Option ℕ → Progress → Option Text → Result Text Text × Option (List ℕ)
flushed w total s (some e) = (err e, s.file)
flushed w total s none =
    if is_short total s.written
    then (err (ascii "the download stopped"), w.remove_file s.file)
    else (ok (hex_encode (w.sha256 s.hasher)), s.file)

unfoldable pub finish :
    Outside → Option ℕ → Option Text × Progress → Result Text Text × Option (List ℕ)
unfolding flushed
finish w total (some e, s) = (err e, s.file)
finish w total (none, s) = flushed w total s w.flush_error

-- After `File::create`.
unfoldable pub created :
    Outside
    → ℕ
    → Option ℕ
    → Response
    → Option (List ℕ)
    → Option Text
    → Result Text Text × Option (List ℕ)
unfolding finish read_loop
created w limit total response file (some e) = (err e, file)
created w limit total response file none = finish w total (
    read_loop w total limit response.reads
      (record { file = some []; hasher = []; written = 0; last_reported = 255; shown = [] }))

-- After `open`.
unfoldable pub opened :
    Outside → Option (List ℕ) → ℕ → ℕ → Result Text Response → Result Text Text × Option (List ℕ)
unfolding created total_of is_above
opened w file expected_size limit (err e) = (err e, file)
opened w file expected_size limit (ok response) =
    let total = total_of response.declared_length expected_size in
    if is_above total limit
    then (err (ascii "the download claims more than the limit"), file)
    else created w limit total response file w.create_error

-- `http::download` of a URL over what is left of the target file: the digest, and the file.
unfoldable pub download :
    Outside → Text → Option (List ℕ) → ℕ → ℕ → Result Text Text × Option (List ℕ)
unfolding opened
download w url file expected_size limit = opened w file expected_size limit (w.open_url url)

unfoldable pub to_ascii_lowercase : Text → Text
unfolding within
to_ascii_lowercase text = map (λ c. if within b'A' b'Z' c then c + 32 else c) text

unfoldable pub eq_ignore_ascii_case : Text → Text → Bool
unfolding to_ascii_lowercase
eq_ignore_ascii_case a b = text_eq (to_ascii_lowercase a) (to_ascii_lowercase b)

-- What an attempt comes to: whether the installer runs, and the file it was started from.
pub record Attempt : Type 0 where
  pub result : Result Text (Unit {0})
  pub file : Option (List ℕ)
  pub started : Bool

unfoldable pub launch_installer : Option Text → Option (List ℕ) → Attempt
launch_installer (some e) file = record { result = err e; file = file; started = false }
launch_installer none file = record { result = ok tt; file = file; started = true }

unfoldable pub verify : Outside → Artifact → Result Text Text × Option (List ℕ) → Attempt
unfolding launch_installer eq_ignore_ascii_case
verify w artifact (err e, file) = record { result = err e; file = file; started = false }
verify w artifact (ok digest, file) =
    if not (eq_ignore_ascii_case digest artifact.sha256)
    then record {
      result = err (ascii "the download does not match the manifest digest");
      file = w.remove_file file;
      started = false;
    }
    else launch_installer w.spawn_error file

-- `download_and_launch` over what an earlier attempt has left in the target file.
unfoldable pub download_and_launch : Outside → Artifact → Option (List ℕ) → Attempt
unfolding verify download
download_and_launch w artifact leftover =
    verify w artifact
      (download w artifact.url (w.remove_file leftover) artifact.size max_installer_bytes)
