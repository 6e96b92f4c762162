-- ===== src/Update/Download/Verified.antt =====
-- update.rs, `download_and_launch`: what the installer that is started has been checked for.
use remote_input_bridge.Base.{ℕ, ◌+◌, ◌≤◌, ◌≡◌, refl, sym, ◌∙◌, not, List, ◌∷◌, [], ◌++◌, Option}
use remote_input_bridge.Base.{none, some, true, false, arith, length, ap, if-either, ltb}
use remote_input_bridge.Base.{length-append}
use remote_input_bridge.Base.Text.{ascii, text_eq→eq}
use remote_input_bridge.Frame.{Result, ok, err}
use remote_input_bridge.Crypto.{hex_encode}
use remote_input_bridge.Update.{Text, Artifact}
use remote_input_bridge.Update.Download.{Chunk, Response, Outside, Progress, append_file, report}
use remote_input_bridge.Update.Download.{take_chunk, go_on, read_loop, write_all, finish}
use remote_input_bridge.Update.Download.{download, to_ascii_lowercase, eq_ignore_ascii_case}
use remote_input_bridge.Update.Download.{launch_installer, verify, download_and_launch, is_short}
use remote_input_bridge.Update.Download.{is_above, total_of, flushed, created, opened}
use remote_input_bridge.Update.Download.{max_installer_bytes, Attempt}

-- The file holds the bytes that were hashed, all of them counted, within the limit.
record IsHashed (limit : ℕ) (s : Progress) : Type 0 where
  stored : s.file ≡ some s.hasher
  counted : s.written ≡ length s.hasher
  within_limit : s.written ≤ limit

-- That an outcome which is no error leaves the file as it was hashed.
GoesWell : ℕ → Option Text × Progress → Type 0
GoesWell limit r = r.0 ≡ none → IsHashed limit r.1

failed-GoesWell : (limit : ℕ) (e : Text) (s : Progress) → GoesWell limit (some e, s)
unfolding GoesWell
failed-GoesWell limit e s = λ no_error. cc

ended-GoesWell : (limit : ℕ) (s : Progress) → IsHashed limit s → GoesWell limit (none, s)
unfolding GoesWell
ended-GoesWell limit s h = λ no_error. h

go_on-GoesWell :
    (limit : ℕ) (r : Option Text × Progress) (next : Progress → Option Text × Progress)
    → GoesWell limit r
    → ((s : Progress) → IsHashed limit s → GoesWell limit (next s))
    → GoesWell limit (go_on r next)
unfolding go_on GoesWell
go_on-GoesWell limit (none, s) next h k = k s (h refl)
go_on-GoesWell limit (some e, s) next h k = λ no_error. cc

report-IsHashed :
    (limit : ℕ) (o : Option ℕ) (s : Progress) → IsHashed limit s → IsHashed limit (report o s)
unfolding report
report-IsHashed limit none s h = h
report-IsHashed limit (some n) s h = record {
  stored = ground (arith, h.stored);
  counted = ground (arith, h.counted);
  within_limit = ground (arith, h.within_limit);
}

write_all-GoesWell :
    (limit : ℕ) (failed_at : Option ℕ) (bytes : List ℕ) (s : Progress)
    → IsHashed limit s
    → s.written + length bytes ≤ limit
    → GoesWell limit (
        write_all failed_at bytes
          (record s { written = s.written + length bytes; hasher = s.hasher ++ bytes }))
unfolding write_all append_file GoesWell
write_all-GoesWell limit none bytes s h below = λ no_error. record {
  stored = ap (λ file. append_file file bytes) h.stored;
  counted = omega (arith, h.counted, length-append s.hasher bytes);
  within_limit = below;
}
write_all-GoesWell limit (some n) bytes s h below = λ no_error. cc

module _ (w : Outside) (limit : ℕ) where
  take_chunk-GoesWell :
      (c : Chunk) (s : Progress) → IsHashed limit s → GoesWell limit (take_chunk w limit c s)
  unfolding take_chunk
  take_chunk-GoesWell c s h =
      if-either (GoesWell limit) (ltb limit (s.written + length c.bytes)) _ _
        (λ above. failed-GoesWell limit _ _)
        (λ below. write_all-GoesWell limit c.failed_at c.bytes s h (ground arith))

  read_loop-GoesWell :
      (total : Option ℕ) (reads : List (Result Text Chunk)) (s : Progress)
      → IsHashed limit s
      → GoesWell limit (read_loop w total limit reads s)
  unfolding read_loop
  read_loop-GoesWell total [] s h = ended-GoesWell limit s h
  read_loop-GoesWell total (err x ∷ rest) s h = failed-GoesWell limit x s
  read_loop-GoesWell total (ok c ∷ rest) s h =
      if-either (GoesWell limit) _ _ _ (λ ended. ended-GoesWell limit s h)
        (λ more.
          go_on-GoesWell limit _ _ (take_chunk-GoesWell c s h)
            λ after good. read_loop-GoesWell total rest _ (report-IsHashed limit total after good))

-- The file that was received whole: its bytes are the ones whose digest was taken, and it is not
-- above the limit.
pub record IsReceived (w : Outside) (limit : ℕ) (digest : Text) (file : Option (List ℕ))
    : Type 0 where
  pub content : List ℕ
  pub stored : file ≡ some content
  pub hashed : digest ≡ hex_encode (w.sha256 content)
  pub within_limit : length content ≤ limit

-- That an answer which is a digest comes with the file it is the digest of.
IsSound : Outside → ℕ → Result Text Text × Option (List ℕ) → Type 0
IsSound w limit r = (digest : Text) → r.0 ≡ ok digest → IsReceived w limit digest r.1

module _ (w : Outside) (limit : ℕ) where
  failed-IsSound : (e : Text) (file : Option (List ℕ)) → IsSound w limit (err e, file)
  unfolding IsSound
  failed-IsSound e file = λ digest h. cc

  hashed-IsSound :
      (s : Progress)
      → IsHashed limit s
      → IsSound w limit (ok (hex_encode (w.sha256 s.hasher)), s.file)
  unfolding IsSound
  hashed-IsSound s good = λ digest h. record {
    content = s.hasher;
    stored = good.stored;
    hashed = cc;
    within_limit = omega (arith, good.counted, good.within_limit);
  }

  finish-IsSound :
      (total : Option ℕ) (r : Option Text × Progress)
      → GoesWell limit r
      → IsSound w limit (finish w total r)
  unfolding finish flushed GoesWell
  finish-IsSound total (some e, s) h = failed-IsSound e s.file
  finish-IsSound total (none, s) h =
      elim w.flush_error as (λ o. IsSound w limit (flushed w total s o)) [
        | some e ↦ failed-IsSound e s.file
        | none ↦
            if-either (IsSound w limit) (is_short total s.written) _ _
              (λ short. failed-IsSound (ascii "the download stopped") (w.remove_file s.file))
              (λ full. hashed-IsSound s (h refl))
      ]

  created-IsSound :
      (total : Option ℕ) (response : Response) (file : Option (List ℕ)) (failure : Option Text)
      → IsSound w limit (created w limit total response file failure)
  unfolding created
  created-IsSound total response file (some e) = failed-IsSound e file
  created-IsSound total response file none = finish-IsSound total _ (
      read_loop-GoesWell w limit total response.reads _
        (record { stored = refl; counted = refl; within_limit = omega arith }))

  download-IsSound :
      (url : Text) (file : Option (List ℕ)) (expected : ℕ)
      → IsSound w limit (download w url file expected limit)
  unfolding download opened
  download-IsSound url file expected =
      elim (w.open_url url) as (λ r. IsSound w limit (opened w file expected limit r)) [
        | err e ↦ failed-IsSound e file
        | ok response ↦
            let total = total_of response.declared_length expected in
            if-either (IsSound w limit) (is_above total limit) _ _
              (λ above. failed-IsSound (ascii "the download claims more than the limit") file)
              (λ below. created-IsSound total response file w.create_error)
      ]

-- What the program knows of the file of an installer that runs.
pub record IsVerified (w : Outside) (artifact : Artifact) (file : Option (List ℕ)) : Type 0 where
  pub content : List ℕ
  pub stored : file ≡ some content
  pub matches :
      to_ascii_lowercase (hex_encode (w.sha256 content)) ≡ to_ascii_lowercase artifact.sha256
  pub within_limit : length content ≤ max_installer_bytes

launch_installer-file :
    (failure : Option Text) (file : Option (List ℕ)) → (launch_installer failure file).file ≡ file
unfolding launch_installer
launch_installer-file (some e) file = refl
launch_installer-file none file = refl

digests_match :
    (a b : Text)
    → not (eq_ignore_ascii_case a b) ≡ false
    → to_ascii_lowercase a ≡ to_ascii_lowercase b
unfolding eq_ignore_ascii_case
digests_match a b h = text_eq→eq (to_ascii_lowercase a) (to_ascii_lowercase b) (ground (arith, h))

verify-IsVerified :
    (w : Outside) (artifact : Artifact) (r : Result Text Text × Option (List ℕ))
    → IsSound w max_installer_bytes r
    → (verify w artifact r).started ≡ true
    → IsVerified w artifact (verify w artifact r).file
unfolding verify IsSound
verify-IsVerified w artifact (err e, file) sound h = cc
verify-IsVerified w artifact (ok digest, file) sound h =
    if-either (λ (a : Attempt). a.started ≡ true → IsVerified w artifact a.file)
      (not (eq_ignore_ascii_case digest artifact.sha256)) _ _ (λ differs started. cc)
      (λ equal started.
        let got = sound digest refl in
        record {
          content = got.content;
          stored = launch_installer-file w.spawn_error file ∙ got.stored;
          matches =
              ap to_ascii_lowercase (sym got.hashed) ∙ digests_match digest artifact.sha256 equal;
          within_limit = got.within_limit;
        })
      h

-- Whatever the server sends and whatever a call reports, an installer is started only from a file
-- of at most 128 MiB whose SHA-256 is the one of the artifact, up to the case of the digits.
pub download_and_launch-IsVerified :
    (w : Outside) (artifact : Artifact) (leftover : Option (List ℕ))
    → (download_and_launch w artifact leftover).started ≡ true
    → IsVerified w artifact (download_and_launch w artifact leftover).file
unfolding download_and_launch
download_and_launch-IsVerified w artifact leftover =
    verify-IsVerified w artifact _
      (download-IsSound w max_installer_bytes artifact.url _ artifact.size)
