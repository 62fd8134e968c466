-- ===== src/Downloads/Task/Tests.antt =====
-- Downloads at concrete replies (model/download.rs).
use app_cortex_stt.Common.{
  ◌≡◌, ◌≢◌, refl, true, false, [], ◌∷◌, ◌++◌, none, some, Text, codes, length, drop, text_key,
}
use app_cortex_stt.Errors.{ok, err, download_failed}
use app_cortex_stt.Downloads.Task.{completed, Request, Disk, download_task}
use app_cortex_stt.Downloads.Task.Installed.{Installs, download_task-Installs}
use app_cortex_stt.Downloads.Task.Resumed.{
  reply_of, well, installed, joined, download_task-resumes, download_task-appends,
}

program : Unit {0}
unfolding download_task joined text_key
program = tt

-- A checksum that is the length.
abbrev sum : Text → Text
sum file = length file ∷ []

abbrev file : Text
file = 7 ∷ 8 ∷ 9 ∷ []

abbrev request : Request
request = record { model_id = codes "w:q5"; expected_sha256 = 3 ∷ []; verify_sha256 = true }

abbrev unverified : Request
unverified = record request { verify_sha256 = false }

abbrev half : Disk
half = record { part = some (7 ∷ []); dest = none; vouched = none }

-- A mismatch removes the file.
mismatch :
    download_task sum request well (reply_of 200 (file ∷ []) ∷ []) half
    ≡ (record half { part = none }, err (download_failed (codes "w:q5") (codes "SHA-256 mismatch")))
unfolding program
mismatch = refl

-- A part that is complete is fetched again by a third request.
fetched_again :
    download_task sum request well
      (reply_of 416 [] ∷ reply_of 200 [] ∷ reply_of 200 (file ∷ []) ∷ [])
      (record half { part = some file })
    ≡ (installed request file, ok completed)
unfolding program
fetched_again = refl

download_task-Installs_example :
    let out = download_task sum request well (reply_of 206 ((8 ∷ []) ∷ (9 ∷ []) ∷ []) ∷ []) half in
    (out.1 ≡ ok completed → Installs sum request well out.0)
    × (out.1 ≢ ok completed → (out.0.dest ≡ half.dest) × (out.0.vouched ≡ half.vouched))
download_task-Installs_example =
    download_task-Installs sum request well (reply_of 206 ((8 ∷ []) ∷ (9 ∷ []) ∷ []) ∷ []) half

rest_of_file : joined ((8 ∷ []) ∷ (9 ∷ []) ∷ []) ≡ drop 1 file
unfolding program
rest_of_file = refl

download_task-resumes_example :
    download_task sum request well (reply_of 206 ((8 ∷ []) ∷ (9 ∷ []) ∷ []) ∷ []) half
    ≡ (installed request file, ok completed)
download_task-resumes_example =
    download_task-resumes sum request file 1 ((8 ∷ []) ∷ (9 ∷ []) ∷ []) [] half refl rest_of_file
      (λ v. refl)

whole_file : joined (file ∷ []) ≡ file
unfolding program
whole_file = refl

download_task-appends_example :
    download_task sum unverified well (reply_of 200 (file ∷ []) ∷ []) half
    ≡ (installed unverified ((7 ∷ []) ++ file), ok completed)
download_task-appends_example =
    download_task-appends sum unverified (7 ∷ []) file (file ∷ []) [] half refl whole_file refl
