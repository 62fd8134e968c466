-- ===== src/Downloads/Task.antt =====
-- The task of one download (cortex-stt/src/model/download.rs, `download_task`): the resumption of
-- a `.part` file, the transfer, the verification and the installation. The server's replies, what
-- the file system does and what the cancel token says at each check are arguments.
mod Installed
mod Resumed
mod Tests
use app_cortex_stt.Common.{
  ℕ, Bool, true, false, ◌&&◌, not, List, [], ◌∷◌, ◌++◌, map, Option, none, some, Text, codes, ltb,
  leb, ◌==◌, is_empty, length, text_eq, if◌then◌else◌,
}
use app_cortex_stt.Errors.{AsrError, download_failed, io, Result, ok, err}
use app_cortex_stt.Catalog.{to_lower}

pub data DownloadOutcome : Type 0 where
  completed : DownloadOutcome
  cancelled : DownloadOutcome

-- What the stream gives next: bytes, with the token before they are written and after, and whether
-- they can be written, or an error of the stream.
pub data Chunk : Type 0 where
  bytes : Text → Bool → Bool → Bool → Chunk
  stream_error : Bool → Chunk

-- A reply to a request, and whether the `.part` file can be removed after it.
pub record Reply : Type 0 where
  pub status : ℕ
  pub chunks : List Chunk
  pub removes : Bool

-- What happens once the stream ends: the token at its end, before the verification and at the
-- commit, and what the file system does.
pub record Ending : Type 0 where
  pub flushes : Bool
  pub cancelled_at_end : Bool
  pub cancelled_at_verify : Bool
  pub hashes : Bool
  pub removes : Bool
  pub commits : Bool
  pub renames : Bool
  pub writes_sidecar : Bool

-- The request: the model, the checksum that the file is to have, and whether it is verified.
pub record Request : Type 0 where
  pub model_id : Text
  pub expected_sha256 : Text
  pub verify_sha256 : Bool

-- The `.part` file, the installed file and the checksum that its sidecar vouches for.
pub record Disk : Type 0 where
  pub part : Option Text
  pub dest : Option Text
  pub vouched : Option Text

abbrev pub content : Option Text → Text
content none = []
content (some file) = file

abbrev pub is_success : ℕ → Bool
is_success status = leb 200 status && ltb status 300

abbrev pub remove_part : Bool → Disk → Disk
remove_part removes d = if removes then record d { part = none } else d

-- The file after the stream, and why the task stops there, if it does.
unfoldable pub transfer : Request → List Chunk → Text → Text × Option (Result DownloadOutcome)
transfer req [] file = (file, none)
transfer req (stream_error seen ∷ chunks) file =
    if seen
    then (file, some (ok cancelled))
    else (file, some (err (download_failed req.model_id (codes "stream error"))))
transfer req (bytes piece before writes after ∷ chunks) file =
    let rest = transfer req chunks (file ++ piece) in
    if before
    then (file, some (ok cancelled))
    else if not writes
    then (file, some (err (io [])))
    else if after
    then (file ++ piece, some (ok cancelled))
    else rest

abbrev pub is_verified : Request → Bool
is_verified req = req.verify_sha256 && not (is_empty req.expected_sha256)

-- The end of the task from its commit on.
unfoldable pub install : Request → Ending → Text → Disk → Disk × Result DownloadOutcome
install req end file d =
    if end.commits
    then (if end.renames
        then (
          record {
            part = none;
            dest = some file;
            vouched =
                if end.writes_sidecar
                then (if is_verified req then some (map to_lower req.expected_sha256) else none)
                else d.vouched;
          },
          ok completed,
        )
        else (d, err (io [])))
    else (d, ok cancelled)

-- `sha256` is the checksum of a file.
module _ (sha256 : Text → Text) where
  unfoldable pub verify : Request → Ending → Text → Disk → Disk × Result DownloadOutcome
  unfolding install
  verify req end file d =
      if is_verified req
      then (if end.cancelled_at_verify
          then (d, ok cancelled)
          else if not end.hashes
          then (d, err (io []))
          else if text_eq (sha256 file) req.expected_sha256
          then install req end file d
          else (
            remove_part end.removes d,
            err (download_failed req.model_id (codes "SHA-256 mismatch")),
          ))
      else install req end file d

  unfoldable pub finish : Request → Ending → Text → Disk → Disk × Result DownloadOutcome
  unfolding verify
  finish req end file d =
      if not end.flushes
      then (d, err (io []))
      else if end.cancelled_at_end
      then (d, ok cancelled)
      else verify req end file d

  -- The body of a reply is appended to the `.part` file.
  unfoldable pub receive : Request → Ending → Reply → Disk → Disk × Result DownloadOutcome
  unfolding transfer finish
  receive req end reply d =
      let (file, stops) = transfer req reply.chunks (content d.part) in
      let t = record d { part = some file } in
      elim stops [ none ↦ finish req end file t | some r ↦ (t, r) ]

  -- The replies come in their order; a request to which none is left fails.
  unfoldable pub download_task :
      Request → Ending → List Reply → Disk → Disk × Result DownloadOutcome
  unfolding receive
  download_task req end [] d = (d, err (download_failed req.model_id (codes "HTTP request failed")))
  download_task req end (reply ∷ []) d =
      if reply.status == 416 && ltb 0 (length (content d.part))
      then (
        remove_part reply.removes d,
        err (download_failed req.model_id (codes "HTTP retry failed")),
      )
      else if is_success reply.status
      then receive req end reply d
      else (d, err (download_failed req.model_id (codes "HTTP")))
  download_task req end (reply ∷ again ∷ replies) d =
      let rest = download_task req end replies (remove_part reply.removes d) in
      if reply.status == 416 && ltb 0 (length (content d.part))
      then (if is_success again.status
          then rest
          else (remove_part reply.removes d, err (download_failed req.model_id (codes "HTTP"))))
      else if is_success reply.status
      then receive req end reply d
      else (d, err (download_failed req.model_id (codes "HTTP")))
