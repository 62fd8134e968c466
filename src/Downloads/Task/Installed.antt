-- ===== src/Downloads/Task/Installed.antt =====
-- What a task that completes has installed, and one that does not has left (model/download.rs).
use app_cortex_stt.Common.{
  ◌≡◌, ◌≢◌, refl, Bool, true, false, ◌&&◌, not, List, [], ◌∷◌, ◌++◌, map, Option, none, some, Text,
  ltb, ◌==◌, length, text_eq, text_eq-true, if◌then◌else◌, by_if, arith,
}
use app_cortex_stt.Errors.{AsrError, Result, ok, err}
use app_cortex_stt.Catalog.{to_lower}
use app_cortex_stt.Downloads.Task.{
  DownloadOutcome, completed, cancelled, Chunk, bytes, stream_error, Reply, Ending, Request, Disk,
  content, is_success, remove_part, transfer, is_verified, install, verify, finish, receive,
  download_task,
}

-- A file that is verified has the checksum that is expected, and the sidecar, if it is written,
-- vouches for no other.
pub record Installs (sha256 : Text → Text) (req : Request) (end : Ending) (d : Disk) : Type 0 where
  pub file : Text
  pub dest : d.dest ≡ some file
  pub part : d.part ≡ none
  pub commits : end.commits ≡ true
  pub verified : is_verified req ≡ true → sha256 file ≡ req.expected_sha256
  pub vouched :
      end.writes_sidecar ≡ true
      → d.vouched ≡ (if is_verified req then some (map to_lower req.expected_sha256) else none)

-- The task installs or leaves the installed file and its sidecar.
pub record Ends (sha256 : Text → Text) (req : Request) (end : Ending) (d : Disk)
    (out : Disk × Result DownloadOutcome) : Type 0 where
  pub installs : out.1 ≡ ok completed → Installs sha256 req end out.0
  pub leaves : out.1 ≢ ok completed → (out.0.dest ≡ d.dest) × (out.0.vouched ≡ d.vouched)

module _ (sha256 : Text → Text) (req : Request) (end : Ending) where
  -- A task that stops with what is installed unchanged.
  stops :
      (d t : Disk) (r : Result DownloadOutcome)
      → r ≢ ok completed
      → t.dest ≡ d.dest
      → t.vouched ≡ d.vouched
      → Ends sha256 req end d (t, r)
  stops d t r n e v = record { installs = λ h. absurd (n h); leaves = λ h. (e, v) }

  removed :
      (removes : Bool) (d : Disk) (r : Result DownloadOutcome)
      → r ≢ ok completed
      → Ends sha256 req end d (remove_part removes d, r)
  removed true d r n = stops d _ r n refl refl
  removed false d r n = stops d _ r n refl refl

  not_cancelled : ok cancelled ≢ ok completed
  not_cancelled e = ground (arith, e)

  not_failed : (e : AsrError) → err e ≢ ok completed
  not_failed e h = ground (arith, h)

  install-Ends :
      (file : Text) (d : Disk)
      → (is_verified req ≡ true → sha256 file ≡ req.expected_sha256)
      → Ends sha256 req end d (install req end file d)
  unfolding install
  install-Ends file d v =
      by_if (Ends sha256 req end d) end.commits _ _
        (λ c.
          by_if (Ends sha256 req end d) end.renames _ _
            (λ r. record {
              installs = λ h. record {
                file = file;
                dest = refl;
                part = refl;
                commits = c;
                verified = v;
                vouched = λ w. rw w refl;
              };
              leaves = λ h. absurd (h refl);
            })
            (λ f. stops d d _ (not_failed _) refl refl))
        (λ f. stops d d _ not_cancelled refl refl)

  verify-Ends : (file : Text) (d : Disk) → Ends sha256 req end d (verify sha256 req end file d)
  unfolding verify
  verify-Ends file d =
      by_if (Ends sha256 req end d) (is_verified req) _ _
        (λ v.
          by_if (Ends sha256 req end d) end.cancelled_at_verify _ _
            (λ c. stops d d _ not_cancelled refl refl)
            (λ n.
              by_if (Ends sha256 req end d) (not end.hashes) _ _
                (λ h. stops d d _ (not_failed _) refl refl)
                (λ h.
                  by_if (Ends sha256 req end d) (text_eq (sha256 file) req.expected_sha256) _ _
                    (λ e. install-Ends file d (λ h'. text_eq-true _ _ e))
                    (λ f. removed end.removes d _ (not_failed _)))))
        (λ u. install-Ends file d (λ v. cc (u, v)))

  finish-Ends : (file : Text) (d : Disk) → Ends sha256 req end d (finish sha256 req end file d)
  unfolding finish
  finish-Ends file d =
      by_if (Ends sha256 req end d) (not end.flushes) _ _
        (λ f. stops d d _ (not_failed _) refl refl)
        (λ f.
          by_if (Ends sha256 req end d) end.cancelled_at_end _ _
            (λ c. stops d d _ not_cancelled refl refl) (λ n. verify-Ends file d))

  -- A stream that stops the task does not complete it.
  transfer-stops :
      (chunks : List Chunk) (file : Text) (r : Result DownloadOutcome)
      → (transfer req chunks file).1 ≡ some r
      → r ≢ ok completed
  unfolding transfer
  transfer-stops [] file r h = cc h
  transfer-stops (stream_error true ∷ chunks) file r h = λ e. ground (arith, h, e)
  transfer-stops (stream_error false ∷ chunks) file r h = λ e. ground (arith, h, e)
  transfer-stops (bytes piece true w a ∷ chunks) file r h = λ e. ground (arith, h, e)
  transfer-stops (bytes piece false false a ∷ chunks) file r h = λ e. ground (arith, h, e)
  transfer-stops (bytes piece false true true ∷ chunks) file r h = λ e. ground (arith, h, e)
  transfer-stops (bytes piece false true false ∷ chunks) file r h =
      transfer-stops chunks (file ++ piece) r h

  receive-Ends : (reply : Reply) (d : Disk) → Ends sha256 req end d (receive sha256 req end reply d)
  unfolding receive
  receive-Ends reply d = by_stop (transfer req reply.chunks (content d.part)).1 refl
    where
      t : Disk
      t = record d { part = some (transfer req reply.chunks (content d.part)).0 }

      by_stop :
          (o : Option (Result DownloadOutcome))
          → (transfer req reply.chunks (content d.part)).1 ≡ o
          → Ends sha256 req end d (elim o as (λ _. Disk × Result DownloadOutcome) [
            | none ↦ finish sha256 req end (transfer req reply.chunks (content d.part)).0 t
            | some r ↦ (t, r)
          ])
      by_stop none e =
          let f = finish-Ends (transfer req reply.chunks (content d.part)).0 t in
          record { installs = f.installs; leaves = f.leaves }
      by_stop (some r) e = stops d t r (transfer-stops reply.chunks (content d.part) r e) refl refl

  again-Ends :
      (removes : Bool) (d : Disk) (out : Disk × Result DownloadOutcome)
      → Ends sha256 req end (remove_part removes d) out
      → Ends sha256 req end d out
  again-Ends true d out e = record { installs = e.installs; leaves = e.leaves }
  again-Ends false d out e = e

  download_task-Ends :
      (replies : List Reply) (d : Disk)
      → Ends sha256 req end d (download_task sha256 req end replies d)
  unfolding download_task
  download_task-Ends [] d = stops d d _ (not_failed _) refl refl
  download_task-Ends (reply ∷ []) d =
      by_if (Ends sha256 req end d) (reply.status == 416 && ltb 0 (length (content d.part))) _ _
        (λ u. removed reply.removes d _ (not_failed _))
        (λ n.
          by_if (Ends sha256 req end d) (is_success reply.status) _ _ (λ s. receive-Ends reply d)
            (λ f. stops d d _ (not_failed _) refl refl))
  download_task-Ends (reply ∷ again ∷ replies) d =
      by_if (Ends sha256 req end d) (reply.status == 416 && ltb 0 (length (content d.part))) _ _
        (λ u.
          by_if (Ends sha256 req end d) (is_success again.status) _ _
            (λ s.
              again-Ends reply.removes d _
                (download_task-Ends replies (remove_part reply.removes d)))
            (λ f. removed reply.removes d _ (not_failed _)))
        (λ n.
          by_if (Ends sha256 req end d) (is_success reply.status) _ _ (λ s. receive-Ends reply d)
            (λ f. stops d d _ (not_failed _) refl refl))

  -- A task that completes has committed, its file is installed and no partial one is left; a
  -- verified file has the checksum that is expected, and the sidecar, if it is written, vouches for
  -- it, or for nothing without a verification. A task that ends otherwise leaves the installed
  -- file and its sidecar as they were.
  pub download_task-Installs :
      (replies : List Reply) (d : Disk)
      → let out = download_task sha256 req end replies d in
        (out.1 ≡ ok completed → Installs sha256 req end out.0)
        × (out.1 ≢ ok completed → (out.0.dest ≡ d.dest) × (out.0.vouched ≡ d.vouched))
  download_task-Installs replies d = let e = download_task-Ends replies d in (e.installs, e.leaves)
