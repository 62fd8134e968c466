-- ===== src/Downloads/Task/Resumed.antt =====
-- What a resumed download installs (model/download.rs, `download_task`).
use mathlib.Core.List.{append_assoc, append-nil}
use app_cortex_stt.Common.{
  ℕ, ◌≡◌, refl, sym, ap, subst, ◌∙◌, Bool, true, false, ◌&&◌, List, [], ◌∷◌, ◌++◌, map, none, some,
  Text, ltb, ◌==◌, length, text_eq, text_eq_refl, if◌then◌else◌, by_if, arith, take, drop,
  take-append-drop,
}
use app_cortex_stt.Errors.{Result, ok}
use app_cortex_stt.Catalog.{to_lower}
use app_cortex_stt.Downloads.Task.{
  DownloadOutcome, completed, Chunk, bytes, Reply, Ending, Request, Disk, content, is_success,
  transfer, is_verified, install, verify, finish, receive, download_task,
}

-- Chunks that arrive and are written, with no cancel.
abbrev pub pieces : List Text → List Chunk
pieces ps = map (λ p. bytes p false true false) ps

unfoldable pub joined : List Text → Text
joined [] = []
joined (p ∷ ps) = p ++ joined ps

abbrev pub reply_of : ℕ → List Text → Reply
reply_of status ps = record { status = status; chunks = pieces ps; removes = true }

-- Nothing fails and nothing is cancelled.
abbrev pub well : Ending
well = record {
  flushes = true;
  cancelled_at_end = false;
  cancelled_at_verify = false;
  hashes = true;
  removes = true;
  commits = true;
  renames = true;
  writes_sidecar = true;
}

abbrev pub installed : Request → Text → Disk
installed req file = record {
  part = none;
  dest = some file;
  vouched = if is_verified req then some (map to_lower req.expected_sha256) else none;
}

transfer-pieces :
    (req : Request) (ps : List Text) (file : Text)
    → transfer req (pieces ps) file ≡ (file ++ joined ps, none)
unfolding transfer joined
transfer-pieces req [] file = ap (λ f. (f, none)) (sym (append-nil file))
transfer-pieces req (p ∷ ps) file =
    transfer-pieces req ps (file ++ p) ∙ ap (λ f. (f, none)) (append_assoc file p (joined ps))

module _ (sha256 : Text → Text) (req : Request) where
  finish-well :
      (file : Text) (d : Disk)
      → (is_verified req ≡ true → sha256 file ≡ req.expected_sha256)
      → finish sha256 req well file d ≡ (installed req file, ok completed)
  unfolding finish verify install
  finish-well file d v =
      by_if (λ out. out ≡ (installed req file, ok completed)) (is_verified req) _ _
        (λ h.
          by_if (λ out. out ≡ (installed req file, ok completed))
            (text_eq (sha256 file) req.expected_sha256) _ _ (λ e. refl)
            (λ f.
              cc (
                f,
                ap (λ t. text_eq t req.expected_sha256) (v h),
                text_eq_refl req.expected_sha256,
              )))
        (λ u. refl)

  receive-well :
      (status : ℕ) (ps : List Text) (d : Disk)
      → (is_verified req ≡ true → sha256 (content d.part ++ joined ps) ≡ req.expected_sha256)
      → receive sha256 req well (reply_of status ps) d
        ≡ (installed req (content d.part ++ joined ps), ok completed)
  unfolding receive
  receive-well status ps d v =
      subst
        (λ x.
          elim x.1 as (λ _. Disk × Result DownloadOutcome) [
            | none ↦ finish sha256 req well x.0 (record d { part = some x.0 })
            | some r ↦ (record d { part = some x.0 }, r)
          ]
          ≡ (installed req (content d.part ++ joined ps), ok completed))
        (sym (transfer-pieces req ps (content d.part)))
        (finish-well (content d.part ++ joined ps)
          (record d { part = some (content d.part ++ joined ps) }) v)

  not_416 : (status : ℕ) (b : Bool) → is_success status ≡ true → ¬ ((status == 416 && b) ≡ true)
  not_416 status b s u = ground (arith, s, u)

  download_task-well :
      (status : ℕ) (ps : List Text) (replies : List Reply) (d : Disk)
      → is_success status ≡ true
      → (is_verified req ≡ true → sha256 (content d.part ++ joined ps) ≡ req.expected_sha256)
      → download_task sha256 req well (reply_of status ps ∷ replies) d
        ≡ (installed req (content d.part ++ joined ps), ok completed)
  unfolding download_task
  download_task-well status ps [] d s v =
      by_if (λ out. out ≡ (installed req (content d.part ++ joined ps), ok completed))
        (status == 416 && ltb 0 (length (content d.part))) _ _ (λ u. absurd (not_416 status _ s u))
        (λ n.
          by_if (λ out. out ≡ (installed req (content d.part ++ joined ps), ok completed))
            (is_success status) _ _ (λ t. receive-well status ps d v) (λ f. cc (f, s)))
  download_task-well status ps (again ∷ replies) d s v =
      by_if (λ out. out ≡ (installed req (content d.part ++ joined ps), ok completed))
        (status == 416 && ltb 0 (length (content d.part))) _ _ (λ u. absurd (not_416 status _ s u))
        (λ n.
          by_if (λ out. out ≡ (installed req (content d.part ++ joined ps), ok completed))
            (is_success status) _ _ (λ t. receive-well status ps d v) (λ f. cc (f, s)))

  -- A download that is resumed from an initial part of the file, with the rest in one partial reply
  -- and no failure or cancel, installs the whole file, if the file has the checksum that is
  -- expected of it.
  pub download_task-resumes :
      (whole : Text) (n : ℕ) (ps : List Text) (replies : List Reply) (d : Disk)
      → d.part ≡ some (take n whole)
      → joined ps ≡ drop n whole
      → (is_verified req ≡ true → sha256 whole ≡ req.expected_sha256)
      → download_task sha256 req well (reply_of 206 ps ∷ replies) d
        ≡ (installed req whole, ok completed)
  download_task-resumes whole n ps replies d h j v =
      download_task-well 206 ps replies d refl (λ e. ap sha256 is_whole ∙ v e)
      ∙ ap (λ f. (installed req f, ok completed)) is_whole
    where
      is_whole : content d.part ++ joined ps ≡ whole
      is_whole =
          ap (λ p. content p ++ joined ps) h
          ∙ ap (λ l. take n whole ++ l) j
          ∙ take-append-drop n whole

  -- A server that ignores the range and sends the whole file with a status of 200 has it appended to
  -- the part that is there: without a verification, a file of both is installed as complete.
  pub download_task-appends :
      (part whole : Text) (ps : List Text) (replies : List Reply) (d : Disk)
      → d.part ≡ some part
      → joined ps ≡ whole
      → is_verified req ≡ false
      → download_task sha256 req well (reply_of 200 ps ∷ replies) d
        ≡ (installed req (part ++ whole), ok completed)
  download_task-appends part whole ps replies d h j u =
      download_task-well 200 ps replies d refl (λ e. cc (u, e))
      ∙ ap (λ f. (installed req f, ok completed))
          (ap (λ p. content p ++ joined ps) h ∙ ap (λ l. part ++ l) j)
