-- ===== src/Downloads/Manager.antt =====
-- The download manager around its queue (download_manager.rs), and the progress board
-- (model/progress.rs). `cancel` is given in the phases between which its locks are released.
use app_cortex_stt.Common.{
  ℕ, Bool, true, false, List, [], ◌∷◌, Option, none, some, Text, KeyMap, lookup, insert, remove,
  if◌then◌else◌, is_some, ite, text_key, ℕ_discrete,
}
use app_cortex_stt.Variants.{VariantKey, as_key}
use app_cortex_stt.Downloads.{
  TokenState, running, token_cancel, token_commit, DownloadPhase, queued, downloading, verifying,
  completed, failed, DownloadProgress, progress_key, Request, DownloadQueue, ClaimOutcome, claimed,
  parked, already_active, claim, finish, drop_pending,
}

abbrev pub Board : Type 0
Board = KeyMap Text DownloadProgress

unfoldable pub board_set : Board → DownloadProgress → Board
board_set b p = insert (as_key (progress_key p)) p b

unfoldable pub board_get : Board → VariantKey → Option DownloadProgress
board_get b v = lookup (as_key v) b

unfoldable pub board_remove : Board → VariantKey → Board
board_remove b v = remove (as_key v) b

unfoldable pub board_contains : Board → VariantKey → Bool
board_contains b v = is_some (lookup (as_key v) b)

-- `tokens` are the cancel tokens, shared with the tasks; `part_files` says which destinations
-- have a `.part` file on disk.
pub record Manager (P : Type 0) : Type 0 where
  pub queue : DownloadQueue P
  pub progress : Board
  pub tokens : ℕ → TokenState
  pub part_files : Text → Bool

unfoldable pub set_token : ℕ → TokenState → (ℕ → TokenState) → ℕ → TokenState
set_token t state tokens u = ite (ℕ_discrete u t) state (tokens u)

unfoldable pub remove_part : Text → (Text → Bool) → Text → Bool
remove_part path files q = ite (text_key.dec_eq q path) false (files q)

abbrev pub queued_progress : VariantKey → DownloadProgress
queued_progress v = record {
  model_id = v.model;
  quant = elim v.quant [ none ↦ [] | some q ↦ q ];
  status = queued;
  downloaded_bytes = 0;
  total_bytes = 0;
  error = none;
}

abbrev pub is_completed : DownloadPhase → Bool
is_completed completed = true
is_completed failed = false
is_completed queued = false
is_completed downloading = false
is_completed verifying = false

-- What the first phase of a cancel comes to: it is over, it knows no such download, or the
-- caller tears down the download to this destination.
pub data CancelStart : Type 0 where
  settled : CancelStart
  not_found : CancelStart
  teardown : Text → CancelStart

pub data CancelResult (P : Type 0) : Type 0 where
  cancelled_ok : Option (Request P) → CancelResult P
  model_not_found : CancelResult P

module _ {P : Type 0} where
  -- A manager that has just been made.
  unfoldable pub new : (Text → Bool) → Manager P
  new files = record {
    queue = record { pending = []; active = [] };
    progress = [];
    tokens = λ _. running;
    part_files = files;
  }

  unfoldable pub try_claim_slot : Manager P → Request P → Manager P × ClaimOutcome P
  unfolding claim board_set
  try_claim_slot m r =
      let (q, outcome) = claim m.queue r in
      (
        elim outcome [
          | claimed r' ↦ record m { queue = q }
          | parked ↦ record m {
            queue = q;
            progress = board_set m.progress (queued_progress r.variant);
          }
          | already_active ↦ m
        ],
        outcome,
      )

  -- Phase 1: classify and signal. The entry of an active download stays, as a barrier.
  unfoldable pub cancel_begin : Manager P → VariantKey → Manager P × CancelStart
  unfolding drop_pending token_cancel board_remove board_contains set_token
  cancel_begin m v = elim (drop_pending v m.queue.pending) [
    | some left ↦ (
      record m {
        queue = record { pending = left; active = m.queue.active };
        progress = board_remove m.progress v;
      },
      settled,
    )
    | none ↦ elim (lookup (as_key v) m.queue.active) [
      | some entry ↦
          let (state, won) = token_cancel (m.tokens entry.cancel_flag) in
          if won
          then (
            record m { tokens = set_token entry.cancel_flag state m.tokens },
            teardown entry.dest_path,
          )
          else (m, settled)
      | none ↦
          if board_contains m.progress v
          then (record m { progress = board_remove m.progress v }, settled)
          else (m, not_found)
    ]
  ]

  -- Phase 2: the side effects, while the entry still blocks a new download of the Variant.
  unfoldable pub cancel_clean : Manager P → VariantKey → Text → Manager P
  unfolding board_remove remove_part
  cancel_clean m v path = record m {
    progress = board_remove m.progress v;
    part_files = remove_part path m.part_files;
  }

  -- Phase 3, and every other release: free the slot and promote the next request.
  unfoldable pub release : Manager P → VariantKey → Manager P × Option (Request P)
  unfolding finish
  release m v = let (q, next) = finish m.queue v in (record m { queue = q }, next)

  -- The three phases, when nothing comes in between.
  unfoldable pub cancel : Manager P → VariantKey → Manager P × CancelResult P
  unfolding cancel_begin cancel_clean release
  cancel m v =
      let (m', start) = cancel_begin m v in
      elim start [
        | settled ↦ (m', cancelled_ok none)
        | not_found ↦ (m', model_not_found)
        | teardown path ↦
            let (m'', next) = release (cancel_clean m' v path) v in (m'', cancelled_ok next)
      ]

  -- The task claims the install, just before the rename.
  unfoldable pub commit : Manager P → ℕ → Manager P × Bool
  unfolding token_commit set_token
  commit m t =
      let (state, won) = token_commit (m.tokens t) in
      (record m { tokens = set_token t state m.tokens }, won)

  -- The completion tail up to the release of the slot: the terminal snapshot, the install (which
  -- the manager only calls), the release.
  unfoldable pub complete : Manager P → DownloadProgress → Manager P × Option (Request P)
  unfolding board_set release
  complete m terminal =
      release (record m { progress = board_set m.progress terminal }) (progress_key terminal)

  -- After the grace window: clears the snapshot if it is still this download's own Completed.
  unfoldable pub clear_completed : Manager P → VariantKey → Manager P
  unfolding board_get board_remove
  clear_completed m v = elim (board_get m.progress v) [
    | none ↦ m
    | some p ↦
        if is_completed p.status then record m { progress = board_remove m.progress v } else m
  ]

-- The critical sections, as the tasks and the requests interleave them. The source changes the
-- board just after it drops the queue's lock in a claim and in the first phase of a cancel; here
-- that is part of the step. Queue and tokens do not depend on the board.
pub data Action (P : Type 0) : Type 0 where
  claims : Request P → Action P
  begins_cancel : VariantKey → Action P
  cleans : VariantKey → Text → Action P
  releases : VariantKey → Action P
  commits : ℕ → Action P
  publishes : DownloadProgress → Action P
  clears : VariantKey → Action P

module _ {P : Type 0} where
  unfoldable pub step : Manager P → Action P → Manager P
  unfolding try_claim_slot cancel_begin cancel_clean release commit clear_completed board_set
  step m (claims r) = (try_claim_slot m r).0
  step m (begins_cancel v) = (cancel_begin m v).0
  step m (cleans v path) = cancel_clean m v path
  step m (releases v) = (release m v).0
  step m (commits t) = (commit m t).0
  step m (publishes p) = record m { progress = board_set m.progress p }
  step m (clears v) = clear_completed m v

  unfoldable pub run : Manager P → List (Action P) → Manager P
  run m [] = m
  run m (a ∷ as') = run (step m a) as'
